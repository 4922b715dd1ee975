-- ===== src/Api/IpPool.antt =====
-- ui/src/api/ip-pool.ts
use wgpanelne.Prelude.{ℕ, Option, some, ◌++◌}
use wgpanelne.Js.Strings.{codes}
use wgpanelne.Js.Decimal.{to_string}
use wgpanelne.Zod.Values.{Value, obj, Fields}
use wgpanelne.Zod.Interface.{Zod}
use wgpanelne.Schema.IpPool.{
  ip_pools_response_schema, create_ip_pool_schema, ip_pool_response_schema,
}
use wgpanelne.Api.Client.{
  Api, get, post, put, delete, request, request_with, with_id, send, parse, data_of, or_empty,
  return, ◌>>=◌, ◌>>◌,
}

unfoldable pub delete_ip_pool : ℕ → Api (Unit {0})
delete_ip_pool id = do send (request delete (codes "/ip-pool/" ++ to_string id)); return tt

module _ (z : Zod) where
  unfoldable pub fetch_ip_pools_list : Api Value
  fetch_ip_pools_list = do
    reply ← send (request get (codes "/ip-pool"))
    parsed ← parse z ip_pools_response_schema reply
    return (or_empty (data_of parsed))

  unfoldable pub create_ip_pool : Value → Api (Option Value)
  create_ip_pool ip_pool = do
    validated ← parse z create_ip_pool_schema ip_pool
    reply ← send (request_with post (codes "/ip-pool") validated)
    parsed ← parse z ip_pool_response_schema reply
    return (data_of parsed)

  -- `ip_pool` is its `id` with the other fields.
  unfoldable pub update_ip_pool : ℕ → Fields → Api (Option Value)
  update_ip_pool id ip_pool = do
    reply ←
        send
          (request_with put (codes "/ip-pool/" ++ to_string id) (some (obj (with_id id ip_pool))))
    parsed ← parse z ip_pool_response_schema reply
    return (data_of parsed)
