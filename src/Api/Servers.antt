-- ===== src/Api/Servers.antt =====
-- ui/src/api/servers.ts. A server that is updated has an `id`, as its form's rows do.
use wgpanelne.Prelude.{ℕ, Option, some, ◌++◌}
use wgpanelne.Js.Strings.{codes}
use wgpanelne.Js.Decimal.{to_string}
use wgpanelne.Zod.Values.{Value, obj, Fields}
use wgpanelne.Zod.Interface.{Zod}
use wgpanelne.Schema.Servers.{servers_response_schema, create_server_schema, server_response_schema}
use wgpanelne.Api.Client.{
  Api, get, post, put, patch, delete, request, request_with, with_id, send, parse, data_of,
  or_empty, return, ◌>>=◌, ◌>>◌,
}

unfoldable pub update_server_status : ℕ → Api (Unit {0})
update_server_status id = do
  send (request patch (codes "/server/" ++ to_string id ++ codes "/status"))
  return tt

unfoldable pub delete_server : ℕ → Api (Unit {0})
delete_server id = do send (request delete (codes "/server/" ++ to_string id)); return tt

module _ (z : Zod) where
  unfoldable pub fetch_servers_list : Api Value
  fetch_servers_list = do
    reply ← send (request get (codes "/server"))
    parsed ← parse z servers_response_schema reply
    return (or_empty (data_of parsed))

  unfoldable pub create_server : Value → Api (Option Value)
  create_server server = do
    validated ← parse z create_server_schema server
    reply ← send (request_with post (codes "/server") validated)
    parsed ← parse z server_response_schema reply
    return (data_of parsed)

  -- `server` is its `id` with the other fields.
  unfoldable pub update_server : ℕ → Fields → Api (Option Value)
  update_server id server = do
    reply ←
        send (request_with put (codes "/server/" ++ to_string id) (some (obj (with_id id server))))
    parsed ← parse z server_response_schema reply
    return (data_of parsed)
