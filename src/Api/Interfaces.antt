-- ===== src/Api/Interfaces.antt =====
-- ui/src/api/interfaces.ts
use wgpanelne.Prelude.{ℕ, Option, some, ◌++◌}
use wgpanelne.Js.Strings.{codes}
use wgpanelne.Js.Decimal.{to_string}
use wgpanelne.Zod.Values.{Value, obj, Fields}
use wgpanelne.Zod.Interface.{Zod}
use wgpanelne.Schema.Interfaces.{
  interfaces_response_schema, create_interface_schema, interface_response_schema,
}
use wgpanelne.Schema.Sync.{sync_interfaces_response_schema, sync_interfaces_request_schema}
use wgpanelne.Api.Client.{
  Api, get, post, put, patch, delete, request, request_with, with_id, send, parse, data_of,
  or_empty, return, ◌>>=◌, ◌>>◌,
}

unfoldable pub update_interface_status : ℕ → Api (Unit {0})
update_interface_status id = do
  send (request patch (codes "/interface/" ++ to_string id ++ codes "/status"))
  return tt

unfoldable pub delete_interface : ℕ → Api (Unit {0})
delete_interface id = do send (request delete (codes "/interface/" ++ to_string id)); return tt

unfoldable pub sync_interfaces : Api (Unit {0})
sync_interfaces = do send (request post (codes "/sync/interfaces")); return tt

module _ (z : Zod) where
  unfoldable pub fetch_interfaces_list : Api Value
  fetch_interfaces_list = do
    reply ← send (request get (codes "/interface"))
    parsed ← parse z interfaces_response_schema reply
    return (or_empty (data_of parsed))

  unfoldable pub create_interface : Value → Api (Option Value)
  create_interface wg_interface = do
    validated ← parse z create_interface_schema wg_interface
    reply ← send (request_with post (codes "/interface") validated)
    parsed ← parse z interface_response_schema reply
    return (data_of parsed)

  -- `wg_interface` is its `id` with the other fields.
  unfoldable pub update_interface : ℕ → Fields → Api (Option Value)
  update_interface id wg_interface = do
    reply ← send (
        request_with put (codes "/interface/" ++ to_string id)
          (some (obj (with_id id wg_interface))))
    parsed ← parse z interface_response_schema reply
    return (data_of parsed)

  unfoldable pub fetch_sync_interfaces : Api Value
  fetch_sync_interfaces = do
    reply ← send (request get (codes "/sync/interfaces"))
    parsed ← parse z sync_interfaces_response_schema reply
    return (or_empty (data_of parsed))

  unfoldable pub sync_selected_interfaces : Value → Api (Unit {0})
  sync_selected_interfaces payload = do
    validated ← parse z sync_interfaces_request_schema payload
    send (request_with post (codes "/sync/interfaces/selected") validated)
    return tt
