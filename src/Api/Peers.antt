-- ===== src/Api/Peers.antt =====
-- ui/src/api/peers.ts
use wgpanelne.Prelude.{ℕ, Option, none, some, ◌++◌, if◌then◌else◌}
use wgpanelne.Js.Strings.{Text, codes, truthy}
use wgpanelne.Js.Decimal.{to_string}
use wgpanelne.Zod.Values.{Value, str, obj, Fields, end, field}
use wgpanelne.Zod.Interface.{Zod}
use wgpanelne.Schema.Peers.{
  peers_response_schema, create_peer_schema, peer_response_schema,
  peer_allowed_address_response_schema, peer_credentials_response_schema,
  peer_share_response_schema, peer_sessions_response_schema,
}
use wgpanelne.Schema.Sync.{sync_peers_response_schema, sync_peers_request_schema}
use wgpanelne.Api.Client.{
  Api, get, post, put, patch, delete, request, request_with, request_blob, with_id, send, parse,
  data_of, or_empty, return, ◌>>=◌, ◌>>◌,
}

-- `URL.createObjectURL`
unfoldable pub fetch_peer_qr_code : (Value → Text) → ℕ → Api Text
fetch_peer_qr_code create_object_url id = do
  reply ← send (request_blob get (codes "/peer/" ++ to_string id ++ codes "/qrcode"))
  return (create_object_url reply)

unfoldable pub fetch_peer_config : ℕ → Api Value
fetch_peer_config id = send (request_blob get (codes "/peer/" ++ to_string id ++ codes "/config"))

unfoldable pub update_peer_status : ℕ → Api (Unit {0})
update_peer_status id = do
  send (request patch (codes "/peer/" ++ to_string id ++ codes "/status"))
  return tt

unfoldable pub update_peer_share_status : ℕ → Api (Unit {0})
update_peer_share_status id = do
  send (request patch (codes "/peer/" ++ to_string id ++ codes "/share/status"))
  return tt

unfoldable pub delete_peer : ℕ → Api (Unit {0})
delete_peer id = do send (request delete (codes "/peer/" ++ to_string id)); return tt

unfoldable pub update_peer_share_expire : ℕ → Fields → Api (Unit {0})
update_peer_share_expire id peer = do
  send (
      request_with patch (codes "/peer/" ++ to_string id ++ codes "/share/expire")
        (some (obj (with_id id peer))))
  return tt

unfoldable pub reset_peer_usage : ℕ → Api (Unit {0})
reset_peer_usage id = do
  send (request patch (codes "/peer/" ++ to_string id ++ codes "/reset-usage"))
  return tt

unfoldable pub reset_peer_usages : Api (Unit {0})
reset_peer_usages = do send (request patch (codes "/peer/reset-usage")); return tt

unfoldable pub sync_peers : Api (Unit {0})
sync_peers = do send (request post (codes "/sync/peers")); return tt

module _ (z : Zod) where
  unfoldable pub fetch_peers_list : Api Value
  fetch_peers_list = do
    reply ← send (request get (codes "/peer"))
    parsed ← parse z peers_response_schema reply
    return (or_empty (data_of parsed))

  unfoldable pub create_peer : Value → Api (Option Value)
  create_peer peer = do
    validated ← parse z create_peer_schema peer
    reply ← send (request_with post (codes "/peer") validated)
    parsed ← parse z peer_response_schema reply
    return (data_of parsed)

  -- `peer` is its `id` with the other fields.
  unfoldable pub update_peer : ℕ → Fields → Api (Option Value)
  update_peer id peer = do
    reply ← send (request_with put (codes "/peer/" ++ to_string id) (some (obj (with_id id peer))))
    parsed ← parse z peer_response_schema reply
    return (data_of parsed)

  unfoldable pub fetch_peer_allowed_address : Value → Api (Option Value)
  fetch_peer_allowed_address iface = do
    reply ← send (request_with post (codes "/peer/allowed-address") (some iface))
    parsed ← parse z peer_allowed_address_response_schema reply
    return (data_of parsed)

  unfoldable pub fetch_peer_credentials : Api (Option Value)
  fetch_peer_credentials = do
    reply ← send (request get (codes "/peer/credentials"))
    parsed ← parse z peer_credentials_response_schema reply
    return (data_of parsed)

  unfoldable pub fetch_peer_share_status : ℕ → Api (Option Value)
  fetch_peer_share_status id = do
    reply ← send (request get (codes "/peer/" ++ to_string id ++ codes "/share"))
    parsed ← parse z peer_share_response_schema reply
    return (data_of parsed)

  unfoldable pub fetch_peer_sessions : ℕ → Api (Option Value)
  fetch_peer_sessions id = do
    reply ← send (request get (codes "/peer/" ++ to_string id ++ codes "/sessions"))
    parsed ← parse z peer_sessions_response_schema reply
    return (data_of parsed)

  -- The parameter `interface` is sent for a name that is given and not empty.
  abbrev interface_params : Option Text → Fields
  interface_params none = end
  interface_params (some name) =
      if truthy name then field (codes "interface") (str name) end else end

  unfoldable pub fetch_sync_peers : Option Text → Api Value
  fetch_sync_peers interface_name = do
    reply ←
        send
          (record (request get (codes "/sync/peers")) { params = interface_params interface_name })
    parsed ← parse z sync_peers_response_schema reply
    return (or_empty (data_of parsed))

  unfoldable pub sync_selected_peers : Value → Api (Unit {0})
  sync_selected_peers payload = do
    validated ← parse z sync_peers_request_schema payload
    send (request_with post (codes "/sync/peers/selected") validated)
    return tt
