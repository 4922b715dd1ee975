-- ===== src/Api/User.antt =====
-- ui/src/api/user.ts
use wgpanelne.Prelude.{Option, ◌++◌}
use wgpanelne.Js.Strings.{Text, codes}
use wgpanelne.Zod.Values.{Value}
use wgpanelne.Zod.Interface.{Zod}
use wgpanelne.Schema.Peers.{peer_stats_response_schema}
use wgpanelne.Api.Client.{
  Api, get, request, request_blob, or_undefined, send, parse, data_of, return, ◌>>=◌,
}

unfoldable pub fetch_user_qr_code : (Value → Text) → Option Text → Api Text
fetch_user_qr_code create_object_url uuid = do
  reply ← send (request_blob get (codes "/user/" ++ or_undefined uuid ++ codes "/qrcode"))
  return (create_object_url reply)

unfoldable pub fetch_user_config : Option Text → Api Value
fetch_user_config uuid =
    send (request_blob get (codes "/user/" ++ or_undefined uuid ++ codes "/config"))

module _ (z : Zod) where
  unfoldable pub fetch_user_details : Option Text → Api (Option Value)
  fetch_user_details uuid = do
    reply ← send (request get (codes "/user/" ++ or_undefined uuid ++ codes "/details"))
    parsed ← parse z peer_stats_response_schema reply
    return (data_of parsed)
