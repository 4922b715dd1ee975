-- ===== src/Api/Telegram.antt =====
-- ui/src/api/telegram.ts
use wgpanelne.Prelude.{Option, ◌++◌}
use wgpanelne.Js.Strings.{Text, codes}
use wgpanelne.Zod.Values.{Value}
use wgpanelne.Zod.Interface.{Zod}
use wgpanelne.Schema.Telegram.{
  telegram_status_response_schema, peer_telegram_status_response_schema,
}
use wgpanelne.Api.Client.{Api, get, request, or_undefined, send, parse, data_of, return, ◌>>=◌}

module _ (z : Zod) where
  unfoldable pub fetch_telegram_status : Api (Option Value)
  fetch_telegram_status = do
    reply ← send (request get (codes "/telegram/status"))
    parsed ← parse z telegram_status_response_schema reply
    return (data_of parsed)

  unfoldable pub fetch_peer_telegram_status : Option Text → Api (Option Value)
  fetch_peer_telegram_status uuid = do
    reply ← send (request get (codes "/user/" ++ or_undefined uuid ++ codes "/telegram"))
    parsed ← parse z peer_telegram_status_response_schema reply
    return (data_of parsed)
