-- ===== src/Api/Dashboard.antt =====
-- ui/src/api/dashboard.ts
use wgpanelne.Prelude.{ℕ, Option}
use wgpanelne.Prelude.Int.{pos}
use wgpanelne.Js.Strings.{codes}
use wgpanelne.Zod.Values.{Value, num, end, field}
use wgpanelne.Zod.Interface.{Zod}
use wgpanelne.Schema.Dashboard.{device_data_response_schema, daily_traffic_usage_response_schema}
use wgpanelne.Api.Client.{Api, get, patch, request, send, parse, data_of, return, ◌>>=◌, ◌>>◌}

unfoldable pub reset_total_traffic_usage : Api (Unit {0})
reset_total_traffic_usage = do send (request patch (codes "/device/traffic/reset")); return tt

module _ (z : Zod) where
  unfoldable pub fetch_device_data : Api (Option Value)
  fetch_device_data = do
    reply ← send (request get (codes "/device/stats"))
    parsed ← parse z device_data_response_schema reply
    return (data_of parsed)

  unfoldable pub fetch_daily_traffic_usage : ℕ → Api (Option Value)
  fetch_daily_traffic_usage range = do
    reply ← send (record (request get (codes "/device/traffic")) {
      params = field (codes "range") (num (pos range)) end;
    })
    parsed ← parse z daily_traffic_usage_response_schema reply
    return (data_of parsed)
