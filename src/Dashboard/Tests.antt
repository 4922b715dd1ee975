-- ===== src/Dashboard/Tests.antt =====
-- Runs of the dashboard, and the theorems at concrete data.
use wgpanelne.Prelude.{◌≡◌, refl, false, none, some, []}
use wgpanelne.Js.Strings.{codes}
use wgpanelne.Js.Decimal.{to_string}
use wgpanelne.Dashboard.Traffic.{traffic_chart, no_traffic}
use wgpanelne.Dashboard.Cards.{PeerInfo, number, text, display_value}

display_tests :
    (display_value (some (number 0)) none ≡ codes "0")
    × (display_value (some (text [])) (some (codes "GB")) ≡ codes "-")
    × (display_value (some (text (codes "1.5"))) (some (codes "GB")) ≡ codes "1.5 GB")
unfolding display_value to_string
display_tests = (refl, refl, refl)

no_days : traffic_chart false false none ≡ no_traffic
unfolding traffic_chart
no_days = refl

abbrev one_offline : PeerInfo
one_offline = record {
  recent_online_peers = none;
  total_peers = 1;
  online_peers = 0;
  offline_peers = 1;
  disabled_peers = 0;
}
