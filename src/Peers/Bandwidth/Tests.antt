-- ===== src/Peers/Bandwidth/Tests.antt =====
-- Runs of the field, and the theorems at concrete data.
use wgpanelne.Prelude.{◌≡◌, refl, none, some, List, [], ◌∷◌}
use wgpanelne.Js.Strings.{codes}
use wgpanelne.Peers.Bandwidth.{
  gb, get_combined_value, match_bandwidth, initial, Event, type_text, choose_unit, clear, load,
  step, steps,
}
use wgpanelne.Peers.Bandwidth.Agreement.{IsStored, Agrees, steps-Agrees, load_round_trip}

match_tests :
    (match_bandwidth (codes "10.5m") ≡ some (codes "10.5", b'm'))
    × (match_bandwidth (codes "7K") ≡ some (codes "7", b'K'))
    × (match_bandwidth (codes "1.M") ≡ none)
    × (match_bandwidth (codes "10") ≡ none)
    × (match_bandwidth (codes "-3G") ≡ none)
unfolding match_bandwidth
match_tests = (refl, refl, refl, refl, refl)

abbrev visit : List Event
visit =
    load (codes "10M")
    ∷ choose_unit gb
    ∷ type_text (codes "x")
    ∷ clear
    ∷ type_text (codes "2.5")
    ∷ []

visit_end :
    steps visit initial ≡ record { raw_value = codes "2.5"; unit = gb; value = some (codes "2.5G") }
unfolding steps get_combined_value match_bandwidth
visit_end = refl

stored : IsStored (codes "10M")
stored = (codes "10", b'M', unfold match_bandwidth in refl, refl)

steps-Agrees_example : Agrees (steps visit initial)
steps-Agrees_example = steps-Agrees visit (stored, (tt, (tt, (tt, (tt, tt)))))

load_round_trip_example :
    let t = step (load (codes "10M")) initial in
    (t.value ≡ some (codes "10M"))
    × (get_combined_value t.raw_value t.unit ≡ codes "10M")
    × (step (choose_unit t.unit) t ≡ t)
load_round_trip_example = load_round_trip (codes "10M") initial stored
