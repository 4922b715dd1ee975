-- ===== src/Peers/Tests.antt =====
-- Runs of the dialog of the configuration, and the theorem at concrete data.
use wgpanelne.Prelude.{◌≡◌, refl, true, some, none, List, [], ◌∷◌, length, any}
use wgpanelne.Js.Strings.{codes}
use wgpanelne.Peers.Config.{
  Event, render, copy, fresh, with_blob, effect, handle_copy, dialog_step, dialog_steps,
  is_download, once, dialog_steps-once,
}

abbrev draws : List Event
draws =
    render (record { peer_config_blob = none; download = true; row_name = codes "phone" })
    ∷ render
        (record { peer_config_blob = some (codes "x"); download = true; row_name = codes "phone" })
    ∷ copy
    ∷ render
        (record { peer_config_blob = some (codes "x"); download = true; row_name = codes "phone" })
    ∷ []

draws_end : (dialog_steps draws fresh).downloads ≡ (codes "phone.conf", codes "x") ∷ []
unfolding dialog_steps dialog_step effect with_blob handle_copy
draws_end = refl

dialog_steps-once_example :
    (length (dialog_steps draws fresh).downloads ≡ once (any is_download draws))
    × ((dialog_steps draws fresh).closed ≡ once (any is_download draws))
dialog_steps-once_example = dialog_steps-once draws
