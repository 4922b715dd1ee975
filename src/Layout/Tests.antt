-- ===== src/Layout/Tests.antt =====
-- The sidebar and the initials at concrete data.
use wgpanelne.Prelude.{first, later, [], ◌≡◌, refl, true, false, none, some, ◌∷◌, ◌++◌}
use wgpanelne.Js.Strings.{Text, codes, text_eq}
use wgpanelne.Js.Split.{split, first_part}
use wgpanelne.Layout.Navigation.{check_is_active}
use wgpanelne.Layout.Sidebar.{nav_commands, group_commands, item_commands, app_sidebar}
use wgpanelne.Layout.Links.{shown, active, targets, active-page}

elsewhere :
    check_is_active (codes "/servers") (record { url = some (codes "/"); items = none }) false
    ≡ false
unfolding check_is_active text_eq split first_part
elsewhere = refl

abbrev unchanged : Text → Text
unchanged t = t

active-page_example :
    (active (shown (app_sidebar true false (codes "/servers"))) ≡ codes "/servers" ∷ [])
    × (active (shown (app_sidebar true false (codes "/servers" ++ b'?' ∷ codes "x=1")))
        ≡ codes "/servers" ∷ [])
unfolding targets nav_commands group_commands item_commands
active-page_example =
    active-page true false (codes "/servers") (codes "x=1") (later (codes "/") (first _))
