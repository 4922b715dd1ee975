-- ===== src/Tables/Badges.antt =====
-- ui/src/features/shared-components/table/data-table-toolbar.tsx: the options of the status filter, and
-- which peers a selection of them leaves.
use wgpanelne.Prelude.{◌≡◌, refl, ap, sym, ◌∙◌, Option, none, some, List, [], ◌∷◌, map, any}
use wgpanelne.Js.Strings.{Text, codes}
use wgpanelne.Tables.Filters.{has, texts, filter_fn}
use wgpanelne.Tables.Selecting.{filter_fn_texts}
use wgpanelne.Tables.Columns.{
  Peer, Shown, status_color, plain, badge, switch, row_actions, status_cell,
}

pub data TableType : Type 0 where
  servers interfaces pools peers : TableType

-- The label and the value of each option; `none` where the table has no filter.
unfoldable pub status_options : TableType → Option (List (Text × Text))
status_options servers =
    some
      ((codes "Available", codes "available") ∷ (codes "Not Available", codes "not_available") ∷ [])
status_options interfaces =
    some ((codes "Running", codes "running") ∷ (codes "Not Running", codes "not_running") ∷ [])
status_options peers = some (
    (codes "Active", codes "active")
    ∷ (codes "Inactive", codes "inactive")
    ∷ (codes "Expired", codes "expired")
    ∷ (codes "Suspended", codes "suspended")
    ∷ [])
status_options pools = none

-- The texts of the badges that a cell shows.
unfoldable pub badge_texts : List Shown → List Text
badge_texts [] = []
badge_texts (plain t ∷ l) = badge_texts l
badge_texts (badge c t ∷ l) = t ∷ badge_texts l
badge_texts (switch b ∷ l) = badge_texts l
badge_texts (row_actions ∷ l) = badge_texts l

badge_texts-map : (l : List Text) → badge_texts (map (λ s. badge (status_color s) s) l) ≡ l
unfolding badge_texts
badge_texts-map [] = refl
badge_texts-map (s ∷ l) = ap (λ r. s ∷ r) (badge_texts-map l)

-- A peer is left in the table by a selection of statuses exactly when one of the badges in its status
-- column is among them; the filter never throws on a peer.
pub filter_fn-badges :
    (p : Peer) (selected : List Text)
    → filter_fn (texts p.status) selected
      ≡ some (any (λ t. has t selected) (badge_texts (status_cell p)))
unfolding status_cell
filter_fn-badges p selected =
    filter_fn_texts p.status selected
    ∙ ap (λ l. some (any (λ t. has t selected) l)) (sym (badge_texts-map p.status))
