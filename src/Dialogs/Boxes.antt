-- ===== src/Dialogs/Boxes.antt =====
-- ui/src/features/peers/components/dialogs/peers-sync-dialog.tsx and
-- ui/src/features/interfaces/components/interfaces-sync-dialog.tsx: the tables of checkboxes.
use wgpanelne.Prelude.{
  ◌≡◌, refl, Bool, true, false, inl, inr, Option, none, some, List, [], ◌∷◌, if◌then◌else◌, arith,
  Bool-cases, All, map,
}
use wgpanelne.Js.Strings.{Text, codes, text_eq, text_eq_iff}
use wgpanelne.Tables.Filters.{has}
use wgpanelne.Dialogs.Selection.{
  Selected, put, checked_ids, closed, Event, bool_eq, peers_sync_steps,
}
use wgpanelne.Dialogs.Chosen.{Distinct, has-checked_ids, put-Distinct, steps-Distinct}

-- What the router has.
pub record SyncPeerPreview : Type 0 where
  pub id : Text
  pub name : Text
  pub interface : Text
  pub allowed_address : Text

pub record SyncInterfacePreview : Type 0 where
  pub id : Text
  pub name : Text
  pub listen_port : Text
  pub mtu : Text
  pub is_running : Bool

-- A row of the table: its key, its checkbox and its texts.
pub record SyncRow : Type 0 where
  pub id : Text
  pub checked : Bool
  pub cells : List Text

pub data SyncBody : Type 0 where
  one_row : Text → SyncBody
  rows : List SyncRow → SyncBody

-- `selected[id] ?? false`
unfoldable pub is_checked : Text → Selected → Bool
is_checked id [] = false
is_checked id ((k, c) ∷ s) = let rest = is_checked id s in if text_eq id k then c else rest

abbrev pub peer_row : Selected → SyncPeerPreview → SyncRow
peer_row selected p = record {
  id = p.id;
  checked = is_checked p.id selected;
  cells = p.name ∷ p.interface ∷ p.allowed_address ∷ [];
}

abbrev pub interface_row : Selected → SyncInterfacePreview → SyncRow
interface_row selected i = record {
  id = i.id;
  checked = is_checked i.id selected;
  cells =
      i.name
      ∷ i.listen_port
      ∷ i.mtu
      ∷ (if i.is_running then codes "Running" else codes "Not Running")
      ∷ [];
}

unfoldable pub peers_sync_body : Bool → Option (List SyncPeerPreview) → Selected → SyncBody
peers_sync_body true data' selected = one_row (codes "Loading peers...")
peers_sync_body false none selected = one_row (codes "No peers found for this interface.")
peers_sync_body false (some []) selected = one_row (codes "No peers found for this interface.")
peers_sync_body false (some (p ∷ ps)) selected = rows (map (peer_row selected) (p ∷ ps))

unfoldable pub interfaces_sync_body :
    Bool → Option (List SyncInterfacePreview) → Selected → SyncBody
interfaces_sync_body true data' selected = one_row (codes "Loading interfaces...")
interfaces_sync_body false none selected = one_row (codes "No interfaces found.")
interfaces_sync_body false (some []) selected = one_row (codes "No interfaces found.")
interfaces_sync_body false (some (i ∷ is)) selected = rows (map (interface_row selected) (i ∷ is))

-- The state of `InterfacesSyncDialog`.
pub record InterfacesSync : Type 0 where
  pub enabled : Bool
  pub selected : Selected

pub data InterfacesEvent : Type 0 where
  check_interface : Text → Bool → InterfacesEvent
  show_interfaces : Bool → InterfacesEvent

-- `set_enabled` runs the effect of `[enabled]` when it changes it.
unfoldable pub interfaces_sync_step : InterfacesEvent → InterfacesSync → InterfacesSync
interfaces_sync_step (check_interface id checked) s = record s {
  selected = put id checked s.selected;
}
interfaces_sync_step (show_interfaces b) s =
    if bool_eq s.enabled b
    then s
    else if b
    then record { enabled = true; selected = [] }
    else record s { enabled = false }

unfoldable pub interfaces_sync_steps : List InterfacesEvent → InterfacesSync → InterfacesSync
interfaces_sync_steps [] s = s
interfaces_sync_steps (e ∷ es) s = interfaces_sync_steps es (interfaces_sync_step e s)

abbrev pub interfaces_closed : InterfacesSync
interfaces_closed = record { enabled = false; selected = [] }

is_checked_lem : (x : Text) (s : Selected) → Distinct s → is_checked x s ≡ has x (checked_ids s)
unfolding is_checked checked_ids Distinct
is_checked_lem x [] h = refl
is_checked_lem x ((k, c) ∷ s) (h, hs) = elim (Bool-cases (text_eq x k)) [
  | inl same ↦ rw same (go c ((text_eq_iff x k).0 same))
  | inr other ↦ ground (arith, other, is_checked_lem x s hs)
]
  where
    go : (b : Bool) → x ≡ k → b ≡ has x (if b then k ∷ checked_ids s else checked_ids s)
    go true e = ground (arith, text_eq_iff x k)
    go false e = ground (arith, has-checked_ids k s h, e)

-- The boxes that are drawn checked are those whose identifiers would be submitted.
abbrev pub BoxesAgree : Selected → SyncBody → Type 0
BoxesAgree selected (one_row t) = Unit
BoxesAgree selected (rows l) = All (λ r. r.checked ≡ has r.id (checked_ids selected)) l

peer_rows-Agree :
    (s : Selected) (ps : List SyncPeerPreview)
    → Distinct s
    → All (λ r. r.checked ≡ has r.id (checked_ids s)) (map (peer_row s) ps)
peer_rows-Agree s [] h = tt
peer_rows-Agree s (p ∷ ps) h = (is_checked_lem p.id s h, peer_rows-Agree s ps h)

interface_rows-Agree :
    (s : Selected) (is : List SyncInterfacePreview)
    → Distinct s
    → All (λ r. r.checked ≡ has r.id (checked_ids s)) (map (interface_row s) is)
interface_rows-Agree s [] h = tt
interface_rows-Agree s (i ∷ is) h = (is_checked_lem i.id s h, interface_rows-Agree s is h)

peers_sync_body-Agree :
    (l : Bool) (d : Option (List SyncPeerPreview)) (s : Selected)
    → Distinct s
    → BoxesAgree s (peers_sync_body l d s)
unfolding peers_sync_body
peers_sync_body-Agree true d s h = tt
peers_sync_body-Agree false none s h = tt
peers_sync_body-Agree false (some []) s h = tt
peers_sync_body-Agree false (some (p ∷ ps)) s h = peer_rows-Agree s (p ∷ ps) h

interfaces_sync_body-Agree :
    (l : Bool) (d : Option (List SyncInterfacePreview)) (s : Selected)
    → Distinct s
    → BoxesAgree s (interfaces_sync_body l d s)
unfolding interfaces_sync_body
interfaces_sync_body-Agree true d s h = tt
interfaces_sync_body-Agree false none s h = tt
interfaces_sync_body-Agree false (some []) s h = tt
interfaces_sync_body-Agree false (some (i ∷ is)) s h = interface_rows-Agree s (i ∷ is) h

interfaces_steps-Distinct :
    (es : List InterfacesEvent) (s : InterfacesSync)
    → Distinct s.selected
    → Distinct (interfaces_sync_steps es s).selected
unfolding interfaces_sync_steps interfaces_sync_step Distinct
interfaces_steps-Distinct [] s h = h
interfaces_steps-Distinct (check_interface id b ∷ es) s h =
    interfaces_steps-Distinct es (record s { selected = put id b s.selected })
      (put-Distinct id b s.selected h)
interfaces_steps-Distinct (show_interfaces b ∷ es) s h =
    interfaces_steps-Distinct es (interfaces_sync_step (show_interfaces b) s)
      (go (bool_eq s.enabled b) b)
  where
    go :
        (same b : Bool)
        → Distinct
            (if same
              then s
              else if b
              then record { enabled = true; selected = [] }
              else record s { enabled = false }).selected
    go true b = h
    go false true = tt
    go false false = h

-- After any events from the closed dialogs on, whatever the router has: the boxes that the dialog of
-- peers, or of interfaces, draws checked are exactly those of its rows whose identifiers would be
-- submitted.
pub sync_bodies-BoxesAgree :
    (es : List Event) (is : List InterfacesEvent) (is_loading : Bool)
    (ps : Option (List SyncPeerPreview)) (ns : Option (List SyncInterfacePreview))
    → (BoxesAgree
        (peers_sync_steps es closed).selected
        (peers_sync_body is_loading ps (peers_sync_steps es closed).selected))
      × (BoxesAgree (interfaces_sync_steps is interfaces_closed).selected (
          interfaces_sync_body is_loading ns (interfaces_sync_steps is interfaces_closed).selected))
unfolding Distinct
sync_bodies-BoxesAgree es is is_loading ps ns = (
  peers_sync_body-Agree is_loading ps (peers_sync_steps es closed).selected (steps-Distinct es),
  interfaces_sync_body-Agree is_loading ns (interfaces_sync_steps is interfaces_closed).selected
      (interfaces_steps-Distinct is interfaces_closed tt),
)
