-- ===== src/Dialogs/Selection.antt =====
-- ui/src/features/peers/components/dialogs/peers-sync-dialog.tsx and
-- ui/src/features/interfaces/components/interfaces-sync-dialog.tsx: the checkboxes, and what is
-- submitted. The record of the checkboxes is its entries in the order of insertion, as JavaScript
-- keeps it for identifiers that are no array indices (those of a MikroTik router begin with `*`).
use wgpanelne.Prelude.{
  Bool, true, false, not, ◌&&◌, Option, none, some, List, [], ◌∷◌, if◌then◌else◌, length, ◌==◌,
}
use wgpanelne.Js.Strings.{Text, codes, text_eq}
use wgpanelne.Auth.Errors.{Thrown, Outcome, resolved, rejected}
use wgpanelne.Zod.Values.{str, arr, obj, Items, nil, cons, end, field}
use wgpanelne.Zod.Interface.{Zod}
use wgpanelne.Api.Client.{Backend, Request}
use wgpanelne.Api.Peers.{sync_selected_peers}
use wgpanelne.Api.Interfaces.{sync_selected_interfaces}
use wgpanelne.Hooks.Cache.{Key, name}

abbrev pub Selected : Type 0
Selected = List (Text × Bool)

-- `{ ...prev, [id]: checked }`
unfoldable pub put : Text → Bool → Selected → Selected
put id checked [] = (id, checked) ∷ []
put id checked ((k, c) ∷ prev) =
    let rest = put id checked prev in if text_eq id k then (k, checked) ∷ prev else (k, c) ∷ rest

-- `Object.entries(selected).filter(([, checked]) => checked).map(([id]) => id)`
unfoldable pub checked_ids : Selected → List Text
checked_ids [] = []
checked_ids ((id, checked) ∷ selected) =
    let rest = checked_ids selected in if checked then id ∷ rest else rest

-- The state of `PeersSyncDialog`; `enabled` says that the open dialog is this one.
pub record PeersSync : Type 0 where
  pub enabled : Bool
  pub selected_interface : Text
  pub selected : Selected

abbrev pub closed : PeersSync
closed = record { enabled = false; selected_interface = codes "all"; selected = [] }

pub data Event : Type 0 where
  check : Text → Bool → Event
  select_interface : Text → Event
  set_enabled : Bool → Event

abbrev pub bool_eq : Bool → Bool → Bool
bool_eq true b = b
bool_eq false b = not b

-- The effect, which runs when one of its dependencies `[enabled, selectedInterface]` changed.
unfoldable pub clear_if_changed : PeersSync → PeersSync → PeersSync
clear_if_changed old new =
    if bool_eq old.enabled new.enabled && text_eq old.selected_interface new.selected_interface
    then new
    else if new.enabled
    then record new { selected = [] }
    else new

abbrev changed : Event → PeersSync → PeersSync
changed (check id checked) s = record s { selected = put id checked s.selected }
changed (select_interface t) s = record s { selected_interface = t }
changed (set_enabled b) s = record s { enabled = b }

unfoldable pub peers_sync_step : Event → PeersSync → PeersSync
unfolding clear_if_changed
peers_sync_step e s = clear_if_changed s (changed e s)

unfoldable pub peers_sync_steps : List Event → PeersSync → PeersSync
peers_sync_steps [] s = s
peers_sync_steps (e ∷ es) s = peers_sync_steps es (peers_sync_step e s)

-- `disabled={!peerIds.length}`
abbrev pub can_submit : Selected → Bool
can_submit selected = not (length (checked_ids selected) == 0)

abbrev pub strings : List Text → Items
strings [] = nil
strings (t ∷ ts) = cons (str t) (strings ts)

-- What a submission does: its requests, the keys it invalidates, whether the dialog stays open,
-- what is toasted, and the error that it throws on.
pub record Submitted : Type 0 where
  pub sent : List Request
  pub invalidated : List Key
  pub stays_open : Bool
  pub toasted : Text
  pub thrown : Option Thrown

abbrev pub settle : Text → Text → Key → List Request × Outcome (Unit {0}) → Submitted
settle success failure key (sent, resolved _) = record {
  sent = sent;
  invalidated = key ∷ [];
  stays_open = false;
  toasted = success;
  thrown = none;
}
settle success failure key (sent, rejected e) = record {
  sent = sent;
  invalidated = [];
  stays_open = true;
  toasted = failure;
  thrown = some e;
}

module _ (z : Zod) where
  unfoldable pub submit_peers : Selected → Backend → Submitted
  submit_peers selected backend =
      settle (codes "Selected peers synced successfully") (codes "Failed to sync selected peers")
        (name (codes "peers_list") ∷ [])
        (sync_selected_peers z
          (obj (field (codes "peer_ids") (arr (strings (checked_ids selected))) end)) backend)

  unfoldable pub submit_interfaces : Selected → Backend → Submitted
  submit_interfaces selected backend =
      settle (codes "Selected interfaces synced successfully")
        (codes "Failed to sync selected interfaces") (name (codes "interfaces_list") ∷ [])
        (sync_selected_interfaces z
          (obj (field (codes "interface_ids") (arr (strings (checked_ids selected))) end)) backend)
