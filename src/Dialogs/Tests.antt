-- ===== src/Dialogs/Tests.antt =====
-- Runs of the dialogs, and the theorems at concrete data.
use wgpanelne.Prelude.{
  Among, first, later, ℕ, ◌≡◌, ◌≢◌, refl, true, false, ◌⊎◌, none, some, List, [], ◌∷◌, ◌++◌,
}
use wgpanelne.Js.Strings.{Text, codes, text_eq}
use wgpanelne.Js.Trim.{trim}
use wgpanelne.Auth.Errors.{object, Outcome, resolved, rejected}
use wgpanelne.Zod.Reference.{reference}
use wgpanelne.Api.Client.{Backend, request, request_with, patch, post}
use wgpanelne.Dialogs.Submitted.{payload, EndsBy, submit-EndsBy}
use wgpanelne.Hooks.Cache.{name}
use wgpanelne.Hooks.Reference.{key_client, fresh}
use wgpanelne.Auth.Jar.{jar_of_entries}
use wgpanelne.Tables.Filters.{has}
use wgpanelne.Dialogs.Deletion.{Entity, idle, handle_delete, handle_delete-called}
use wgpanelne.Dialogs.Selection.{
  checked_ids, put, closed, Event, check, select_interface, set_enabled, clear_if_changed,
  peers_sync_step, peers_sync_steps, submit_peers, submit_interfaces,
}
use wgpanelne.Dialogs.Chosen.{nothing, choose_all, peers_sync_steps-chosen}
use wgpanelne.Dialogs.Rows.{Closer, on_click, handle_close, fire, opened}
use wgpanelne.Dialogs.Pages.{page, of_peers}
use wgpanelne.Dialogs.Shown.{at, Shown}
use wgpanelne.Dialogs.Settled.{page-Lost}
use wgpanelne.Js.Decimal.{to_string}
use wgpanelne.Dialogs.Resets.{
  handle_reset, handle_confirm, handle_reset_usage, ResetsBy, resets-ResetsBy,
}
use wgpanelne.Dialogs.Boxes.{
  SyncPeerPreview, SyncInterfacePreview, InterfacesEvent, check_interface, show_interfaces,
  peers_sync_body, interfaces_sync_body, interfaces_sync_steps, interfaces_closed, BoxesAgree,
  sync_bodies-BoxesAgree,
}

share_menu : Among (codes "share") (page ℕ of_peers).menu
share_menu = later (codes "sessions") (first _)

-- The form of a peer is open and its request waits.
abbrev waiting : List (Closer ℕ)
waiting = handle_close (codes "edit") ∷ []

page-Lost_example :
    ((fire {A = ℕ} 0 (on_click 8 (codes "share") (at none (some 7) 1))).opens
      ≡ some (codes "share"))
    × (opened (
          (page ℕ of_peers).dialogs
            (fire {A = ℕ} 0 (on_click 8 (codes "share") (at none (some 7) 1))))
        ≡ [])
    × (opened (
          (page ℕ of_peers).dialogs (
            on_click {A = ℕ} 9
              (codes "share")
              (fire {A = ℕ} 0 (on_click 8 (codes "share") (at none (some 7) 1)))))
        ≡ [])
page-Lost_example = page-Lost of_peers 8 9 (some 7) 0 (codes "share") share_menu

abbrev offline_backend : Backend
offline_backend r = rejected (object none)

resets-ResetsBy_example :
    ResetsBy key_client jar_of_entries
      (request patch (codes "/device/traffic/reset"))
      (name (codes "device_data") ∷ [])
      (codes "Total traffic usage reset successfully")
      true
      offline_backend
      fresh
      (handle_reset key_client jar_of_entries offline_backend fresh)
    × ResetsBy key_client jar_of_entries
        (request patch (codes "/peer/reset-usage"))
        (name (codes "peers_list") ∷ [])
        (codes "Peer usages reset successfully")
        true
        offline_backend
        fresh
        (handle_confirm key_client jar_of_entries offline_backend fresh)
    × ResetsBy key_client jar_of_entries
        (request patch (codes "/peer/" ++ to_string 3 ++ codes "/reset-usage"))
        (name (codes "peers_list") ∷ [])
        (codes "Peer usage reset successfully")
        false
        offline_backend
        fresh
        (handle_reset_usage key_client jar_of_entries 3 offline_backend fresh)
resets-ResetsBy_example = resets-ResetsBy key_client jar_of_entries 3 offline_backend fresh

abbrev visit : List Event
visit =
    set_enabled true
    ∷ check (codes "*1") true
    ∷ check (codes "*2") true
    ∷ check (codes "*1") false
    ∷ []

visit_end : checked_ids (peers_sync_steps visit closed).selected ≡ codes "*2" ∷ []
unfolding peers_sync_steps peers_sync_step clear_if_changed put checked_ids text_eq
visit_end = refl

other_interface :
    checked_ids (peers_sync_steps (visit ++ select_interface (codes "wg0") ∷ []) closed).selected
    ≡ []
unfolding peers_sync_steps peers_sync_step clear_if_changed put checked_ids text_eq
other_interface = refl

peers_sync_steps-chosen_example :
    has (codes "*2") (checked_ids (peers_sync_steps visit closed).selected)
    ≡ (choose_all visit
          (record { is_open = false; interface = codes "all"; chosen = nothing })).chosen
        (codes "*2")
peers_sync_steps-chosen_example = peers_sync_steps-chosen visit (codes "*2")

abbrev offline : Backend
offline r = rejected (object none)

submit-EndsBy_example :
    EndsBy
      (request_with post
        (codes "/sync/peers/selected")
        (some (payload (codes "peer_ids") (checked_ids ((codes "*1", true) ∷ [])))))
      (name (codes "peers_list") ∷ [])
      (codes "Selected peers synced successfully")
      (codes "Failed to sync selected peers")
      offline
      (submit_peers reference ((codes "*1", true) ∷ []) offline)
    × EndsBy
        (request_with post
          (codes "/sync/interfaces/selected")
          (some (payload (codes "interface_ids") (checked_ids ((codes "*1", true) ∷ [])))))
        (name (codes "interfaces_list") ∷ [])
        (codes "Selected interfaces synced successfully")
        (codes "Failed to sync selected interfaces")
        offline
        (submit_interfaces reference ((codes "*1", true) ∷ []) offline)
submit-EndsBy_example = submit-EndsBy reference ((codes "*1", true) ∷ []) offline

abbrev phone : Entity
phone = record { id = codes "7"; name = codes "phone" }

abbrev accepts : Text → Outcome (Unit {0})
accepts id = resolved tt

handle_delete-called_example :
    ((trim (codes " phone ") ≡ phone.name)
      × ((handle_delete accepts (codes "Peer") phone (codes " phone ")).called ≡ phone.id ∷ []))
    ⊎ ((trim (codes " phone ") ≢ phone.name)
        × (handle_delete accepts (codes "Peer") phone (codes " phone ") ≡ idle))
handle_delete-called_example = handle_delete-called accepts (codes "Peer") phone (codes " phone ")

abbrev phones : List SyncPeerPreview
phones =
    record {
      id = codes "*1";
      name = codes "phone";
      interface = codes "wg0";
      allowed_address = codes "10.0.0.2/32";
    }
    ∷ record {
      id = codes "*2";
      name = codes "laptop";
      interface = codes "wg0";
      allowed_address = codes "10.0.0.3/32";
    }
    ∷ []

abbrev tunnels : List SyncInterfacePreview
tunnels =
    record {
      id = codes "*9";
      name = codes "wg0";
      listen_port = codes "13231";
      mtu = codes "1420";
      is_running = true;
    }
    ∷ []

abbrev checking : List InterfacesEvent
checking = show_interfaces true ∷ check_interface (codes "*9") true ∷ []

sync_bodies-BoxesAgree_example :
    (BoxesAgree
      (peers_sync_steps visit closed).selected
      (peers_sync_body false (some phones) (peers_sync_steps visit closed).selected))
    × (BoxesAgree (interfaces_sync_steps checking interfaces_closed).selected (
        interfaces_sync_body false
          (some tunnels)
          (interfaces_sync_steps checking interfaces_closed).selected))
sync_bodies-BoxesAgree_example =
    sync_bodies-BoxesAgree visit checking false (some phones) (some tunnels)
