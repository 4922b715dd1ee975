-- ===== src/Dialogs/Pages.antt =====
-- The dialogs, the row menus and the buttons of the four features:
-- ui/src/features/*/components/*-dialogs.tsx, *-table-row-actions.tsx and *-primary-buttons.tsx.
use wgpanelne.Prelude.{
  ◌||◌, ℕ, Bool, true, false, Option, none, some, List, [], ◌∷◌, if◌then◌else◌, ◌==◌,
}
use wgpanelne.Js.Strings.{Text, codes}
use wgpanelne.Dialogs.Opening.{same_dialog}
use wgpanelne.Dialogs.Rows.{Rows, Dialog, press, handle_close, Page}

module _ {ℓ} {A : Type ℓ} where
  -- `open === '...'`
  abbrev pub is : Text → Rows A → Bool
  is t s = same_dialog s.opens (some t)

  abbrev action_dialog : Text → Text → Option A → (Rows A → Rows A) → Rows A → Dialog A
  action_dialog t form_id row close s = record {
    component = codes "ActionDialog";
    about = form_id;
    row = row;
    is_open = is t s;
    submits = true;
    on_open_change = close;
  }

  abbrev delete_entity_dialog : Text → A → Rows A → Dialog A
  delete_entity_dialog entity_type row s = record {
    component = codes "DeleteEntityDialog";
    about = entity_type;
    row = some row;
    is_open = is (codes "delete") s;
    submits = true;
    on_open_change = handle_close (codes "delete");
  }

  -- `onOpenChange={(value) => !value && setOpen(null)}`
  abbrev sync_dialog : Text → Rows A → Dialog A
  sync_dialog component s = record {
    component = component;
    about = [];
    row = none;
    is_open = is (codes "sync") s;
    submits = true;
    on_open_change = press none;
  }

  abbrev peer_dialog : Text → Text → A → Rows A → Dialog A
  peer_dialog t component row s = record {
    component = component;
    about = [];
    row = some row;
    is_open = is t s;
    submits = false;
    on_open_change = handle_close t;
  }

  abbrev peers_config_dialog : A → Rows A → Dialog A
  peers_config_dialog row s = record {
    component = codes "PeersConfigDialog";
    about = [];
    row = some row;
    is_open = is (codes "show_config") s || is (codes "download_config") s;
    submits = false;
    on_open_change =
        if is (codes "download_config") s
        then handle_close (codes "download_config")
        else handle_close (codes "show_config");
  }

  -- `currentRow && (...)`
  abbrev current : Option A → (A → List (Dialog A)) → List (Dialog A)
  current none f = []
  current (some r) f = f r

  unfoldable pub peers_dialogs : Rows A → List (Dialog A)
  peers_dialogs s =
      sync_dialog (codes "PeersSyncDialog") s
      ∷ action_dialog (codes "add") (codes "peer-form") none (press (some (codes "add"))) s
      ∷ current s.current_row (λ r.
        action_dialog (codes "edit") (codes "peer-form") (some r) (handle_close (codes "edit")) s
        ∷ delete_entity_dialog (codes "Peer") r s
        ∷ peer_dialog (codes "share") (codes "PeersShareDialog") r s
        ∷ peer_dialog (codes "sessions") (codes "PeersSessionsDialog") r s
        ∷ peer_dialog (codes "qrCode") (codes "PeersQRCodeDialog") r s
        ∷ peers_config_dialog r s
        ∷ [])

  unfoldable pub interfaces_dialogs : Rows A → List (Dialog A)
  interfaces_dialogs s =
      sync_dialog (codes "InterfacesSyncDialog") s
      ∷ action_dialog (codes "add") (codes "interface-form") none (press (some (codes "add"))) s
      ∷ current s.current_row (λ r.
        action_dialog (codes "edit") (codes "interface-form") (some r) (handle_close (codes "edit"))
          s
        ∷ delete_entity_dialog (codes "Interface") r s
        ∷ [])

  unfoldable pub servers_dialogs : Rows A → List (Dialog A)
  servers_dialogs s =
      action_dialog (codes "add") (codes "server-form") none (press (some (codes "add"))) s
      ∷ current s.current_row (λ r.
        action_dialog (codes "edit") (codes "server-form") (some r) (handle_close (codes "edit")) s
        ∷ delete_entity_dialog (codes "Server") r s
        ∷ [])

  unfoldable pub pools_dialogs : Rows A → List (Dialog A)
  pools_dialogs s =
      action_dialog (codes "add") (codes "pool-form") none (press (some (codes "add"))) s
      ∷ current s.current_row (λ r.
        action_dialog (codes "edit") (codes "pool-form") (some r) (handle_close (codes "edit")) s
        ∷ delete_entity_dialog (codes "Pool") r s
        ∷ [])

abbrev pub peers_table_row_actions : List Text
peers_table_row_actions =
    codes "sessions"
    ∷ codes "share"
    ∷ codes "qrCode"
    ∷ codes "show_config"
    ∷ codes "download_config"
    ∷ codes "edit"
    ∷ codes "delete"
    ∷ []

abbrev pub interfaces_table_row_actions : List Text
interfaces_table_row_actions = codes "edit" ∷ codes "delete" ∷ []

abbrev pub servers_table_row_actions : List Text
servers_table_row_actions = codes "edit" ∷ codes "delete" ∷ []

abbrev pub pools_table_row_actions : List Text
pools_table_row_actions = codes "edit" ∷ codes "delete" ∷ []

abbrev pub peers_primary_buttons : List Text
peers_primary_buttons = codes "sync" ∷ codes "add" ∷ []

abbrev pub interfaces_primary_buttons : List Text
interfaces_primary_buttons = codes "sync" ∷ codes "add" ∷ []

-- `disabled={serversLength === 1}`
abbrev pub servers_primary_buttons : ℕ → List Text
servers_primary_buttons servers_length = if servers_length == 1 then [] else codes "add" ∷ []

abbrev pub pools_primary_buttons : List Text
pools_primary_buttons = codes "add" ∷ []

-- The features with a table; the page of the servers knows how many there are.
pub data Feature : Type 0 where
  of_peers : Feature
  of_interfaces : Feature
  of_servers : ℕ → Feature
  of_pools : Feature

abbrev pub page {ℓ} : (A : Type ℓ) → Feature → Page A
page A of_peers = record {
  dialogs = peers_dialogs;
  menu = peers_table_row_actions;
  buttons = peers_primary_buttons;
}
page A of_interfaces = record {
  dialogs = interfaces_dialogs;
  menu = interfaces_table_row_actions;
  buttons = interfaces_primary_buttons;
}
page A (of_servers servers_length) = record {
  dialogs = servers_dialogs;
  menu = servers_table_row_actions;
  buttons = servers_primary_buttons servers_length;
}
page A of_pools = record {
  dialogs = pools_dialogs;
  menu = pools_table_row_actions;
  buttons = pools_primary_buttons;
}
