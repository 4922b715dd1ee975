-- ===== src/Tables/Columns.antt =====
-- The columns of the four tables: ui/src/features/*/components/*-columns.tsx, with the badge of
-- ui/src/features/shared-components/status-badge.tsx. A cell is the list of what it shows.
use wgpanelne.Prelude.{
  ℕ, Bool, true, false, not, Option, none, some, List, [], ◌∷◌, ◌++◌, if◌then◌else◌, map,
}
use wgpanelne.Js.Strings.{Text, codes, text_eq, truthy}
use wgpanelne.Js.Decimal.{to_string}

pub data Color : Type 0 where
  green yellow red gray : Color

pub data Shown : Type 0 where
  plain : Text → Shown
  badge : Color → Text → Shown
  switch : Bool → Shown
  row_actions : Shown

-- A column: its `id` or `accessorKey`, its title if it has a header, whether its `accessorKey` is
-- given, whether sorting and hiding are left enabled, and its cell.
pub record Column (A : Type 0) : Type 0 where
  pub key : Text
  pub title : Option Text
  pub has_accessor : Bool
  pub enable_sorting : Bool
  pub enable_hiding : Bool
  pub cell : A → List Shown

module _ {A : Type 0} where
  abbrev pub column : Text → Text → (A → List Shown) → Column A
  column key title cell = record {
    key = key;
    title = some title;
    has_accessor = true;
    enable_sorting = true;
    enable_hiding = true;
    cell = cell;
  }

  abbrev pub fixed : Text → Text → (A → List Shown) → Column A
  fixed key title cell = record {
    key = key;
    title = some title;
    has_accessor = true;
    enable_sorting = true;
    enable_hiding = false;
    cell = cell;
  }

  abbrev pub bare : Text → (A → List Shown) → Column A
  bare key cell = record {
    key = key;
    title = none;
    has_accessor = false;
    enable_sorting = false;
    enable_hiding = true;
    cell = cell;
  }

  -- Without an accessor a column is not sorted.
  abbrev pub actions : Column A
  actions = record {
    key = codes "actions";
    title = none;
    has_accessor = false;
    enable_sorting = true;
    enable_hiding = true;
    cell = λ a. row_actions ∷ [];
  }

  abbrev pub status_column : (A → List Shown) → Column A
  status_column cell = record {
    key = codes "status";
    title = some (codes "Status");
    has_accessor = true;
    enable_sorting = false;
    enable_hiding = false;
    cell = cell;
  }

pub record Peer : Type 0 where
  pub id : ℕ
  pub disabled : Bool
  pub name : Text
  pub is_online : Bool
  pub comment : Option Text
  pub interface : Text
  pub allowed_address : Text
  pub total_usage : Text
  pub traffic_limit : Option Text
  pub telegram_username : Option Text
  pub telegram_linked : Bool
  pub expire_time : Option Text
  pub download_bandwidth : Option Text
  pub upload_bandwidth : Option Text
  pub status : List Text

-- `x ?? fallback`, and `x || fallback` on a text that may be `null`.
abbrev pub or_default : Option Text → Text → Text
or_default none d = d
or_default (some t) d = t

abbrev pub or_unlimited : Option Text → Text
or_unlimited none = codes "Unlimited"
or_unlimited (some t) = if truthy t then t else codes "Unlimited"

abbrev pub truthy_of : Option Text → Bool
truthy_of none = false
truthy_of (some t) = truthy t

unfoldable pub traffic_cell : Peer → List Shown
traffic_cell p =
    if truthy_of p.traffic_limit
    then plain (p.total_usage ++ codes " GB")
      ∷ plain (codes " / " ++ or_default p.traffic_limit [] ++ codes " GB")
      ∷ []
    else plain (p.total_usage ++ codes " GB") ∷ plain (codes "Unlimited") ∷ []

unfoldable pub telegram_cell : Peer → List Shown
telegram_cell p =
    if not p.telegram_linked
    then plain (codes "Not linked") ∷ []
    else if truthy_of p.telegram_username
    then plain (or_default p.telegram_username []) ∷ badge green (codes "linked") ∷ []
    else badge green (codes "linked") ∷ []

unfoldable pub expire_cell : Peer → List Shown
expire_cell p =
    if truthy_of p.expire_time
    then plain (or_default p.expire_time []) ∷ []
    else plain (codes "Never") ∷ []

unfoldable pub bandwidth_cell : Peer → List Shown
bandwidth_cell p =
    plain (or_unlimited p.download_bandwidth) ∷ plain (or_unlimited p.upload_bandwidth) ∷ []

unfoldable pub status_color : Text → Color
status_color status =
    if text_eq status (codes "active")
    then green
    else if text_eq status (codes "inactive")
    then gray
    else if text_eq status (codes "expired")
    then yellow
    else red

unfoldable pub status_cell : Peer → List Shown
status_cell p = map (λ s. badge (status_color s) s) p.status

abbrev pub online_text : Peer → Text
online_text p = if p.is_online then codes "online" else codes "offline"

unfoldable pub peers_columns : List (Column Peer)
peers_columns =
    bare (codes "is_active") (λ p. switch (not p.disabled) ∷ [])
    ∷ column (codes "name") (codes "Name") (λ p. plain (online_text p) ∷ plain p.name ∷ [])
    ∷ fixed (codes "comment") (codes "Comment")
        (λ p. plain (or_default p.comment (codes "N/A")) ∷ [])
    ∷ column (codes "interface") (codes "Interface") (λ p. plain p.interface ∷ [])
    ∷ column (codes "allowed_address") (codes "IP Address") (λ p. plain p.allowed_address ∷ [])
    ∷ column (codes "total_usage") (codes "Traffic") traffic_cell
    ∷ column (codes "telegram_username") (codes "Telegram") telegram_cell
    ∷ column (codes "expire") (codes "Expire") expire_cell
    ∷ column (codes "bandwidth") (codes "Bandwidth") bandwidth_cell
    ∷ status_column status_cell
    ∷ actions
    ∷ []

pub record Interface : Type 0 where
  pub id : ℕ
  pub disabled : Bool
  pub name : Text
  pub comment : Option Text
  pub listen_port : Text
  pub is_running : Bool

unfoldable pub interfaces_columns : List (Column Interface)
interfaces_columns =
    bare (codes "is_active") (λ i. switch (not i.disabled) ∷ [])
    ∷ column (codes "name") (codes "Name") (λ i. plain i.name ∷ [])
    ∷ fixed (codes "comment") (codes "Comment")
        (λ i. plain (or_default i.comment (codes "N/A")) ∷ [])
    ∷ column (codes "listen_port") (codes "Listen Port") (λ i. plain i.listen_port ∷ [])
    ∷ status_column (λ i.
      if i.is_running
      then badge green (codes "Running") ∷ []
      else badge red (codes "Not Running") ∷ [])
    ∷ actions
    ∷ []

pub record Server : Type 0 where
  pub id : ℕ
  pub is_active : Bool
  pub name : Text
  pub comment : Option Text
  pub ip_address : Text
  pub api_port : Text
  pub status : Text

unfoldable pub servers_columns : List (Column Server)
servers_columns =
    bare (codes "is_active") (λ s. switch s.is_active ∷ [])
    ∷ column (codes "name") (codes "Name") (λ s. plain s.name ∷ [])
    ∷ fixed (codes "comment") (codes "Comment")
        (λ s. plain (or_default s.comment (codes "N/A")) ∷ [])
    ∷ column (codes "ip_address") (codes "IP Address") (λ s. plain s.ip_address ∷ [])
    ∷ column (codes "api_port") (codes "API Port") (λ s. plain s.api_port ∷ [])
    ∷ status_column (λ s.
      if text_eq s.status (codes "available")
      then badge green (codes "Available") ∷ []
      else badge red (codes "Unavailable") ∷ [])
    ∷ actions
    ∷ []

pub record Pool : Type 0 where
  pub name : Text
  pub start_ip : Text
  pub end_ip : Text
  pub total_ip : ℕ
  pub used_ip : ℕ
  pub remaining_ip : ℕ

unfoldable pub pools_columns : List (Column Pool)
pools_columns =
    column (codes "name") (codes "Name") (λ p. plain p.name ∷ [])
    ∷ fixed (codes "start_ip") (codes "Start IP") (λ p. plain p.start_ip ∷ [])
    ∷ fixed (codes "end_ip") (codes "End IP") (λ p. plain p.end_ip ∷ [])
    ∷ column (codes "total_ip") (codes "Total IPs") (λ p. plain (to_string p.total_ip) ∷ [])
    ∷ column (codes "used_ip") (codes "Used IPs") (λ p. plain (to_string p.used_ip) ∷ [])
    ∷ column (codes "remaining_ip") (codes "Remaining IPs")
        (λ p. plain (to_string p.remaining_ip) ∷ [])
    ∷ actions
    ∷ []
