-- ===== src/Tables/Tests.antt =====
-- Runs of the comparison and of the filter, and the theorems at concrete data.
use wgpanelne.Prelude.{map, ◌++◌, ◌≡◌, refl, true, false, none, some, List, [], ◌∷◌, arith, any}
use wgpanelne.Prelude.Int.{ℤ}
use wgpanelne.Js.Strings.{Text, codes, text_eq, includes}
use wgpanelne.Tables.Sorting.{compare_ips}
use wgpanelne.Js.Decimal.{to_string}
use wgpanelne.Auth.Errors.{resolved}
use wgpanelne.Zod.Values.{obj, end}
use wgpanelne.Api.Client.{Backend, request, patch}
use wgpanelne.Hooks.Cache.{name}
use wgpanelne.Hooks.Reference.{key_client, fresh}
use wgpanelne.Auth.Jar.{jar_of_entries}
use wgpanelne.Tables.Columns.{
  Peer, Interface, Server, plain, badge, switch, row_actions, green, gray, yellow, peers_columns,
  traffic_cell, telegram_cell, expire_cell, bandwidth_cell, status_cell, status_color,
}
use wgpanelne.Tables.Toggles.{
  TogglesBy, toggle_peer, toggle_interface, toggle_server, toggles-TogglesBy,
}
use wgpanelne.Tables.Badges.{badge_texts, filter_fn-badges}
use wgpanelne.Tables.Addresses.{Address, value, written, HasSign, compare_ips-written}
use wgpanelne.Tables.Filters.{text, texts, undefined, has, filter_fn}
use wgpanelne.Prelude.{◌≤◌}
use wgpanelne.Tables.Pages.{
  Click, last_page, next, rows_per_page, click, clicks, page_label, clicks-page_label,
}
use wgpanelne.Tables.PagedRows.{PagedRows, paged_rows}

-- A filter for `available` shows the servers that are `not_available`, too; a column without a
-- value stops the table.
filter_tests :
    (filter_fn (text (codes "not_available")) (codes "available" ∷ []) ≡ some true)
    × (filter_fn (text (codes "available")) (codes "not_available" ∷ []) ≡ some false)
    × (filter_fn undefined (codes "running" ∷ []) ≡ none)
unfolding filter_fn includes
filter_tests = (refl, refl, refl)

abbrev gateway : Address
gateway = record { b3 = 10; b2 = 0; b1 = 0; b0 = 1 }

abbrev client : Address
client = record { b3 = 10; b2 = 0; b1 = 0; b0 = 12 }

compare_ips-written_example :
    (r : ℤ) × (compare_ips (written gateway (codes "24")) (written client (codes "32")) ≡ some r)
    × HasSign r (value gateway) (value client)
compare_ips-written_example =
    compare_ips-written gateway client (codes "24") (codes "32")
      (omega arith, omega arith, omega arith, omega arith)
      (omega arith, omega arith, omega arith, omega arith)

abbrev selection : List Text
selection = codes "active" ∷ []

abbrev phone : Peer
phone = record {
  id = 3;
  disabled = true;
  name = codes "phone";
  is_online = false;
  comment = none;
  interface = codes "wg0";
  allowed_address = codes "10.0.0.2/32";
  total_usage = codes "1.5";
  traffic_limit = none;
  telegram_username = none;
  telegram_linked = true;
  expire_time = none;
  download_bandwidth = none;
  upload_bandwidth = none;
  status = codes "inactive" ∷ codes "expired" ∷ [];
}

abbrev tunnel : Interface
tunnel = record {
  id = 4;
  disabled = false;
  name = codes "wg0";
  comment = none;
  listen_port = codes "51820";
  is_running = true;
}

abbrev router : Server
router = record {
  id = 5;
  is_active = true;
  name = codes "home";
  comment = none;
  ip_address = codes "10.0.0.1";
  api_port = codes "8728";
  status = codes "available";
}

phone_row :
    map (λ c. c.cell phone) peers_columns
    ≡ (switch false ∷ [])
      ∷ (plain (codes "offline") ∷ plain (codes "phone") ∷ [])
      ∷ (plain (codes "N/A") ∷ [])
      ∷ (plain (codes "wg0") ∷ [])
      ∷ (plain (codes "10.0.0.2/32") ∷ [])
      ∷ (plain (codes "1.5 GB") ∷ plain (codes "Unlimited") ∷ [])
      ∷ (badge green (codes "linked") ∷ [])
      ∷ (plain (codes "Never") ∷ [])
      ∷ (plain (codes "Unlimited") ∷ plain (codes "Unlimited") ∷ [])
      ∷ (badge gray (codes "inactive") ∷ badge yellow (codes "expired") ∷ [])
      ∷ (row_actions ∷ [])
      ∷ []
unfolding peers_columns traffic_cell telegram_cell expire_cell bandwidth_cell status_cell
    status_color text_eq
phone_row = refl

filter_fn-badges_example :
    filter_fn (texts phone.status) (codes "expired" ∷ [])
    ≡ some (any (λ t. has t (codes "expired" ∷ [])) (badge_texts (status_cell phone)))
filter_fn-badges_example = filter_fn-badges phone (codes "expired" ∷ [])

abbrev accepting : Backend
accepting r = resolved (obj end)

toggles-TogglesBy_example :
    TogglesBy key_client jar_of_entries
      (request patch (codes "/peer/" ++ to_string 3 ++ codes "/status"))
      ((name (codes "peers_list") ∷ []) ∷ (name (codes "device_data") ∷ []) ∷ [])
      (codes "Peer enabled successfully")
      accepting
      fresh
      (toggle_peer key_client jar_of_entries phone accepting fresh)
    × TogglesBy key_client jar_of_entries
        (request patch (codes "/interface/" ++ to_string 4 ++ codes "/status"))
        ((name (codes "interfaces_list") ∷ []) ∷ [])
        (codes "Interface disabled successfully")
        accepting
        fresh
        (toggle_interface key_client jar_of_entries tunnel accepting fresh)
    × TogglesBy key_client jar_of_entries
        (request patch (codes "/server/" ++ to_string 5 ++ codes "/status"))
        ((name (codes "servers_list") ∷ []) ∷ [])
        (codes "Server disabled successfully")
        accepting
        fresh
        (toggle_server key_client jar_of_entries router accepting fresh)
toggles-TogglesBy_example =
    toggles-TogglesBy key_client jar_of_entries phone tunnel router accepting fresh

-- Twenty-five rows, ten on a page.
abbrev twenty_five : PagedRows
twenty_five = record { index = 0; less = 9; count_rows = 25 }

abbrev browsing : List Click
browsing = next ∷ last_page ∷ next ∷ rows_per_page 1 ∷ []

browsing_end : page_label paged_rows (clicks paged_rows browsing twenty_five) ≡ (2, 2)
unfolding clicks click
browsing_end = refl

clicks-page_label_example :
    (1 ≤ (page_label paged_rows (clicks paged_rows browsing twenty_five)).0)
    × ((page_label paged_rows (clicks paged_rows browsing twenty_five)).0
        ≤ (page_label paged_rows (clicks paged_rows browsing twenty_five)).1)
clicks-page_label_example = clicks-page_label paged_rows browsing twenty_five (omega arith)
