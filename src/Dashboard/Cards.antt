-- ===== src/Dashboard/Cards.antt =====
-- The cards of ui/src/features/dashboard/components. `to_locale` is `toLocaleString`, `to_upper_case`
-- the method of texts; `none` is `undefined`, and `null` where the schema allows it.
use wgpanelne.Prelude.{
  ℕ, ◌+◌, ◌<◌, ◌≡◌, ◌⊎◌, refl, Bool, true, false, not, ◌&&◌, ◌||◌, Option, none, some, List, [],
  ◌∷◌, ◌++◌, ◌==◌, if◌then◌else◌, map, all, arith, Bool-cases, inl, inr,
}
use wgpanelne.Js.Strings.{Text, codes, truthy}
use wgpanelne.Js.Decimal.{to_string}
use wgpanelne.Layout.Initials.{get_avatar_initials}

pub record PeerInfo : Type 0 where
  pub recent_online_peers : Option (List (Text × Text))
  pub total_peers : ℕ
  pub online_peers : ℕ
  pub offline_peers : ℕ
  pub disabled_peers : ℕ

pub record DeviceData : Type 0 where
  pub total_servers : ℕ
  pub total_interfaces : ℕ
  pub peer_info : PeerInfo
  pub total_usage : Text
  pub identity : Text
  pub board_name : Text
  pub cpu_arch : Text
  pub os_version : Text
  pub ipv4_address : Option (Option Text × Option Text)
  pub dns_servers : Option Text

pub data CardValue : Type 0 where
  number : ℕ → CardValue
  text : Text → CardValue

abbrev pub value_text : CardValue → Text
value_text (number n) = to_string n
value_text (text t) = t

abbrev pub with_suffix : Option Text → CardValue → Text
with_suffix none v = value_text v
with_suffix (some suffix) v =
    if truthy suffix then value_text v ++ codes " " ++ suffix else value_text v

-- `displayValue`
unfoldable pub display_value : Option CardValue → Option Text → Text
display_value none suffix = codes "-"
display_value (some (text [])) suffix = codes "-"
display_value (some v) suffix = with_suffix suffix v

-- A card; nothing is written on it while it is loading.
pub record Card : Type 0 where
  pub title : Text
  pub written : Option Text

unfoldable pub stats_card : Text → Option CardValue → Bool → Card
stats_card title value is_loading = record {
  title = title;
  written =
      if is_loading then none else elim value [ none ↦ some [] | some v ↦ some (value_text v) ];
}

unfoldable pub highlight_stats_card : Text → Option CardValue → Option Text → Bool → Card
highlight_stats_card title value suffix is_loading = record {
  title = title;
  written = if is_loading then none else some (display_value value suffix);
}

abbrev pub part_of : Option DeviceData → (DeviceData → CardValue) → Option CardValue
part_of none f = none
part_of (some d) f = some (f d)

unfoldable pub dashboard_summary : Option DeviceData → Bool → List Card
dashboard_summary d is_loading =
    stats_card (codes "Total Servers") (part_of d (λ x. number x.total_servers)) is_loading
    ∷ stats_card (codes "Total Interfaces") (part_of d (λ x. number x.total_interfaces)) is_loading
    ∷ stats_card (codes "Total Users") (part_of d (λ x. number x.peer_info.total_peers)) is_loading
    ∷ highlight_stats_card (codes "Online Users") (part_of d (λ x. number x.peer_info.online_peers))
        none is_loading
    ∷ highlight_stats_card (codes "Total Traffic") (part_of d (λ x. text x.total_usage))
        (some (codes "GB")) is_loading
    ∷ []

-- A line of the device: its label, its value, and its badge.
pub record DeviceLine : Type 0 where
  pub label : Text
  pub value : Text
  pub badge : Option Text

abbrev pub shown_badge : Option Text → Option Text
shown_badge none = none
shown_badge (some t) = if truthy t then some t else none

abbrev pub or_na : Option Text → Text
or_na none = codes "N/A"
or_na (some t) = t

abbrev pub line : Text → Option Text → Option Text → DeviceLine
line label value badge = record { label = label; value = or_na value; badge = shown_badge badge }

abbrev pub of_device : Option DeviceData → (DeviceData → Option Text) → Option Text
of_device none f = none
of_device (some d) f = f d

abbrev pub ip_part :
    Option (Option Text × Option Text) → ((Option Text × Option Text) → Option Text) → Option Text
ip_part none f = none
ip_part (some a) f = f a

unfoldable pub device_info : Option DeviceData → List DeviceLine
device_info stats =
    line (codes "Identity") (of_device stats (λ d. some d.identity)) none
    ∷ line (codes "Device") (of_device stats (λ d. some d.board_name))
        (of_device stats (λ d. some d.cpu_arch))
    ∷ line (codes "OS Version") (of_device stats (λ d. some d.os_version)) (some (codes "stable"))
    ∷ line (codes "Public IPv4") (of_device stats (λ d. ip_part d.ipv4_address (λ a. a.0)))
        (of_device stats (λ d. ip_part d.ipv4_address (λ a. a.1)))
    ∷ line (codes "DNS Servers") (of_device stats (λ d. d.dns_servers)) none
    ∷ []

pub record Slice : Type 0 where
  pub status : Text
  pub count : ℕ
  pub fill : Text

abbrev pub count_of : Option PeerInfo → (PeerInfo → ℕ) → ℕ
count_of none f = 0
count_of (some p) f = f p

unfoldable pub chart_data : Option PeerInfo → List Slice
chart_data stats =
    record {
      status = codes "online";
      count = count_of stats (λ p. p.online_peers);
      fill = codes "#22c55e";
    }
    ∷ record {
      status = codes "offline";
      count = count_of stats (λ p. p.offline_peers);
      fill = codes "#ef4444";
    }
    ∷ record {
      status = codes "disabled";
      count = count_of stats (λ p. p.disabled_peers);
      fill = codes "#facc15";
    }
    ∷ []

abbrev pub is_missing : Option PeerInfo → Bool
is_missing none = true
is_missing (some p) = false

-- `!stats || chartData.every((d) => d.count === 0)`
unfoldable pub is_empty : Option PeerInfo → Bool
is_empty stats = is_missing stats || all (λ d. d.count == 0) (chart_data stats)

-- The slices, or the message that there are none.
unfoldable pub peers_chart : Option PeerInfo → Bool → Option (List Slice)
peers_chart stats is_loading =
    if not is_loading && is_empty stats then none else some (chart_data stats)

module _ (to_upper_case : Text → Text) where
  -- The rows, each with the initials, the name and the time; `none` is the message instead.
  abbrev pub user_row : (Text × Text) → Text × Text × Text
  user_row p = (get_avatar_initials to_upper_case (some p.0), p.0, p.1 ++ codes " ago")

  unfoldable pub recently_online_users :
      Option (List (Text × Text)) → Option (List (Text × Text × Text))
  recently_online_users none = none
  recently_online_users (some []) = none
  recently_online_users (some (p ∷ ps)) = some (map user_row (p ∷ ps))

all_zero :
    (p : PeerInfo)
    → ((is_empty (some p) ≡ true)
        × (p.online_peers ≡ 0)
        × (p.offline_peers ≡ 0)
        × (p.disabled_peers ≡ 0))
      ⊎ ((is_empty (some p) ≡ false) × (0 < p.online_peers + p.offline_peers + p.disabled_peers))
unfolding is_empty chart_data
all_zero p = elim (Bool-cases (p.online_peers == 0)) [
  | inr a ↦ inr (ground (arith, a), ground (arith, a))
  | inl a ↦ elim (Bool-cases (p.offline_peers == 0)) [
    | inr b ↦ inr (ground (arith, b), ground (arith, b))
    | inl b ↦ elim (Bool-cases (p.disabled_peers == 0)) [
      | inr c ↦ inr (ground (arith, c), ground (arith, c))
      | inl c ↦
          inl (ground (arith, a, b, c), ground (arith, a), ground (arith, b), ground (arith, c))
    ]
  ]
]

drawn_if :
    (p : PeerInfo) {b : Bool}
    → is_empty (some p) ≡ b
    → peers_chart (some p) false ≡ (if b then none else some (chart_data (some p)))
unfolding peers_chart
drawn_if p h = rw h refl

-- Without the data there is no chart. With it, either no peer is counted in any of the three statuses
-- and there is no chart, or some are and the chart has a slice for each status.
peers_chart_slices :
    (p : PeerInfo)
    → (peers_chart none false ≡ none)
      × (((p.online_peers ≡ 0)
            × (p.offline_peers ≡ 0)
            × (p.disabled_peers ≡ 0)
            × (peers_chart (some p) false ≡ none))
          ⊎ ((0 < p.online_peers + p.offline_peers + p.disabled_peers)
              × (peers_chart (some p) false ≡ some (chart_data (some p)))))
unfolding peers_chart is_empty
peers_chart_slices p = (
  refl,
  elim (all_zero p) [
    | inl (e, a, b, c) ↦ inl (a, b, c, drawn_if p e)
    | inr (e, lt) ↦ inr (lt, drawn_if p e)
  ],
)
