-- ===== src/Share/Page.antt =====
-- ui/src/features/share/index.tsx and ui/src/features/share/components/peer-telegram-card.tsx: what
-- the page shows for the answers of its five queries, and which of them it sends.
use wgpanelne.Prelude.{
  ℕ, ◌==◌, ◌≡◌, refl, Bool, true, false, not, ◌||◌, Option, none, some, [], ◌∷◌, ◌++◌,
  if◌then◌else◌, Bool-cases, inl, inr, ◌⊎◌,
}
use wgpanelne.Prelude.Int.{ℤ}
use wgpanelne.Js.Strings.{Text, codes, truthy}
use wgpanelne.Auth.Errors.{Thrown, axios_error}
use wgpanelne.Zod.Values.{Value}
use wgpanelne.Zod.Interface.{Zod}
use wgpanelne.Api.Client.{Backend}
use wgpanelne.Api.Telegram.{fetch_peer_telegram_status}
use wgpanelne.Hooks.Cache.{Query, mount}
use wgpanelne.Hooks.Queries.{use_peer_telegram_status_query}
use wgpanelne.Share.Stats.{PeerStats, StatsBody, stats_card}

pub record TelegramStatus : Type 0 where
  pub enabled : Bool
  pub bot_url : Option Text

-- The answers of the queries, so far as the page reads them; `none` is `undefined`.
pub record Answers : Type 0 where
  pub stats : Option PeerStats
  pub stats_error : Option Thrown
  pub stats_loading : Bool
  pub config_blob : Option Text
  pub config_loading : Bool
  pub qr_code : Option Text
  pub qr_code_loading : Bool
  pub telegram_status : Option TelegramStatus
  pub telegram_status_loading : Bool
  pub telegram_linked : Option Bool
  pub telegram_link_loading : Bool

-- `telegramStatus?.enabled`
abbrev pub is_enabled : Option TelegramStatus → Bool
is_enabled none = false
is_enabled (some s) = s.enabled

-- `telegramStatus?.enabled ? shareId : undefined`
unfoldable pub linked_share : Option TelegramStatus → Text → Option Text
linked_share status share_id = if is_enabled status then some share_id else none

-- `botStatus?.bot_url ? `${botStatus.bot_url}?start=${shareId}` : undefined`
unfoldable pub start_url : Option TelegramStatus → Text → Option Text
start_url none share_id = none
start_url (some s) share_id = elim s.bot_url [
  | none ↦ none
  | some u ↦ if truthy u then some (u ++ codes "?start=" ++ share_id) else none
]

-- The badge, which waits for the queries, and the link with its caption.
pub record TelegramCard : Type 0 where
  pub badge : Option Text
  pub link : Option (Text × Text)

abbrev pub is_linked : Option Bool → Bool
is_linked none = false
is_linked (some b) = b

abbrev pub with_caption : Bool → Option Text → Option (Text × Text)
with_caption linked none = none
with_caption linked (some u) = some (u, if linked then codes "Open Bot" else codes "Connect")

unfoldable pub telegram_card : Bool → Text → Option TelegramStatus → Option Bool → TelegramCard
telegram_card is_loading share_id bot_status link_status =
    let linked = is_linked link_status in
    record {
      badge =
          if is_loading then none else some (if linked then codes "Linked" else codes "Not Linked");
      link = if is_loading then none else with_caption linked (start_url bot_status share_id);
    }

pub data SharePage : Type 0 where
  not_found : SharePage
  -- The greeting, the cards of the statistics, of the QR code and of the configuration, each with
  -- whether it is loading, and the card of the bot.
  cards :
      Text
      → StatsBody
      → (Bool × Option Text)
      → (Bool × Option Text)
      → Option TelegramCard
      → SharePage

-- `(statsError as AxiosError)?.response?.status === 404`
abbrev pub is_not_found : Option Thrown → Bool
is_not_found (some (axios_error (some r) m)) = r.status == 404
is_not_found _ = false

abbrev pub greeting : Option PeerStats → Text
greeting none = codes "Welcome"
greeting (some s) = if truthy s.name then codes "Welcome, " ++ s.name else codes "Welcome"

unfoldable pub peer_share : (Text → Option ℤ) → Text → ℤ → Answers → SharePage
peer_share time_of share_id now a =
    if is_not_found a.stats_error
    then not_found
    else cards (greeting a.stats) (stats_card time_of a.stats_loading a.stats now)
        (a.qr_code_loading, a.qr_code) (a.config_loading, a.config_blob)
        (if is_enabled a.telegram_status
          then some (
              telegram_card (a.telegram_status_loading || a.telegram_link_loading) share_id
                a.telegram_status a.telegram_linked)
          else none)

-- The query of the link to the bot, as the page mounts it.
unfoldable pub telegram_link_query : Zod → Text → Answers → Query (Option Value)
telegram_link_query z share_id a =
    use_peer_telegram_status_query z (linked_share a.telegram_status share_id)

abbrev pub has_telegram_card : SharePage → Bool
has_telegram_card not_found = false
has_telegram_card (cards g s q c none) = false
has_telegram_card (cards g s q c (some t)) = true

card_some :
    (g : Text) (s : StatsBody) (q c : Bool × Option Text) (t : TelegramCard) (missing : Bool)
    → has_telegram_card (if missing then not_found else cards g s q c (some t)) ≡ not missing
card_some g s q c t true = refl
card_some g s q c t false = refl

card_none :
    (g : Text) (s : StatsBody) (q c : Bool × Option Text) (missing : Bool)
    → has_telegram_card (if missing then not_found else cards g s q c none) ≡ false
card_none g s q c true = refl
card_none g s q c false = refl

-- The bot is shown and asked for together: while the bot is not known to be enabled, the page has no
-- card for it and sends no request for the peer's link to it; once it is, the page has the card,
-- unless it was told that the link to the page is unknown, and asks for the link with the identifier
-- of the page, if there is one.
pub telegram_gated :
    (z : Zod) (backend : Backend) (time_of : Text → Option ℤ) (c : ℕ) (t : Text) (now : ℤ)
    (a : Answers)
    → ((is_enabled a.telegram_status ≡ false)
        × (has_telegram_card (peer_share time_of (c ∷ t) now a) ≡ false)
        × (mount (telegram_link_query z (c ∷ t) a) backend ≡ []))
      ⊎ ((is_enabled a.telegram_status ≡ true)
          × (has_telegram_card (peer_share time_of (c ∷ t) now a)
              ≡ not (is_not_found a.stats_error))
          × (mount (telegram_link_query z (c ∷ t) a) backend
              ≡ (fetch_peer_telegram_status z (some (c ∷ t)) backend).0))
unfolding peer_share mount telegram_link_query linked_share use_peer_telegram_status_query
telegram_gated z backend time_of c t now a = elim (Bool-cases (is_enabled a.telegram_status)) [
  | inl e ↦ inr (e, rw e (card_some _ _ _ _ _ (is_not_found a.stats_error)), rw e refl)
  | inr e ↦ inl (e, rw e (card_none _ _ _ _ (is_not_found a.stats_error)), rw e refl)
]
