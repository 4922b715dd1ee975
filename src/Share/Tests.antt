-- ===== src/Share/Tests.antt =====
-- Runs of the shared page, and the theorems at concrete data.
use wgpanelne.Prelude.{
  ◌+◌, ◌*◌, ◌≤◌, ◌<◌, ◌≡◌, ◌↔◌, ◌⊎◌, refl, true, false, not, Option, none, some, List, [], ◌∷◌,
}
use wgpanelne.Prelude.Int.{ℤ, pos, negsuc, ◌-ℤ◌, pos_part, neg_part}
use wgpanelne.Js.Strings.{Text, codes}
use wgpanelne.Auth.Errors.{rejected, object}
use wgpanelne.Api.Client.{Backend}
use wgpanelne.Api.Telegram.{fetch_peer_telegram_status}
use wgpanelne.Hooks.Cache.{mount}
use wgpanelne.Zod.Reference.{reference}
use wgpanelne.Share.Stats.{day, ceil_days, remaining_days, remaining_days_bounds}
use wgpanelne.Share.Config.{
  empty_card, Event, read, copy, download, timeout, card_step, card_steps, texts_read, handle_copy,
  handle_download, timed_out,
}
use wgpanelne.Share.Handed.{HandsOut, card_steps-HandsOut}
use wgpanelne.Share.Page.{
  Answers, is_enabled, is_not_found, peer_share, has_telegram_card, telegram_link_query,
  telegram_gated,
}

abbrev tomorrow : Text → Option ℤ
tomorrow t = some (pos 100_000_000)

ceil_tests :
    (ceil_days (pos 1) ≡ pos 1)
    × (ceil_days (pos 86_400_000) ≡ pos 1)
    × (ceil_days (negsuc 0) ≡ pos 0)
    × (ceil_days (negsuc 86_399_999) ≡ negsuc 0)
unfolding ceil_days
ceil_tests = (refl, refl, refl, refl)

remaining_days_bounds_example :
    (d : ℤ) × (remaining_days tomorrow (some (codes "t")) (pos 5) ≡ some d)
    × (pos_part (pos 100_000_000 -ℤ pos 5) + neg_part d * day
        ≤ pos_part d * day + neg_part (pos 100_000_000 -ℤ pos 5))
    × (pos_part d * day + neg_part (pos 100_000_000 -ℤ pos 5)
        < pos_part (pos 100_000_000 -ℤ pos 5) + neg_part d * day + day)
    × ((pos_part d ≡ 0) ↔ (pos_part (pos 100_000_000 -ℤ pos 5) ≡ 0))
remaining_days_bounds_example =
    remaining_days_bounds tomorrow b't' [] (pos 100_000_000) (pos 5) refl

abbrev clicks : List Event
clicks = copy true ∷ read (codes "x") ∷ copy false ∷ copy true ∷ download none ∷ timeout ∷ []

clicks_end :
    ((card_steps clicks empty_card).clipboard ≡ codes "x" ∷ [])
    × ((card_steps clicks empty_card).downloads ≡ (codes "config.conf", codes "x") ∷ [])
unfolding card_steps card_step handle_copy handle_download timed_out
clicks_end = (refl, refl)

card_steps-HandsOut_example : HandsOut (texts_read clicks []) (card_steps clicks empty_card)
card_steps-HandsOut_example = card_steps-HandsOut clicks

abbrev unanswered : Answers
unanswered = record {
  stats = none;
  stats_error = none;
  stats_loading = true;
  config_blob = none;
  config_loading = true;
  qr_code = none;
  qr_code_loading = true;
  telegram_status = some (record { enabled = true; bot_url = none });
  telegram_status_loading = false;
  telegram_linked = none;
  telegram_link_loading = true;
}

abbrev offline : Backend
offline r = rejected (object none)

telegram_gated_example :
    ((is_enabled unanswered.telegram_status ≡ false)
      × (has_telegram_card (peer_share tomorrow (codes "u") (pos 0) unanswered) ≡ false)
      × (mount (telegram_link_query reference (codes "u") unanswered) offline ≡ []))
    ⊎ ((is_enabled unanswered.telegram_status ≡ true)
        × (has_telegram_card (peer_share tomorrow (codes "u") (pos 0) unanswered)
            ≡ not (is_not_found unanswered.stats_error))
        × (mount (telegram_link_query reference (codes "u") unanswered) offline
            ≡ (fetch_peer_telegram_status reference (some (codes "u")) offline).0))
telegram_gated_example = telegram_gated reference offline tomorrow b'u' [] (pos 0) unanswered
