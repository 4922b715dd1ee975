-- ===== src/Share/Handed.antt =====
-- What the card of the configuration hands out.
use wgpanelne.Prelude.{
  ℕ, zero, suc, ◌<◌, ◌≡◌, Bool, true, false, Option, List, [], ◌∷◌, All, inl, inr, arith,
  Bool-cases,
}
use wgpanelne.Js.Strings.{Text, truthy, text_eq_refl}
use wgpanelne.Tables.Filters.{has}
use wgpanelne.Share.Config.{
  ConfigCard, empty_card, Event, read, copy, download, timeout, handle_copy, handle_download,
  timed_out, card_step, card_steps, texts_read,
}

-- A configuration that was read and is not empty.
abbrev pub IsConfig : List Text → Text → Type 0
IsConfig texts t = (truthy t ≡ true) × (has t texts ≡ true)

abbrev pub HandsOut : List Text → ConfigCard → Type 0
HandsOut texts s =
    ((truthy s.config_text ≡ true) → has s.config_text texts ≡ true)
    × All (IsConfig texts) s.clipboard
    × All (λ d. IsConfig texts d.1) s.downloads
    × ((s.copied ≡ true) → 0 < s.timers)

has_more : (t x : Text) (texts : List Text) → has t texts ≡ true → has t (x ∷ texts) ≡ true
has_more t x texts h = ground (arith, h)

All-more : (x : Text) (texts l : List Text) → All (IsConfig texts) l → All (IsConfig (x ∷ texts)) l
All-more x texts [] h = tt
All-more x texts (t ∷ l) ((a, b), h) = ((a, has_more t x texts b), All-more x texts l h)

All-more_files :
    (x : Text) (texts : List Text) (l : List (Text × Text))
    → All (λ d. IsConfig texts d.1) l
    → All (λ d. IsConfig (x ∷ texts) d.1) l
All-more_files x texts [] h = tt
All-more_files x texts (d ∷ l) ((a, b), h) =
    ((a, has_more d.1 x texts b), All-more_files x texts l h)

read-HandsOut :
    (x : Text) (texts : List Text) (s : ConfigCard)
    → HandsOut texts s
    → HandsOut (x ∷ texts) (card_step (read x) s)
unfolding card_step
read-HandsOut x texts s (a, b, c, d) = (
  λ h. ground (arith, text_eq_refl x),
  All-more x texts s.clipboard b,
  All-more_files x texts s.downloads c,
  d,
)

copy-HandsOut :
    (w : Bool) (texts : List Text) (s : ConfigCard)
    → HandsOut texts s
    → HandsOut texts (handle_copy w s)
unfolding handle_copy
copy-HandsOut false texts s h = elim (Bool-cases (truthy s.config_text)) [
  | inl e ↦ rw e h
  | inr e ↦ rw e h
]
copy-HandsOut true texts s (a, b, c, d) = elim (Bool-cases (truthy s.config_text)) [
  | inl e ↦ rw e (a, ((e, a e), b), c, λ h. omega arith)
  | inr e ↦ rw e (a, b, c, d)
]

download-HandsOut :
    (n : Option Text) (texts : List Text) (s : ConfigCard)
    → HandsOut texts s
    → HandsOut texts (handle_download n s)
unfolding handle_download
download-HandsOut n texts s (a, b, c, d) = elim (Bool-cases (truthy s.config_text)) [
  | inl e ↦ rw e (a, b, ((e, a e), c), d)
  | inr e ↦ rw e (a, b, c, d)
]

timeout-HandsOut :
    (n : ℕ) (texts : List Text) (s : ConfigCard) → HandsOut texts s → HandsOut texts (timed_out n s)
unfolding timed_out
timeout-HandsOut zero texts s h = h
timeout-HandsOut (suc n) texts s (a, b, c, d) = (a, b, c, λ h. cc)

steps-HandsOut :
    (es : List Event) (texts : List Text) (s : ConfigCard)
    → HandsOut texts s
    → HandsOut (texts_read es texts) (card_steps es s)
unfolding card_steps texts_read card_step
steps-HandsOut [] texts s h = h
steps-HandsOut (read x ∷ es) texts s h =
    steps-HandsOut es (x ∷ texts) (card_step (read x) s) (read-HandsOut x texts s h)
steps-HandsOut (copy w ∷ es) texts s h =
    steps-HandsOut es texts (handle_copy w s) (copy-HandsOut w texts s h)
steps-HandsOut (download n ∷ es) texts s h =
    steps-HandsOut es texts (handle_download n s) (download-HandsOut n texts s h)
steps-HandsOut (timeout ∷ es) texts s h =
    steps-HandsOut es texts (timed_out s.timers s) (timeout-HandsOut s.timers texts s h)

-- After any reads, clicks and timers, from the empty card on: every text that was copied and the
-- content of every file that was downloaded is not empty and was read from the blob, and while the
-- button says that the text is copied, a timer is pending that takes this back.
pub card_steps-HandsOut : (es : List Event) → HandsOut (texts_read es []) (card_steps es empty_card)
card_steps-HandsOut es = steps-HandsOut es [] empty_card (λ h. cc, tt, tt, λ h. cc)
