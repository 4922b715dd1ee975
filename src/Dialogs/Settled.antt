-- ===== src/Dialogs/Settled.antt =====
-- Where the dialogs come to rest, and what a pending callback does to the next dialog.
use wgpanelne.Prelude.{Among, first, ℕ, zero, suc, Option, none, some, List, [], ◌≡◌, refl, sym}
use mathlib.Core.Path.{subst}
use wgpanelne.Js.Strings.{Text, text_eq_refl}
use wgpanelne.Dialogs.Opening.{set_open}
use wgpanelne.Dialogs.Rows.{
  Rows, provider, on_click, fire, opened, Closer, Page, Step, close, refused, timer, Reach, here,
  next,
}
use wgpanelne.Dialogs.Shown.{
  at, Single, IsPage, Leaves, Shape, nothing_open, row_open, button_open, Waits, quiet, row_waits,
  button_waits, Reach-Waits,
}
use wgpanelne.Dialogs.Pages.{Feature, page}
use wgpanelne.Dialogs.Features.{page-IsPage}

module _ {ℓ} {A : Type ℓ} (p : Page A) where
  -- No dialog is named, no row is kept, no callback is pending and no request waits: the state at
  -- first.
  abbrev pub Settles : Rows A → List (Closer A) → Type ℓ
  Settles s ws = Reach p s ws provider []

  prefix :
      {s t : Rows A} {ws vs : List (Closer A)} {u : Rows A} {xs : List (Closer A)}
      → Step p s ws t vs
      → Reach p t vs u xs
      → Reach p s ws u xs
  prefix st here = next here st
  prefix st (next r q) = next (prefix st r) q

  -- A pending callback runs after another, and the last one leaves no row.
  fire_all : (r : Option A) (n : ℕ) → Settles (at none r (suc n)) []
  fire_all r zero = next here (timer 0 (at none r 1) [] refl)
  fire_all r (suc n) = prefix (timer (suc n) (at none r (suc (suc n))) [] refl) (fire_all none n)

  module _ (is_page : IsPage p) where
    shut_by :
        {s after : Rows A} {row : Option A} → Single p s row after → Settles after [] → Settles s []
    shut_by {s = s} (d, h, r, c) q =
        prefix (close d s (subst (Among d) (sym h) (first [])))
          (subst (λ x. Settles x []) (sym c) q)

    shut-Settles : (q : Option A) (n : ℕ) → Leaves p q n → Settles (at none q n) []
    shut-Settles q (suc n) w = fire_all q n
    shut-Settles none zero w = here
    shut-Settles (some q) zero w = absurd w

    Shape-Settles : {s : Rows A} → Shape p s → Settles s []
    Shape-Settles (nothing_open q n w) = shut-Settles q n w
    Shape-Settles (row_open t q m) = shut_by (is_page.of_menu t q 0 m) (fire_all (some q) 0)
    Shape-Settles (button_open t q n w m) = shut_by (is_page.of_button t q n m) (shut-Settles q n w)

    -- A request that waits is answered first; here it is refused.
    Waits-Settles : {s : Rows A} {ws : List (Closer A)} → Waits p is_page s ws → Settles s ws
    Waits-Settles (quiet s i) = Shape-Settles i
    Waits-Settles (row_waits t r f m e) =
        prefix (refused f (at (some t) (some r) 0) []) (Shape-Settles (row_open t r m))
    Waits-Settles (button_waits t r n w m) =
        prefix (refused (is_page.closing t) (at (some t) r n) [])
          (Shape-Settles (button_open t r n w m))

    pub Reach-Settles :
        {s : Rows A} {ws : List (Closer A)} → Reach p provider [] s ws → Settles s ws
    Reach-Settles r = Waits-Settles (Reach-Waits p is_page r)

-- On the page of each feature, with any row: if a dialog of a row is opened from its menu while the
-- callback of a dialog that was closed is pending, then once that callback has run the provider still
-- names the new dialog but none is rendered open, and choosing the same entry again, from the menu of
-- any row, opens none, either.
pub page-Lost {ℓ} :
    {A : Type ℓ} (f : Feature) (r r' : A) (row : Option A) (n : ℕ) (t : Text)
    → Among t (page A f).menu
    → ((fire n (on_click r t (at none row (suc n)))).opens ≡ some t)
      × (opened ((page A f).dialogs (fire n (on_click r t (at none row (suc n))))) ≡ [])
      × (opened ((page A f).dialogs (on_click r' t (fire n (on_click r t (at none row (suc n))))))
          ≡ [])
unfolding on_click set_open
page-Lost f r r' row n t m = (
  refl,
  (page-IsPage f).of_menu_hidden t n m,
  rw (text_eq_refl t) ((page-IsPage f).shut (some r') n),
)

-- What closing a dialog of a row twice leads to.
abbrev pub Reopens {ℓ} : {A : Type ℓ} → Page A → A → Text → Closer A → Type ℓ
Reopens p r t c =
    Single p (c (c (on_click r t provider))) (some r) (at none (some r) 3)
    × ((fire 0 (fire 1 (c (c (on_click r t provider))))).opens ≡ some t)
    × (opened (p.dialogs (fire 0 (fire 1 (c (c (on_click r t provider)))))) ≡ [])
