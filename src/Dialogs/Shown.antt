-- ===== src/Dialogs/Shown.antt =====
-- The dialog that is rendered open is the one the provider names, as long as nobody opens a row's
-- dialog while the callback of an earlier one is pending.
use wgpanelne.Prelude.{
  Among, first, later, ℕ, zero, suc, Option, none, some, List, [], ◌∷◌, ◌≡◌, ◌≢◌, refl, sym, ap,
  ◌∙◌, ◌⊎◌, inl, inr, arith,
}
use wgpanelne.Js.Strings.{Text}
use mathlib.Core.Path.{subst}
use wgpanelne.Dialogs.Opening.{set_open}
use wgpanelne.Dialogs.Rows.{
  Rows, Dialog, provider, press, on_click, fire, opened, Page, Step, click, button, close, submit,
  accepted, refused, timer, Closer, Reach, here, next,
}

abbrev pub at {ℓ} : {A : Type ℓ} → Option Text → Option A → ℕ → Rows A
at t r n = record { opens = t; current_row = r; timers = n }

module _ {ℓ} {A : Type ℓ} (p : Page A) where
  -- One dialog is rendered open, with this row, and closing it leads to that state.
  abbrev pub Single : Rows A → Option A → Rows A → Type ℓ
  Single s row after =
      (d : Dialog A) × (opened (p.dialogs s) ≡ d ∷ [])
      × (d.row ≡ row)
      × (d.on_open_change s ≡ after)

  pub record IsPage : Type ℓ where
    pub shut : (r : Option A) (n : ℕ) → opened (p.dialogs (at none r n)) ≡ []
    pub of_menu :
        (t : Text) (r : A) (n : ℕ)
        → Among t p.menu
        → Single (at (some t) (some r) n) (some r) (at none (some r) (suc n))
    pub of_menu_hidden :
        (t : Text) (n : ℕ) → Among t p.menu → opened (p.dialogs (at (some t) none n)) ≡ []
    pub of_button :
        (t : Text) (r : Option A) (n : ℕ)
        → Among t p.buttons
        → Single (at (some t) r n) none (at none r n)
    -- What closes the dialog of a button does not depend on the row or the callbacks.
    pub closing : Text → Closer A
    pub of_closing :
        (t : Text) (r : Option A) (n : ℕ) (d : Dialog A)
        → Among t p.buttons
        → Among d (opened (p.dialogs (at (some t) r n)))
        → d.on_open_change ≡ closing t

  -- A row that is kept with nothing to show for it has a callback pending that drops it.
  abbrev pub Leaves : Option A → ℕ → Type 0
  Leaves (some r) zero = ⊥
  Leaves r n = Unit

  -- The shapes of the states that are reached.
  pub data Shape : Rows A → Type ℓ where
    nothing_open : (r : Option A) (n : ℕ) → Leaves r n → Shape (at none r n)
    row_open : (t : Text) (r : A) → Among t p.menu → Shape (at (some t) (some r) 0)
    button_open :
        (t : Text) (r : Option A) (n : ℕ) → Leaves r n → Among t p.buttons → Shape (at (some t) r n)

  -- The provider names no dialog and none is rendered open; or it names one, exactly one is rendered
  -- open, either without a row or with the current one, and closing it leaves none named.
  abbrev pub Shown : Rows A → Type ℓ
  Shown s =
      ((s.opens ≡ none) × (opened (p.dialogs s) ≡ []))
      ⊎ ((s.opens ≢ none)
          × ((d : Dialog A) × (opened (p.dialogs s) ≡ d ∷ [])
              × ((d.row ≡ none) ⊎ (d.row ≡ s.current_row))
              × ((d.on_open_change s).opens ≡ none)))

  module _ (is_page : IsPage) where
    not_two : {d : Dialog A} → d ∷ [] ≢ []
    not_two e = cc

    row_open_at :
        (r : A) (t : Text) (n : ℕ) → n ≡ 0 → Among t p.menu → Shape (at (some t) (some r) n)
    row_open_at r t zero z m = row_open t r m
    row_open_at r t (suc n) z m = absurd (omega arith)

    click-Shape :
        (r : A) (t : Text) {s : Rows A}
        → Among t p.menu
        → opened (p.dialogs s) ≡ []
        → s.timers ≡ 0
        → Shape s
        → Shape (on_click r t s)
    unfolding on_click set_open
    click-Shape r t m h z (nothing_open q n w) = row_open_at r t n z m
    click-Shape r t m h z (row_open t' q m') =
        absurd (not_two (sym (is_page.of_menu t' q 0 m').1 ∙ h))
    click-Shape r t m h z (button_open t' q n w m') =
        absurd (not_two (sym (is_page.of_button t' q n m').1 ∙ h))

    button-Shape :
        (t : Text) {s : Rows A}
        → Among t p.buttons
        → opened (p.dialogs s) ≡ []
        → Shape s
        → Shape (press (some t) s)
    unfolding set_open
    button-Shape t m h (nothing_open q n w) = button_open t q n w m
    button-Shape t m h (row_open t' q m') = absurd (not_two (sym (is_page.of_menu t' q 0 m').1 ∙ h))
    button-Shape t m h (button_open t' q n w m') =
        absurd (not_two (sym (is_page.of_button t' q n m').1 ∙ h))

    only : {d e : Dialog A} {ds : List (Dialog A)} → ds ≡ e ∷ [] → Among d ds → d ≡ e
    only h (first xs) = cc
    only h (later x (first xs)) = cc
    only h (later x (later y m)) = cc

    none-Among : {d : Dialog A} {ds : List (Dialog A)} → ds ≡ [] → Among d ds → ⊥
    none-Among h (first xs) = cc
    none-Among h (later x m) = cc

    -- What closing does, for whichever dialog is open.
    close-Single :
        {d : Dialog A} {s after : Rows A} {row : Option A}
        → Single s row after
        → Among d (opened (p.dialogs s))
        → d.on_open_change s ≡ after
    close-Single {s = s} (e, h, r, c) m = ap (λ x. x.on_open_change s) (only h m) ∙ c

    close-Shape :
        (d : Dialog A) {s : Rows A}
        → Among d (opened (p.dialogs s))
        → Shape s
        → Shape (d.on_open_change s)
    close-Shape d m (nothing_open q n w) = absurd (none-Among (is_page.shut q n) m)
    close-Shape d m (row_open t q m') =
        subst Shape (sym (close-Single (is_page.of_menu t q 0 m') m)) (nothing_open (some q) 1 tt)
    close-Shape d m (button_open t q n w m') =
        subst Shape (sym (close-Single (is_page.of_button t q n m') m)) (nothing_open q n w)

    fire-Shape : (n : ℕ) {s : Rows A} → s.timers ≡ suc n → Shape s → Shape (fire n s)
    fire-Shape n h (nothing_open q k w) = nothing_open none n tt
    fire-Shape n h (row_open t q m) = absurd (omega arith)
    fire-Shape n h (button_open t q k w m) = button_open t none n tt m

    -- The shapes with the requests that wait: none does, or that of the dialog that is open.
    pub data Waits : Rows A → List (Closer A) → Type ℓ where
      quiet : (s : Rows A) → Shape s → Waits s []
      row_waits :
          (t : Text) (r : A) (f : Closer A)
          → Among t p.menu
          → f (at (some t) (some r) 0) ≡ at none (some r) 1
          → Waits (at (some t) (some r) 0) (f ∷ [])
      button_waits :
          (t : Text) (r : Option A) (n : ℕ)
          → Leaves r n
          → Among t p.buttons
          → Waits (at (some t) r n) (is_page.closing t ∷ [])

    closing-Single :
        (t : Text) (r : Option A) (n : ℕ)
        → Among t p.buttons
        → is_page.closing t (at (some t) r n) ≡ at none r n
    closing-Single t r n m =
        let (d, h, row, c) = is_page.of_button t r n m in
        ap (λ f. f (at (some t) r n))
          (sym (is_page.of_closing t r n d m (subst (Among d) (sym h) (first []))))
        ∙ c

    -- The dialog that is open shuts out the page.
    no_menu : (t : Text) (r : A) → Among t p.menu → opened (p.dialogs (at (some t) (some r) 0)) ≢ []
    no_menu t r m h = not_two (sym (is_page.of_menu t r 0 m).1 ∙ h)

    no_button :
        (t : Text) (r : Option A) (n : ℕ)
        → Among t p.buttons
        → opened (p.dialogs (at (some t) r n)) ≢ []
    no_button t r n m h = not_two (sym (is_page.of_button t r n m).1 ∙ h)

    submit-Waits :
        (d : Dialog A) {s : Rows A}
        → Among d (opened (p.dialogs s))
        → Shape s
        → Waits s (d.on_open_change ∷ [])
    submit-Waits d m (nothing_open q n w) = absurd (none-Among (is_page.shut q n) m)
    submit-Waits d m (row_open t q m') =
        row_waits t q d.on_open_change m' (close-Single (is_page.of_menu t q 0 m') m)
    submit-Waits d m (button_open t q n w m') =
        subst (λ f. Waits (at (some t) q n) (f ∷ [])) (sym (is_page.of_closing t q n d m' m))
          (button_waits t q n w m')

    Step-Waits :
        {s u : Rows A} {ws vs : List (Closer A)} → Step p s ws u vs → Waits s ws → Waits u vs
    Step-Waits (click r t s ws m h z) (quiet _ i) = quiet (on_click r t s) (click-Shape r t m h z i)
    Step-Waits (click r t s ws m h z) (row_waits t' q f m' e) = absurd (no_menu t' q m' h)
    Step-Waits (click r t s ws m h z) (button_waits t' q n w m') = absurd (no_button t' q n m' h)
    Step-Waits (button t s ws m h) (quiet _ i) = quiet (press (some t) s) (button-Shape t m h i)
    Step-Waits (button t s ws m h) (row_waits t' q f m' e) = absurd (no_menu t' q m' h)
    Step-Waits (button t s ws m h) (button_waits t' q n w m') = absurd (no_button t' q n m' h)
    Step-Waits (close d s m) (quiet _ i) = quiet (d.on_open_change s) (close-Shape d m i)
    Step-Waits (submit d s m b) (quiet _ i) = submit-Waits d m i
    Step-Waits (accepted f s ws) (row_waits t q _ m e) =
        subst (λ x. Waits x []) (sym e) (quiet (at none (some q) 1) (nothing_open (some q) 1 tt))
    Step-Waits (accepted f s ws) (button_waits t q n w m) =
        subst (λ x. Waits x []) (sym (closing-Single t q n m))
          (quiet (at none q n) (nothing_open q n w))
    Step-Waits (refused f s ws) (row_waits t q _ m e) =
        quiet (at (some t) (some q) 0) (row_open t q m)
    Step-Waits (refused f s ws) (button_waits t q n w m) =
        quiet (at (some t) q n) (button_open t q n w m)
    Step-Waits (timer n s ws h) (quiet _ i) = quiet (fire n s) (fire-Shape n h i)
    Step-Waits (timer n s ws h) (row_waits t q f m e) = absurd (omega arith)
    Step-Waits (timer n s ws h) (button_waits t q k w m) = button_waits t none n tt m

    pub Reach-Waits : {s : Rows A} {ws : List (Closer A)} → Reach p provider [] s ws → Waits s ws
    Reach-Waits here = quiet provider (nothing_open none 0 tt)
    Reach-Waits (next r st) = Step-Waits st (Reach-Waits r)

    Waits-Shape : {s : Rows A} {ws : List (Closer A)} → Waits s ws → Shape s
    Waits-Shape (quiet s i) = i
    Waits-Shape (row_waits t r f m e) = row_open t r m
    Waits-Shape (button_waits t r n w m) = button_open t r n w m

    Single-Shown :
        {t : Text} {row : Option A} {q : Option A} {n : ℕ} {after : Rows A}
        → Single (at (some t) q n) row after
        → (row ≡ none) ⊎ (row ≡ q)
        → after.opens ≡ none
        → Shown (at (some t) q n)
    Single-Shown (d, h, r, c) w z =
        let about_row : (d.row ≡ none) ⊎ (d.row ≡ _) = elim w [
          | inl e ↦ inl (r ∙ e)
          | inr e ↦ inr (r ∙ e)
        ] in
        inr (λ e. cc, (d, h, about_row, ap (λ x. x.opens) c ∙ z))

    Shape-Shown : {s : Rows A} → Shape s → Shown s
    Shape-Shown (nothing_open q n w) = inl (refl, is_page.shut q n)
    Shape-Shown (row_open t q m) = Single-Shown (is_page.of_menu t q 0 m) (inr refl) refl
    Shape-Shown (button_open t q n w m) = Single-Shown (is_page.of_button t q n m) (inl refl) refl

    pub Reach-Shown : {s : Rows A} {ws : List (Closer A)} → Reach p provider [] s ws → Shown s
    Reach-Shown r = Shape-Shown (Waits-Shape (Reach-Waits r))
