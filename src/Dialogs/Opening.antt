-- ===== src/Dialogs/Opening.antt =====
-- ui/src/hooks/use-dialog-state.tsx: at most one dialog is open, `none` is `null`.
use wgpanelne.Prelude.{
  ◌≡◌, ◌≢◌, refl, ap, ◌∙◌, Bool, true, false, Option, none, some, if◌then◌else◌, Bool-cases, inl,
  inr,
}
use wgpanelne.Js.Strings.{Text, text_eq, text_eq_refl, text_eq_iff}

-- `prev === str`
abbrev pub same_dialog : Option Text → Option Text → Bool
same_dialog none none = true
same_dialog (some s) (some t) = text_eq s t
same_dialog _ _ = false

unfoldable pub set_open : Option Text → Option Text → Option Text
set_open str prev = if same_dialog prev str then none else str

same_dialog_sound : (p : Option Text) (t : Text) → same_dialog p (some t) ≡ true → p ≡ some t
same_dialog_sound (some s) t h = ap some ((text_eq_iff s t).0 h)
same_dialog_sound none t h = cc

set_open-other : (p : Option Text) (t : Text) → p ≢ some t → set_open (some t) p ≡ some t
unfolding set_open
set_open-other p t h = elim (Bool-cases (same_dialog p (some t))) [
  | inl same ↦ absurd (h (same_dialog_sound p t same))
  | inr other ↦ rw other refl
]

set_open-same : (t : Text) → set_open (some t) (some t) ≡ none
unfolding set_open
set_open-same t = rw (text_eq_refl t) refl

set_open-none : (p : Option Text) → set_open none p ≡ none
unfolding set_open
set_open-none none = refl
set_open-none (some s) = refl

-- Closing closes whatever is open. Opening a dialog that is not open opens it in place of another
-- one, and asking for it once more closes it; asking for the one that is open closes it, and once
-- more opens it again.
set_open_toggles :
    (p : Option Text) (t : Text)
    → (set_open none p ≡ none)
      × (p ≢ some t
          → (set_open (some t) p ≡ some t) × (set_open (some t) (set_open (some t) p) ≡ none))
      × (p ≡ some t
          → (set_open (some t) p ≡ none) × (set_open (some t) (set_open (some t) p) ≡ some t))
set_open_toggles p t = (
  set_open-none p,
  λ h. (set_open-other p t h, ap (set_open (some t)) (set_open-other p t h) ∙ set_open-same t),
  λ h.
      let shut : set_open (some t) p ≡ none = ap (set_open (some t)) h ∙ set_open-same t in
      (shut, ap (set_open (some t)) shut ∙ set_open-other none t (λ e. cc)),
)
