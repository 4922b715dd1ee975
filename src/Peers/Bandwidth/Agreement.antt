-- ===== src/Peers/Bandwidth/Agreement.antt =====
-- What the field shows and what the form holds agree, whatever the user does.
use wgpanelne.Prelude.{
  ℕ, ◌≡◌, ◌≢◌, refl, sym, ap, ◌∙◌, true, ◌⊎◌, inl, inr, Option, none, some, List, [], ◌∷◌, ◌++◌,
  append_assoc, arith, Bool-cases, All, ◌==◌,
}
use mathlib.Core.Option.{none-ne-some}
use mathlib.Core.Path.{ap₂}
use mathlib.Core.List.{head-eq_of_cons-eq, tail-eq_of_cons-eq}
use wgpanelne.Js.Strings.{Text}
use wgpanelne.Js.Decimal.{is_digit}
use wgpanelne.Peers.Bandwidth.{
  BandwidthUnit, kb, mb, gb, suffix, get_combined_value, to_upper, is_suffix, match_suffix,
  match_digits, match_number, match_fraction, match_bandwidth, unit_of, BandwidthField, initial,
  show_match, show_field, Event, type_text, choose_unit, clear, load, step, steps,
}

-- A way to go on that returns what it was given and one character more.
abbrev Splits : (Text → Text → Option (Text × ℕ)) → Type 0
Splits rest =
    (amount s : Text) (a : Text) (c : ℕ)
    → rest amount s ≡ some (a, c)
    → (amount ++ s ≡ a ++ c ∷ []) × (is_suffix c ≡ true)

match_suffix-Splits : Splits match_suffix
unfolding match_suffix
match_suffix-Splits amount [] a c e = cc
match_suffix-Splits amount (d ∷ []) a c e = ground arith
match_suffix-Splits amount (d ∷ b ∷ s) a c e = cc

match_digits-Splits :
    (rest : Text → Text → Option (Text × ℕ)) → Splits rest → Splits (match_digits rest)
unfolding match_digits
match_digits-Splits rest h amount [] a c e = h amount [] a c e
match_digits-Splits rest h amount (d ∷ s) a c e = elim (Bool-cases (is_digit d)) [
  | inl digit ↦
      let (same, ok) = match_digits-Splits rest h (amount ++ d ∷ []) s a c (rw digit at e) in
      (sym (append_assoc amount (d ∷ []) s) ∙ same, ok)
  | inr other ↦ h amount (d ∷ s) a c (rw other at e)
]

match_number-Splits :
    (rest : Text → Text → Option (Text × ℕ)) → Splits rest → Splits (match_number rest)
unfolding match_number
match_number-Splits rest h amount [] a c e = cc
match_number-Splits rest h amount (d ∷ s) a c e = elim (Bool-cases (is_digit d)) [
  | inl digit ↦
      let (same, ok) = match_digits-Splits rest h (amount ++ d ∷ []) s a c (rw digit at e) in
      (sym (append_assoc amount (d ∷ []) s) ∙ same, ok)
  | inr other ↦ absurd (none-ne-some (a, c) (rw other at e))
]

match_fraction-Splits : Splits match_fraction
unfolding match_fraction
match_fraction-Splits amount [] a c e = cc
match_fraction-Splits amount (d ∷ s) a c e = elim (Bool-cases (d == b'.')) [
  | inl dot ↦
      let (same, ok) =
        match_number-Splits match_suffix match_suffix-Splits (amount ++ d ∷ []) s a c
          (rw dot at e) in
      (sym (append_assoc amount (d ∷ []) s) ∙ same, ok)
  | inr other ↦ match_suffix-Splits amount (d ∷ s) a c (rw other at e)
]

no_amount : (c : ℕ) → match_bandwidth (c ∷ []) ≡ none
unfolding match_bandwidth match_digits
no_amount c = ground arith

-- A match takes the text apart: an amount, not empty, and one letter of the three.
match_bandwidth_sound :
    (v a : Text) (c : ℕ)
    → match_bandwidth v ≡ some (a, c)
    → (v ≡ a ++ c ∷ []) × (is_suffix c ≡ true) × (a ≢ [])
unfolding match_bandwidth
match_bandwidth_sound v a c e =
    let (same, ok) = match_number-Splits match_fraction match_fraction-Splits [] v a c e in
    (
      same,
      ok,
      λ h. absurd (
          none-ne-some (a, c)
            (sym (no_amount c)
              ∙ ap match_bandwidth (ap (λ t. t ++ c ∷ []) (sym h) ∙ sym same)
              ∙ e)),
    )

snoc-injective : (a b : Text) (c d : ℕ) → a ++ c ∷ [] ≡ b ++ d ∷ [] → (a ≡ b) × (c ≡ d)
snoc-injective [] [] c d e = (refl, cc)
snoc-injective [] (y ∷ []) c d e = cc
snoc-injective [] (y ∷ z ∷ b) c d e = cc
snoc-injective (x ∷ []) [] c d e = cc
snoc-injective (x ∷ w ∷ a) [] c d e = cc
snoc-injective (x ∷ a) (y ∷ b) c d e =
    let (same, last) = snoc-injective a b c d (tail-eq_of_cons-eq e) in
    (ap₂ (λ p q. p ∷ q) (head-eq_of_cons-eq e) same, last)

unit_of-suffix : (u : BandwidthUnit) → unit_of (suffix u) ≡ u
unit_of-suffix kb = refl
unit_of-suffix mb = refl
unit_of-suffix gb = refl

suffix-unit_of : (c : ℕ) → is_suffix c ≡ true → suffix (unit_of c) ≡ to_upper c
unfolding is_suffix
suffix-unit_of c h = ground arith

-- A field that shows `raw` and `u`, and holds what they stand for.
abbrev pub combined : Text → BandwidthUnit → BandwidthField
combined raw u = record { raw_value = raw; unit = u; value = some (get_combined_value raw u) }

match_combined :
    (x : ℕ) (raw : Text) (u : BandwidthUnit) (a : Text) (c : ℕ)
    → match_bandwidth ((x ∷ raw) ++ suffix u ∷ []) ≡ some (a, c)
    → (a ≡ x ∷ raw) × (unit_of c ≡ u)
match_combined x raw u a c e =
    let (same, ok, _) = match_bandwidth_sound ((x ∷ raw) ++ suffix u ∷ []) a c e in
    let (amount, letter) = snoc-injective (x ∷ raw) a (suffix u) c same in
    (sym amount, ap unit_of (sym letter) ∙ unit_of-suffix u)

show_match-combined :
    (x : ℕ) (raw : Text) (u : BandwidthUnit) (m : Option (Text × ℕ))
    → match_bandwidth ((x ∷ raw) ++ suffix u ∷ []) ≡ m
    → show_match m (combined (x ∷ raw) u) ≡ combined (x ∷ raw) u
unfolding show_match
show_match-combined x raw u none e = refl
show_match-combined x raw u (some (a, c)) e =
    let (amount, unit) = match_combined x raw u a c e in rw (amount, unit)

-- The effect leaves a field alone that shows what it holds.
show_field-combined :
    (raw : Text) (u : BandwidthUnit) → show_field (combined raw u) ≡ combined raw u
unfolding show_field get_combined_value
show_field-combined [] u = refl
show_field-combined (x ∷ raw) u = show_match-combined x raw u _ refl

-- The form holds nothing and no amount is shown, or the form holds the shown amount and unit.
abbrev pub Agrees : BandwidthField → Type 0
Agrees s =
    ((s.value ≡ none) × (s.raw_value ≡ []))
    ⊎ (s.value ≡ some (get_combined_value s.raw_value s.unit))

-- What the backend stores: an amount in decimals and one of the letters K, M, G.
abbrev pub IsStored : Text → Type 0
IsStored v = (a : Text) × (c : ℕ) × (match_bandwidth v ≡ some (a, c)) × (to_upper c ≡ c)

-- The events of the user, and values that the form loads from the backend.
abbrev pub IsAllowed : Event → Type 0
IsAllowed (load v) = IsStored v
IsAllowed _ = Unit

combined-Agrees : (raw : Text) (u : BandwidthUnit) → Agrees (show_field (combined raw u))
combined-Agrees raw u = rw (show_field-combined raw u) (inr refl)

get_combined_value-split :
    (a : Text) (u : BandwidthUnit) → a ≢ [] → get_combined_value a u ≡ a ++ suffix u ∷ []
unfolding get_combined_value
get_combined_value-split [] u h = absurd (h refl)
get_combined_value-split (x ∷ a) u h = refl

match_bandwidth-nil : match_bandwidth [] ≡ none
unfolding match_bandwidth
match_bandwidth-nil = refl

step_choose_unit :
    (u : BandwidthUnit) (s : BandwidthField) → step (choose_unit u) s ≡ combined s.raw_value u
unfolding step
step_choose_unit u s = show_field-combined s.raw_value u

step_load :
    (v : Text) (s : BandwidthField) (a : Text) (c : ℕ)
    → match_bandwidth v ≡ some (a, c)
    → step (load v) s ≡ record { raw_value = a; unit = unit_of c; value = some v }
unfolding step
step_load [] s a c e = absurd (none-ne-some (a, c) (sym match_bandwidth-nil ∙ e))
step_load (x ∷ v) s a c e = rw e

combined_stored :
    (v a : Text) (c : ℕ)
    → match_bandwidth v ≡ some (a, c)
    → to_upper c ≡ c
    → get_combined_value a (unit_of c) ≡ v
combined_stored v a c e upper =
    let (same, ok, some_amount) = match_bandwidth_sound v a c e in
    get_combined_value-split a (unit_of c) some_amount
    ∙ ap (λ d. a ++ d ∷ []) (suffix-unit_of c ok ∙ upper)
    ∙ sym same

step-Agrees : (e : Event) (s : BandwidthField) → IsAllowed e → Agrees (step e s)
unfolding step get_combined_value
step-Agrees (type_text []) s _ = inl (refl, refl)
step-Agrees (type_text (x ∷ val)) s _ = combined-Agrees (x ∷ val) s.unit
step-Agrees (choose_unit unit) s _ = combined-Agrees s.raw_value unit
step-Agrees clear s _ = inl (refl, refl)
step-Agrees (load v) s (a, c, e, upper) =
    rw (step_load v s a c e) (inr (ap some (sym (combined_stored v a c e upper))))

steps-Agrees_from :
    (es : List Event) (s : BandwidthField) → All IsAllowed es → Agrees s → Agrees (steps es s)
unfolding steps
steps-Agrees_from [] s _ h = h
steps-Agrees_from (e ∷ es) s (ok, oks) h = steps-Agrees_from es (step e s) oks (step-Agrees e s ok)

-- From the empty field on, after any typing (of any text), choices of a unit, clearing and loading
-- of stored values, either nothing is shown and the form holds nothing, or the form holds the
-- amount that is shown with the letter of the unit that is shown.
pub steps-Agrees : (es : List Event) → All IsAllowed es → Agrees (steps es initial)
steps-Agrees es h = steps-Agrees_from es initial h (inl (refl, refl))

-- A stored value is shown as an amount and a unit that are combined to the value again, and
-- choosing the unit that is shown changes nothing.
pub load_round_trip :
    (v : Text) (s : BandwidthField)
    → IsStored v
    → let t = step (load v) s in
      (t.value ≡ some v)
      × (get_combined_value t.raw_value t.unit ≡ v)
      × (step (choose_unit t.unit) t ≡ t)
load_round_trip v s (a, c, e, upper) =
    rw (step_load v s a c e) (refl, combined_stored v a c e upper, chosen)
  where
    shown : BandwidthField
    shown = record { raw_value = a; unit = unit_of c; value = some v }

    chosen : step (choose_unit (unit_of c)) shown ≡ shown
    chosen =
        step_choose_unit (unit_of c) shown
        ∙ ap (λ w. record { raw_value = a; unit = unit_of c; value = some w })
            (combined_stored v a c e upper)
