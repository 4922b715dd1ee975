-- ===== src/Appearance/Passes.antt =====
-- Every pass over the class list that meets the only class for a font removes it and no other class.
use wgpanelne.Prelude.{
  ℕ, zero, suc, ◌+◌, ◌≤◌, ◌<◌, ◌≡◌, ◌≢◌, refl, sym, ap, ◌∙◌, true, false, Option, none, some, List,
  [], ◌∷◌, length, get_elem?, Bool-cases, inl, inr, ◌⊎◌, arith,
}
use mathlib.Core.Path.{subst}
use wgpanelne.Js.Strings.{Text}
use wgpanelne.Tables.Filters.{remove}
use wgpanelne.Appearance.Fonts.{is_font, visited, for_each}
use wgpanelne.Appearance.OneFont.{
  font_classes, other_classes, font_yes, font_no, no_font_at, remove_only, other-remove,
}

-- Without a class for a font, nothing is removed.
for_each_none : (n k : ℕ) (l : List Text) → font_classes l ≡ [] → for_each n k l ≡ l
unfolding for_each
for_each_none zero k l h = refl
for_each_none (suc n) k l h =
    ap (for_each n (suc k)) (unchanged (get_elem? l k) refl) ∙ for_each_none n (suc k) l h
  where
    unchanged : (c : Option Text) → get_elem? l k ≡ c → visited c l ≡ l
    unchanged none e = refl
    unchanged (some c) e = rw (no_font_at l k c h e) refl

-- The only class for a font.
only_font_at :
    (x : Text) (l : List Text) (k : ℕ) (c : Text)
    → font_classes l ≡ x ∷ []
    → get_elem? l k ≡ some c
    → is_font c ≡ true
    → c ≡ x
only_font_at x [] k c h e f = cc
only_font_at x (y ∷ l) zero c h e f =
    let y_is : y ≡ c = cc e in
    let all : y ∷ font_classes l ≡ x ∷ [] = sym (font_yes y l (ap is_font y_is ∙ f)) ∙ h in
    sym y_is ∙ cc all
only_font_at x (y ∷ l) (suc k) c h e f = elim (Bool-cases (is_font y)) [
  | inl g ↦
      let all : y ∷ font_classes l ≡ x ∷ [] = sym (font_yes y l g) ∙ h in
      absurd (true-false (sym f ∙ no_font_at l k c (cc all) e))
  | inr g ↦ only_font_at x l k c (sym (font_no y l g) ∙ h) e f
]
  where
    true-false : true ≢ false
    true-false e = cc

-- It is at some index.
index_of :
    (x : Text) (l : List Text)
    → font_classes l ≡ x ∷ []
    → (i : ℕ) × (i < length l) × (get_elem? l i ≡ some x) × (is_font x ≡ true)
index_of x [] h = cc
index_of x (y ∷ l) h = elim (Bool-cases (is_font y)) [
  | inl g ↦
      let all : y ∷ font_classes l ≡ x ∷ [] = sym (font_yes y l g) ∙ h in
      let same : y ≡ x = cc all in (0, omega arith, ap some same, ap is_font (sym same) ∙ g)
  | inr g ↦
      let (i, lt, e, f) = index_of x l (sym (font_no y l g) ∙ h) in (suc i, omega (arith, lt), e, f)
]

-- What a pass leaves: no class for a font, and the other classes.
abbrev pub Cleared : List Text → List Text → Type 0
Cleared l m = (font_classes m ≡ []) × (other_classes m ≡ other_classes l)

removed :
    (x : Text) (n k : ℕ) (l : List Text)
    → font_classes l ≡ x ∷ []
    → is_font x ≡ true
    → Cleared l (for_each n k (remove x l))
removed x n k l h f =
    let gone = remove_only x l f h in
    let same = for_each_none n k (remove x l) gone in
    (ap font_classes same ∙ gone, ap other_classes same ∙ other-remove x l f)

-- One index, and those after it.
pass_at :
    (x : Text) (n k i : ℕ) (l : List Text) (c : Option Text)
    → font_classes l ≡ x ∷ []
    → is_font x ≡ true
    → get_elem? l i ≡ some x
    → get_elem? l k ≡ c
    → k ≤ i
    → (k < i → Cleared l (for_each n (suc k) l))
    → Cleared l (for_each n (suc k) (visited c l))
pass_at x n k i l none h f e at le next =
    let elsewhere : k ≢ i = λ same. none-some (sym at ∙ ap (get_elem? l) same ∙ e) in
    next (omega (arith, le, elsewhere))
  where
    none-some : none ≢ some x
    none-some e = cc
pass_at x n k i l (some c) h f e at le next = elim (Bool-cases (is_font c)) [
  | inl g ↦
      let same : c ≡ x = only_font_at x l k c h at g in
      rw g (
        subst (λ y. Cleared l (for_each n (suc k) (remove y l))) (sym same)
          (removed x n (suc k) l h f))
  | inr g ↦
      let elsewhere : k ≢ i = λ same. other g (sym at ∙ ap (get_elem? l) same ∙ e) in
      rw g (next (omega (arith, le, elsewhere)))
]
  where
    other : is_font c ≡ false → some c ≢ some x
    other g q =
        let same : c ≡ x = cc q in
        let clash : false ≡ true = sym g ∙ ap is_font same ∙ f in cc clash

for_each_one :
    (x : Text) (n k i : ℕ) (l : List Text)
    → font_classes l ≡ x ∷ []
    → is_font x ≡ true
    → get_elem? l i ≡ some x
    → k ≤ i
    → i < k + n
    → Cleared l (for_each n k l)
unfolding for_each
for_each_one x zero k i l h f e le lt = absurd (omega (arith, le, lt))
for_each_one x (suc n) k i l h f e le lt =
    pass_at x n k i l (get_elem? l k) h f e refl le
      (λ lt'. for_each_one x n (suc k) i l h f e lt' (omega (arith, lt)))

-- The class list has at most one class for a font.
abbrev pub AtMostOne : List Text → Type 0
AtMostOne l = (font_classes l ≡ []) ⊎ ((x : Text) × (font_classes l ≡ x ∷ []))

pub pass-Cleared : (l : List Text) → AtMostOne l → Cleared l (for_each (length l) 0 l)
pass-Cleared l (inl h) =
    let same = for_each_none (length l) 0 l h in (ap font_classes same ∙ h, ap other_classes same)
pass-Cleared l (inr (x, h)) =
    let (i, lt, e, f) = index_of x l h in
    for_each_one x (length l) 0 i l h f e (omega arith) (omega (arith, lt))
