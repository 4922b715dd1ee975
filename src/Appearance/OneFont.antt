-- ===== src/Appearance/OneFont.antt =====
-- The page has one class for its font, that of the font that was chosen.
use wgpanelne.Prelude.{
  ℕ, zero, suc, ◌≡◌, ◌≢◌, refl, sym, ap, ◌∙◌, true, false, not, some, List, [], ◌∷◌, get_elem?,
  filter, filter-true, filter-false, Bool-cases, inl, inr,
}
use wgpanelne.Js.Strings.{Text, text_eq, text_eq_iff}
use wgpanelne.Tables.Filters.{remove}
use wgpanelne.Appearance.Fonts.{is_font}

-- The classes for fonts, and the others.
abbrev pub font_classes : List Text → List Text
font_classes l = filter is_font l

abbrev pub other_classes : List Text → List Text
other_classes l = filter (λ c. not (is_font c)) l

pub font_yes :
    (x : Text) (l : List Text) → is_font x ≡ true → font_classes (x ∷ l) ≡ x ∷ font_classes l
font_yes x l h = filter-true is_font x l h

pub font_no : (x : Text) (l : List Text) → is_font x ≡ false → font_classes (x ∷ l) ≡ font_classes l
font_no x l h = filter-false is_font x l h

pub other_yes :
    (x : Text) (l : List Text) → is_font x ≡ false → other_classes (x ∷ l) ≡ x ∷ other_classes l
other_yes x l h = filter-true (λ c. not (is_font c)) x l (ap not h)

pub other_no :
    (x : Text) (l : List Text) → is_font x ≡ true → other_classes (x ∷ l) ≡ other_classes l
other_no x l h = filter-false (λ c. not (is_font c)) x l (ap not h)

keeps : (x y : Text) (l : List Text) → text_eq x y ≡ false → remove x (y ∷ l) ≡ y ∷ remove x l
keeps x y l h = filter-true (λ z. not (text_eq x z)) y l (ap not h)

drops : (x y : Text) (l : List Text) → text_eq x y ≡ true → remove x (y ∷ l) ≡ remove x l
drops x y l h = filter-false (λ z. not (text_eq x z)) y l (ap not h)

-- A class for a font is not another class.
pub distinct : (x y : Text) → is_font x ≡ true → is_font y ≡ false → text_eq x y ≡ false
distinct x y f g = elim (Bool-cases (text_eq x y)) [
  | inl e ↦
      let same : is_font x ≡ is_font y = ap is_font ((text_eq_iff x y).0 e) in
      absurd (true-false (sym f ∙ same ∙ g))
  | inr e ↦ e
]
  where
    true-false : true ≢ false
    true-false e = cc

pub no_font_at :
    (l : List Text) (k : ℕ) (c : Text)
    → font_classes l ≡ []
    → get_elem? l k ≡ some c
    → is_font c ≡ false
no_font_at [] k c h e = cc
no_font_at (x ∷ l) k c h e = elim (Bool-cases (is_font x)) [
  | inl f ↦ absurd (not_empty (sym (font_yes x l f) ∙ h))
  | inr f ↦ here_or_later k f e (λ i e. no_font_at l i c (sym (font_no x l f) ∙ h) e)
]
  where
    not_empty : x ∷ font_classes l ≢ []
    not_empty e = cc

    here_or_later :
        (k : ℕ)
        → is_font x ≡ false
        → get_elem? (x ∷ l) k ≡ some c
        → ((i : ℕ) → get_elem? l i ≡ some c → is_font c ≡ false)
        → is_font c ≡ false
    here_or_later zero f e later = cc
    here_or_later (suc k) f e later = later k e

remove_none : (x : Text) (l : List Text) → font_classes l ≡ [] → font_classes (remove x l) ≡ []
remove_none x [] h = refl
remove_none x (y ∷ l) h = elim (Bool-cases (is_font y)) [
  | inl f ↦ absurd (not_empty (sym (font_yes y l f) ∙ h))
  | inr f ↦
      let rest = remove_none x l (sym (font_no y l f) ∙ h) in
      elim (Bool-cases (text_eq x y)) [
        | inl e ↦ ap font_classes (drops x y l e) ∙ rest
        | inr e ↦ ap font_classes (keeps x y l e) ∙ font_no y (remove x l) f ∙ rest
      ]
]
  where
    not_empty : y ∷ font_classes l ≢ []
    not_empty e = cc

-- Removing the only one leaves none.
pub remove_only :
    (x : Text) (l : List Text)
    → is_font x ≡ true
    → font_classes l ≡ x ∷ []
    → font_classes (remove x l) ≡ []
remove_only x [] f h = refl
remove_only x (y ∷ l) f h = elim (Bool-cases (is_font y)) [
  | inl g ↦
      let e : y ∷ font_classes l ≡ x ∷ [] = sym (font_yes y l g) ∙ h in
      let same : x ≡ y = cc e in
      ap font_classes (drops x y l ((text_eq_iff x y).1 same)) ∙ remove_none x l (cc e)
  | inr g ↦
      ap font_classes (keeps x y l (distinct x y f g))
      ∙ font_no y (remove x l) g
      ∙ remove_only x l f (sym (font_no y l g) ∙ h)
]

pub other-remove :
    (x : Text) (l : List Text) → is_font x ≡ true → other_classes (remove x l) ≡ other_classes l
other-remove x [] f = refl
other-remove x (y ∷ l) f = elim (Bool-cases (is_font y)) [
  | inl g ↦
      let gone = other_no y l g in
      elim (Bool-cases (text_eq x y)) [
        | inl e ↦ ap other_classes (drops x y l e) ∙ other-remove x l f ∙ sym gone
        | inr e ↦
            ap other_classes (keeps x y l e)
            ∙ other_no y (remove x l) g
            ∙ other-remove x l f
            ∙ sym gone
      ]
  | inr g ↦
      ap other_classes (keeps x y l (distinct x y f g))
      ∙ other_yes y (remove x l) g
      ∙ ap (λ r. y ∷ r) (other-remove x l f)
      ∙ sym (other_yes y l g)
]
