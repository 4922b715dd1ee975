-- ===== src/Appearance/FontShown.antt =====
-- The page shows the font that was chosen, and again after it was loaded anew.
use wgpanelne.Prelude.{
  ◌≡◌, ◌≢◌, refl, sym, ap, ◌∙◌, true, false, Option, some, List, [], ◌∷◌, ◌++◌, length, Bool-cases,
  inl, inr, All,
}
use wgpanelne.Js.Strings.{Text, codes, text_eq, text_eq_iff, starts_with}
use wgpanelne.Tables.Filters.{has}
use wgpanelne.Appearance.Fonts.{
  fonts, is_font, for_each, apply_font, FontState, saved_font, start_font, set_font, set_fonts,
}
use wgpanelne.Appearance.OneFont.{
  font_classes, other_classes, font_yes, font_no, other_yes, other_no, distinct,
}
use wgpanelne.Appearance.Passes.{AtMostOne, pass-Cleared}

-- The page has the class for `f`, none for another font, and these other classes.
abbrev pub ShowsFont : Text → List Text → List Text → Type 0
ShowsFont f others l = (font_classes l ≡ (codes "font-" ++ f) ∷ []) × (other_classes l ≡ others)

no_fonts_cons :
    (y : Text) (l : List Text)
    → font_classes (y ∷ l) ≡ []
    → (is_font y ≡ false) × (font_classes l ≡ [])
no_fonts_cons y l h = elim (Bool-cases (is_font y)) [
  | inl g ↦ absurd (not_empty (sym (font_yes y l g) ∙ h))
  | inr g ↦ (g, sym (font_no y l g) ∙ h)
]
  where
    not_empty : y ∷ font_classes l ≢ []
    not_empty e = cc

has_no_font : (c : Text) (l : List Text) → is_font c ≡ true → font_classes l ≡ [] → has c l ≡ false
has_no_font c [] f h = refl
has_no_font c (y ∷ l) f h =
    let (g, rest) = no_fonts_cons y l h in rw (distinct c y f g) (has_no_font c l f rest)

with_added :
    (c : Text) (l : List Text)
    → is_font c ≡ true
    → font_classes l ≡ []
    → (font_classes (l ++ c ∷ []) ≡ c ∷ []) × (other_classes (l ++ c ∷ []) ≡ other_classes l)
with_added c [] f h = (font_yes c [] f, other_no c [] f)
with_added c (y ∷ l) f h =
    let (g, rest) = no_fonts_cons y l h in
    let (a, b) = with_added c l f rest in
    (
      font_no y (l ++ c ∷ []) g ∙ a,
      other_yes y (l ++ c ∷ []) g ∙ ap (λ r. y ∷ r) b ∙ sym (other_yes y l g),
    )

is_font-font : (f : Text) → is_font (codes "font-" ++ f) ≡ true
unfolding is_font starts_with
is_font-font f = refl

apply_font-ShowsFont :
    (f : Text) (l : List Text) → AtMostOne l → ShowsFont f (other_classes l) (apply_font f l)
unfolding apply_font
apply_font-ShowsFont f l h =
    let (a, b) = pass-Cleared l h in
    let new = has_no_font (codes "font-" ++ f) (for_each (length l) 0 l) (is_font-font f) a in
    let (p, q) = with_added (codes "font-" ++ f) (for_each (length l) 0 l) (is_font-font f) a in
    rw new (p, q ∙ b)

-- The state of the provider agrees with the page and, once a font was set, with what is stored.
abbrev pub Agrees : List Text → FontState → Type 0
Agrees others s = ShowsFont s.font others s.classes × (saved_font s.stored ≡ s.font)

saved : (g : Text) → has g fonts ≡ true → saved_font (some g) ≡ g
unfolding saved_font
saved g h = rw h refl

set_font-Agrees :
    (f : Text) (others : List Text) (s : FontState)
    → has f fonts ≡ true
    → Agrees others s
    → Agrees others (set_font f s)
unfolding set_font
set_font-Agrees f others s known ((a, b), c) = elim (Bool-cases (text_eq f s.font)) [
  | inl e ↦
      let same : s.font ≡ f = sym ((text_eq_iff f s.font).0 e) in
      (rw e (a ∙ ap (λ g. (codes "font-" ++ g) ∷ []) same, b), saved f known)
  | inr e ↦
      let (p, q) = apply_font-ShowsFont f s.classes (inr (codes "font-" ++ s.font, a)) in
      (rw e (p, q ∙ b), saved f known)
]

set_fonts-Agrees :
    (fs : List Text) (others : List Text) (s : FontState)
    → All (λ f. has f fonts ≡ true) fs
    → Agrees others s
    → Agrees others (set_fonts fs s)
unfolding set_fonts
set_fonts-Agrees [] others s hs h = h
set_fonts-Agrees (f ∷ fs) others s (k, hs) h =
    set_fonts-Agrees fs others (set_font f s) hs (set_font-Agrees f others s k h)

start_font-Agrees :
    (stored : Option Text) (classes : List Text)
    → AtMostOne classes
    → Agrees (other_classes classes) (start_font stored classes)
unfolding start_font
start_font-Agrees stored classes h = (apply_font-ShowsFont (saved_font stored) classes h, refl)

-- If the page has at most one class for a font at first, then after any choices of fonts it has
-- exactly one, that of the font of the provider, and all its other classes as before; and a page that
-- is loaded with what is stored by then starts with the same font.
pub set_fonts-ShowsFont :
    (stored : Option Text) (classes : List Text) (fs : List Text)
    → AtMostOne classes
    → All (λ f. has f fonts ≡ true) fs
    → ShowsFont
        (set_fonts fs (start_font stored classes)).font
        (other_classes classes)
        (set_fonts fs (start_font stored classes)).classes
      × (saved_font (set_fonts fs (start_font stored classes)).stored
          ≡ (set_fonts fs (start_font stored classes)).font)
set_fonts-ShowsFont stored classes fs h hs =
    set_fonts-Agrees fs (other_classes classes) (start_font stored classes) hs
      (start_font-Agrees stored classes h)
