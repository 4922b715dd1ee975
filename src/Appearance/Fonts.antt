-- ===== src/Appearance/Fonts.antt =====
-- ui/src/context/font-context.tsx and ui/src/config/fonts.ts: the font of the page. The class list of
-- the page is a list without repetition; its `forEach` is that of arrays, which fixes the length
-- first and then reads one index after another from the list as it is by then.
use wgpanelne.Prelude.{
  ℕ, zero, suc, Bool, Option, none, some, List, [], ◌∷◌, ◌++◌, if◌then◌else◌, length, get_elem?,
}
use wgpanelne.Js.Strings.{Text, codes, text_eq, starts_with}
use wgpanelne.Tables.Filters.{has, add, remove}

abbrev pub fonts : List Text
fonts = codes "inter" ∷ codes "manrope" ∷ codes "system" ∷ []

unfoldable pub is_font : Text → Bool
is_font cls = starts_with cls (codes "font-")

-- What the callback does at an index; none is read past the end.
abbrev pub visited : Option Text → List Text → List Text
visited none classes = classes
visited (some cls) classes = if is_font cls then remove cls classes else classes

-- So many more indices from `k` on.
unfoldable pub for_each : ℕ → ℕ → List Text → List Text
for_each zero k classes = classes
for_each (suc n) k classes = for_each n (suc k) (visited (get_elem? classes k) classes)

unfoldable pub apply_font : Text → List Text → List Text
apply_font font classes = add (codes "font-" ++ font) (for_each (length classes) 0 classes)

pub record FontState : Type 0 where
  pub font : Text
  pub stored : Option Text
  pub classes : List Text

-- `fonts.includes(savedFont) ? savedFont : fonts[0]`
unfoldable pub saved_font : Option Text → Text
saved_font none = codes "inter"
saved_font (some f) = if has f fonts then f else codes "inter"

-- The first render, and its effect.
unfoldable pub start_font : Option Text → List Text → FontState
start_font stored classes = record {
  font = saved_font stored;
  stored = stored;
  classes = apply_font (saved_font stored) classes;
}

-- `setFont`, and the effect on `font` if it is another one.
unfoldable pub set_font : Text → FontState → FontState
set_font font s = record {
  font = font;
  stored = some font;
  classes = if text_eq font s.font then s.classes else apply_font font s.classes;
}

unfoldable pub set_fonts : List Text → FontState → FontState
set_fonts [] s = s
set_fonts (f ∷ fs) s = set_fonts fs (set_font f s)
