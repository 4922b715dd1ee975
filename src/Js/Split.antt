-- ===== src/Js/Split.antt =====
-- `s.split(c)` for a separator of one character.
use wgpanelne.Prelude.{ℕ, ◌≡◌, refl, ap, List, [], ◌∷◌, ◌++◌, arith, ◌==◌, if◌then◌else◌, head_or}
use wgpanelne.Js.Strings.{Text, Lacks}

-- Puts a character in front of the first part.
abbrev pub push_front : ℕ → List Text → List Text
push_front c [] = (c ∷ []) ∷ []
push_front c (p ∷ ps) = (c ∷ p) ∷ ps

unfoldable pub split : Text → ℕ → List Text
split [] sep = [] ∷ []
split (c ∷ s) sep = let rest = split s sep in if c == sep then [] ∷ rest else push_front c rest

-- `s.split(c)[0]`
unfoldable pub first_part : Text → ℕ → Text
unfolding split
first_part s sep = head_or [] (split s sep)

pub split-Lacks : (sep : ℕ) (s : Text) → Lacks sep s → split s sep ≡ s ∷ []
unfolding split
split-Lacks sep [] _ = refl
split-Lacks sep (c ∷ s) (h, hs) = rw (split-Lacks sep s hs) (ground arith)

pub split-append : (sep : ℕ) (p s : Text) → Lacks sep p → split (p ++ sep ∷ s) sep ≡ p ∷ split s sep
unfolding split
split-append sep [] s _ = ground arith
split-append sep (c ∷ p) s (h, hp) = rw (split-append sep p s hp) (ground arith)

-- The first part is what stands before the first separator.
pub first_part-append : (sep : ℕ) (p s : Text) → Lacks sep p → first_part (p ++ sep ∷ s) sep ≡ p
unfolding first_part
first_part-append sep p s h = ap (head_or []) (split-append sep p s h)

pub first_part-Lacks : (sep : ℕ) (s : Text) → Lacks sep s → first_part s sep ≡ s
unfolding first_part
first_part-Lacks sep s h = ap (head_or []) (split-Lacks sep s h)
