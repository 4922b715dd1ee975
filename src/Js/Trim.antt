-- ===== src/Js/Trim.antt =====
-- `s.trim()`, and `s.replace(/\s+/g, ' ')`.
pub mod Laws
use wgpanelne.Prelude.{
  ℕ, ◌≡◌, refl, Bool, true, false, not, ◌||◌, ◌&&◌, List, [], ◌∷◌, ◌++◌, arith, ◌==◌, leb,
  if◌then◌else◌, All,
}
use wgpanelne.Js.Strings.{Text}

-- The white space and line terminators of the language; the class `\s` has the same members.
unfoldable pub is_space : ℕ → Bool
is_space c =
    c == 32
    || (leb 9 c && leb c 13)
    || c == 160
    || c == 0x1680
    || (leb 0x2000 c && leb c 0x200a)
    || c == 0x2028
    || c == 0x2029
    || c == 0x202f
    || c == 0x205f
    || c == 0x3000
    || c == 0xfeff

abbrev pub AllSpace : Text → Type 0
AllSpace = All (λ c. is_space c ≡ true)

unfoldable pub trim_start : Text → Text
unfolding is_space
trim_start [] = []
trim_start (c ∷ s) = let rest = trim_start s in if is_space c then rest else c ∷ s

-- A character in front of a text that is trimmed at its end.
abbrev pub keep : ℕ → Text → Text
keep c [] = if is_space c then [] else c ∷ []
keep c (d ∷ t) = c ∷ d ∷ t

unfoldable pub trim_end : Text → Text
unfolding is_space
trim_end [] = []
trim_end (c ∷ s) = keep c (trim_end s)

unfoldable pub trim : Text → Text
unfolding trim_start trim_end
trim s = trim_start (trim_end s)

-- Each run of spaces becomes one space; the flag tells that a run has begun.
unfoldable pub collapse_from : Bool → Text → Text
unfolding is_space
collapse_from run [] = []
collapse_from run (c ∷ s) =
    let within = collapse_from true s in
    let outside = collapse_from false s in
    if is_space c then (if run then within else 32 ∷ within) else c ∷ outside

unfoldable pub collapse : Text → Text
unfolding collapse_from
collapse s = collapse_from false s
