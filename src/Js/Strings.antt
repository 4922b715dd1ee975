-- ===== src/Js/Strings.antt =====
-- Strings: equality, truthiness, prefixes and suffixes.
use Prim.Native.Char.{code}
use Prim.Native.String.{String}
use wgpanelne.Prelude.{
  ℕ, ◌≡◌, refl, ◌↔◌, ◌≢◌, ap, Bool, true, false, ◌&&◌, ◌||◌, List, [], ◌∷◌, ◌++◌, arith, ◌==◌, All,
  Bool-cases, inl, inr,
}

-- A string is the list of its code units.
abbrev pub Text : Type 0
Text = List ℕ

-- A literal; the literals of the sources that are used here are ASCII.
abbrev pub codes : String → Text
codes String.[] = []
codes (String.◌∷◌ c s) = code c ∷ codes s

-- `s === t`
unfoldable pub text_eq : Text → Text → Bool
text_eq [] [] = true
text_eq (a ∷ s) (b ∷ t) = a == b && text_eq s t
text_eq _ _ = false

text_eq_sound : (s t : Text) → text_eq s t ≡ true → s ≡ t
unfolding text_eq
text_eq_sound [] [] h = refl
text_eq_sound [] (b ∷ t) h = cc
text_eq_sound (a ∷ s) [] h = cc
text_eq_sound (a ∷ s) (b ∷ t) h = ground (arith, text_eq_sound s t)

pub text_eq_refl : (s : Text) → text_eq s s ≡ true
unfolding text_eq
text_eq_refl [] = refl
text_eq_refl (a ∷ s) = ground (arith, text_eq_refl s)

pub text_eq_iff : (s t : Text) → (text_eq s t ≡ true) ↔ (s ≡ t)
text_eq_iff s t = (text_eq_sound s t, λ e. rw e (text_eq_refl t))

-- `!!s`: a string is falsy exactly when it is empty.
abbrev pub truthy : Text → Bool
truthy [] = false
truthy (c ∷ s) = true

abbrev pub Lacks : ℕ → Text → Type 0
Lacks b = All (λ c. c ≢ b)

-- `s.startsWith(p)`
unfoldable pub starts_with : Text → Text → Bool
starts_with s [] = true
starts_with [] (b ∷ p) = false
starts_with (a ∷ s) (b ∷ p) = a == b && starts_with s p

-- `s.endsWith(q)`
unfoldable pub ends_with : Text → Text → Bool
unfolding text_eq
ends_with [] q = text_eq [] q
ends_with (c ∷ s) q = text_eq (c ∷ s) q || ends_with s q

pub ends_with-append : (p q : Text) → ends_with (p ++ q) q ≡ true
unfolding ends_with
ends_with-append [] [] = refl
ends_with-append [] (c ∷ q) = ground (arith, text_eq_refl (c ∷ q))
ends_with-append (c ∷ p) q = ground (arith, ends_with-append p q)

pub ends_with_sound : (s q : Text) → ends_with s q ≡ true → (p : Text) × (s ≡ p ++ q)
unfolding ends_with
ends_with_sound [] q h = ([], text_eq_sound [] q h)
ends_with_sound (c ∷ s) q h = elim (Bool-cases (text_eq (c ∷ s) q)) [
  | inl same ↦ ([], text_eq_sound (c ∷ s) q same)
  | inr other ↦ let (p, e) = ends_with_sound s q (ground arith) in (c ∷ p, ap (λ t. c ∷ t) e)
]

-- `cell.includes(val)` on a string: `val` occurs somewhere in it.
unfoldable pub includes : Text → Text → Bool
unfolding starts_with
includes [] q = starts_with [] q
includes (c ∷ s) q = starts_with (c ∷ s) q || includes s q
