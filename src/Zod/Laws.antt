-- ===== src/Zod/Laws.antt =====
-- What follows of the documented behaviour for the schemas that the panel builds.
use wgpanelne.Prelude.{ℕ, ◌≤◌, ◌≡◌, refl, Option, none, some, arith, length}
use wgpanelne.Prelude.Int.{pos, negsuc}
use wgpanelne.Js.Strings.{Text}
use wgpanelne.Zod.Values.{Value, null, bool, num, str, arr, obj, Fields, get_field}
use wgpanelne.Zod.Syntax.{Schema, string, min_length, number, min_number, object, Shape, entry}
use wgpanelne.Zod.Interface.{
  ◌>>=◌, check, is_string, has_length, at_least, is_number, keep_field, parse_shape, Zod,
}

-- Inversion of a chain that succeeds.
pub >>=-eq-some {ℓ κ} :
    {A : Type ℓ} {B : Type κ} (m : Option A) (f : A → Option B) {b : B}
    → (m >>= f) ≡ some b
    → (a : A) × (m ≡ some a) × (f a ≡ some b)
>>=-eq-some none f e = cc
>>=-eq-some (some a) f e = (a, refl, e)

-- A text of at least `n` characters under a required field.
abbrev pub IsTextOf : ℕ → Option Value → Type 0
IsTextOf n v = (s : Text) × (v ≡ some (str s)) × (n ≤ length s)

-- A whole number that is at least `n`.
abbrev pub IsNumberFrom : ℕ → Option Value → Type 0
IsNumberFrom n v = (m : ℕ) × (v ≡ some (num (pos m))) × (n ≤ m)

text_check :
    (n : ℕ) (v : Option Value) {w : Option Value}
    → (check is_string v >>= check (has_length n)) ≡ some w
    → IsTextOf n v × (w ≡ v)
text_check n none e = cc
text_check n (some (str s)) e = ((s, refl, ground arith), ground arith)
text_check n (some null) e = cc
text_check n (some (bool b)) e = cc
text_check n (some (num m)) e = cc
text_check n (some (arr vs)) e = cc
text_check n (some (obj fs)) e = cc

number_check :
    (n : ℕ) (v : Option Value) {w : Option Value}
    → (check is_number v >>= check (at_least n)) ≡ some w
    → IsNumberFrom n v × (w ≡ v)
number_check n none e = cc
number_check n (some (num (pos m))) e = ((m, refl, ground arith), ground arith)
number_check n (some (num (negsuc m))) e = cc
number_check n (some null) e = cc
number_check n (some (bool b)) e = cc
number_check n (some (str s)) e = cc
number_check n (some (arr vs)) e = cc
number_check n (some (obj fs)) e = cc

module _ (z : Zod) where
  pub min_length_sound :
      (n : ℕ) (t : Text) (v : Option Value) {w : Option Value}
      → z.parse (min_length n t string) v ≡ some w
      → IsTextOf n v × (w ≡ v)
  min_length_sound n t v e = text_check n v (simp (z.parse-min_length, z.parse-string) at e)

  pub min_number_sound :
      (n : ℕ) (t : Text) (v : Option Value) {w : Option Value}
      → z.parse (min_number n t number) v ≡ some w
      → IsNumberFrom n v × (w ≡ v)
  min_number_sound n t v e = number_check n v (simp (z.parse-min_number, z.parse-number) at e)

  -- A field of a shape: its own result, and that of the fields behind it.
  pub entry_sound :
      (k : Text) (s : Schema) (sh : Shape) (fs : Fields) {gs : Fields}
      → parse_shape z.parse (entry k s sh) fs ≡ some gs
      → (v : Option Value) × (rest : Fields) × (z.parse s (get_field k fs) ≡ some v)
        × (parse_shape z.parse sh fs ≡ some rest)
        × (gs ≡ keep_field k v rest)
  entry_sound k s sh fs e =
      let (v, own, more) = >>=-eq-some _ _ e in
      let (rest, others, result) = >>=-eq-some _ _ more in (v, rest, own, others, (cc))

  pub object_sound :
      (sh : Shape) (v : Option Value) {w : Option Value}
      → z.parse (object sh) v ≡ some w
      → (fs : Fields) × (gs : Fields) × (v ≡ some (obj fs))
        × (parse_shape z.parse sh fs ≡ some gs)
        × (w ≡ some (obj gs))
  object_sound sh none e = cc (z.parse-object sh none)
  object_sound sh (some (obj fs)) e =
      let (gs, parsed, result) = >>=-eq-some _ _ (rw (z.parse-object sh (some (obj fs))) at e) in
      (fs, gs, refl, parsed, cc)
  object_sound sh (some null) e = cc (z.parse-object sh (some null))
  object_sound sh (some (bool b)) e = cc (z.parse-object sh (some (bool b)))
  object_sound sh (some (num n)) e = cc (z.parse-object sh (some (num n)))
  object_sound sh (some (str s)) e = cc (z.parse-object sh (some (str s)))
  object_sound sh (some (arr vs)) e = cc (z.parse-object sh (some (arr vs)))
