-- ===== src/Js/Decimal.antt =====
-- `String(n)` for a whole number, `s.padStart(2, '0')`, and `parseInt(s, 10)`.
pub mod Laws
use wgpanelne.Prelude.{
  ℕ, zero, suc, ◌+◌, ◌-◌, ◌*◌, ◌/◌, ◌%◌, Bool, true, false, ◌&&◌, List, [], ◌∷◌, ◌++◌, Option, none,
  some, ltb, leb, ◌==◌, if◌then◌else◌, length,
}
use wgpanelne.Prelude.Int.{ℤ, pos, neg_ℤ}
use wgpanelne.Js.Strings.{Text}
use wgpanelne.Js.Trim.{trim_start}

-- The digits of `n`; the fuel is above the number of digits if it is above `n`.
unfoldable pub digits : ℕ → ℕ → Text
digits zero n = []
digits (suc fuel) n =
    let more = digits fuel (n / 10) ++ (48 + n % 10) ∷ [] in
    if ltb n 10 then (48 + n) ∷ [] else more

-- `String(n)`
unfoldable pub to_string : ℕ → Text
unfolding digits
to_string n = digits (suc n) n

-- `s.padStart(2, '0')`
unfoldable pub pad2 : Text → Text
pad2 s = if length s == 0 then 48 ∷ 48 ∷ [] else if length s == 1 then 48 ∷ s else s

unfoldable pub is_digit : ℕ → Bool
is_digit c = leb 48 c && leb c 57

-- The digits at the front of a text, read behind the number `n`.
unfoldable pub value_from : ℕ → Text → ℕ
unfolding is_digit
value_from n [] = n
value_from n (c ∷ s) = let more = value_from (n * 10 + (c - 48)) s in if is_digit c then more else n

-- `NaN` is `none`: there is no digit where one is wanted.
unfoldable pub unsigned : Text → Option ℕ
unfolding value_from
unsigned [] = none
unsigned (c ∷ s) = if is_digit c then some (value_from 0 (c ∷ s)) else none

negated : Option ℕ → Option ℤ
negated none = none
negated (some n) = some (neg_ℤ (pos n))

positive : Option ℕ → Option ℤ
positive none = none
positive (some n) = some (pos n)

signed : Text → Option ℤ
unfolding negated positive unsigned
signed [] = none
signed (c ∷ s) =
    if c == 45
    then negated (unsigned s)
    else if c == 43
    then positive (unsigned s)
    else positive (unsigned (c ∷ s))

-- `parseInt(s, 10)`: leading white space, a sign, then the longest run of digits. The double that
-- the language returns is exact up to 2^53, and -0 equals 0 in every use.
unfoldable pub parse_int : Text → Option ℤ
unfolding signed trim_start
parse_int s = signed (trim_start s)
