-- ===== src/Js/Decimal/Laws.antt =====
-- A whole number is read back from its decimal form.

use wgpanelne.Prelude.{
  ℕ, zero, suc, ◌+◌, ◌/◌, ◌%◌, ◌<◌, ◌≡◌, ◌≢◌, refl, sym, ◌∙◌, ap, true, false, [], ◌∷◌, ◌++◌, some,
  arith, All, All-append, append_assoc, append-nil, Bool-cases, inl, inr, ltb, ltb→lt,
}
use wgpanelne.Prelude.Int.{pos}
use wgpanelne.Js.Strings.{Text}
use wgpanelne.Js.Trim.{is_space}
use wgpanelne.Js.Trim.Laws.{trim_start_stop}
use wgpanelne.Js.Decimal.{digits, to_string, is_digit, value_from, parse_int}

abbrev pub AllDigit : Text → Type 0
AllDigit = All (λ c. is_digit c ≡ true)

is_digit-add : (d : ℕ) → d < 10 → is_digit (48 + d) ≡ true
unfolding is_digit
is_digit-add d h = ground arith

pub digits-AllDigit : (fuel n : ℕ) → AllDigit (digits fuel n)
unfolding digits
digits-AllDigit zero n = tt
digits-AllDigit (suc fuel) n = elim (Bool-cases (ltb n 10)) [
  | inl small ↦ rw small (is_digit-add n (ltb→lt n 10 small), tt)
  | inr large ↦ rw large (
      All-append (λ c. is_digit c ≡ true) (digits fuel (n / 10)) ((48 + n % 10) ∷ [])
        (digits-AllDigit fuel (n / 10)) (is_digit-add (n % 10) (omega arith), tt))
]

-- Reading the digits of `n` in front of `s` leaves `n` as the number read so far.
value_from-digits :
    (fuel n : ℕ) (s : Text) → n < fuel → value_from 0 (digits fuel n ++ s) ≡ value_from n s
unfolding digits value_from
value_from-digits zero n s h = elim h [ ]
value_from-digits (suc fuel) n s h = elim (Bool-cases (ltb n 10)) [
  | inl small ↦
      rw (small, is_digit-add n (ltb→lt n 10 small)) (ap (λ m. value_from m s) (omega arith))
  | inr large ↦
      let fits : n / 10 < fuel = ground arith in
      rw (large, append_assoc, value_from-digits fuel (n / 10) ((48 + n % 10) ∷ s) fits)
        (rw (is_digit-add (n % 10) (omega arith)) (ap (λ m. value_from m s) (omega arith)))
]

digits-ne-nil : (fuel n : ℕ) → digits (suc fuel) n ≢ []
unfolding digits
digits-ne-nil fuel n = elim (Bool-cases (ltb n 10)) [
  | inl small ↦ rw small (cc)
  | inr large ↦ rw large (λ e. absurd (go (digits fuel (n / 10)) e))
]
  where
    go : (t : Text) → t ++ (48 + n % 10) ∷ [] ≢ []
    go [] = cc
    go (c ∷ t) = cc

digit-ne_space : (c : ℕ) → is_digit c ≡ true → is_space c ≡ false
unfolding is_digit is_space
digit-ne_space c h = ground arith

-- A text that begins with a digit is read as the value of the digits at its front.
pub parse_int_digits :
    (c : ℕ) (s : Text) → is_digit c ≡ true → parse_int (c ∷ s) ≡ some (pos (value_from 0 (c ∷ s)))
unfolding parse_int
parse_int_digits c s h =
    rw (trim_start_stop c s (digit-ne_space c h)) (unfold is_digit in ground arith)

pub value_from-to_string : (n : ℕ) (s : Text) → value_from 0 (to_string n ++ s) ≡ value_from n s
unfolding to_string
value_from-to_string n s = value_from-digits (suc n) n s (omega arith)

pub value-to_string : (n : ℕ) → value_from 0 (to_string n) ≡ n
unfolding value_from
value-to_string n = ap (value_from 0) (sym (append-nil (to_string n))) ∙ value_from-to_string n []

pub to_string-AllDigit : (n : ℕ) → AllDigit (to_string n)
unfolding to_string
to_string-AllDigit n = digits-AllDigit (suc n) n

pub to_string-ne-nil : (n : ℕ) → to_string n ≢ []
unfolding to_string
to_string-ne-nil n = digits-ne-nil n n

parse_int-of_AllDigit : (t : Text) → t ≢ [] → AllDigit t → parse_int t ≡ some (pos (value_from 0 t))
parse_int-of_AllDigit [] h _ = absurd (h refl)
parse_int-of_AllDigit (c ∷ s) _ (h, _) = parse_int_digits c s h

-- `parseInt(String(n), 10) === n`.
pub parse_int-to_string : (n : ℕ) → parse_int (to_string n) ≡ some (pos n)
parse_int-to_string n =
    parse_int-of_AllDigit (to_string n) (to_string-ne-nil n) (to_string-AllDigit n)
    ∙ ap (λ m. some (pos m)) (value-to_string n)

-- Two numbers with one decimal form are one number.
pub to_string-injective : (m n : ℕ) → to_string m ≡ to_string n → m ≡ n
to_string-injective m n e = cc (value-to_string m, value-to_string n)
