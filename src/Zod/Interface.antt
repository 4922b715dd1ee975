-- ===== src/Zod/Interface.antt =====
-- What the documentation of zod says of `parse`: `none` is a `ZodError`, `some` the parsed value,
-- where `none` inside stands for `undefined`.
use wgpanelne.Prelude.{
  ℕ, ◌≡◌, Bool, true, false, Option, none, some, List, [], ◌∷◌, leb, length, any, if◌then◌else◌,
}
use wgpanelne.Prelude.Int.{pos}
use wgpanelne.Js.Strings.{Text, text_eq}
use wgpanelne.Zod.Values.{
  Value, null, bool, num, str, arr, obj, Items, nil, cons, Fields, end, field, get_field,
}
use wgpanelne.Zod.Syntax.{
  Schema, string, min_length, number, int, positive, min_number, boolean, enum, literal, optional,
  nullable, default_bool, either, array, object, Shape, done, entry,
}

abbrev pub Parsed : Type 0
Parsed = Option (Option Value)

infixl 5 ◌>>=◌
abbrev pub ◌>>=◌ {ℓ κ} : {A : Type ℓ} {B : Type κ} → Option A → (A → Option B) → Option B
none >>= f = none
some a >>= f = f a

abbrev pub check : (Value → Bool) → Option Value → Parsed
check ok none = none
check ok (some v) = if ok v then some (some v) else none

abbrev pub is_string : Value → Bool
is_string (str s) = true
is_string _ = false

abbrev pub is_number : Value → Bool
is_number (num n) = true
is_number _ = false

abbrev pub is_boolean : Value → Bool
is_boolean (bool b) = true
is_boolean _ = false

abbrev pub has_length : ℕ → Value → Bool
has_length n (str s) = leb n (length s)
has_length n _ = false

abbrev pub at_least : ℕ → Value → Bool
at_least n (num (pos m)) = leb n m
at_least n _ = false

abbrev pub is_one_of : List Text → Value → Bool
is_one_of ts (str s) = any (text_eq s) ts
is_one_of ts _ = false

-- The items of an array, each parsed.
abbrev pub parse_items : (Option Value → Parsed) → Items → Option Items
parse_items p nil = some nil
parse_items p (cons v vs) =
    p (some v) >>= λ w. parse_items p vs >>= λ ws. some (elim w [ none ↦ ws | some x ↦ cons x ws ])

-- The fields that a shape names, each parsed; a result `undefined` leaves the field out, and
-- fields that the shape does not name are dropped.
abbrev pub keep_field : Text → Option Value → Fields → Fields
keep_field k none fs = fs
keep_field k (some v) fs = field k v fs

abbrev pub parse_shape : (Schema → Option Value → Parsed) → Shape → Fields → Option Fields
parse_shape p done fs = some end
parse_shape p (entry k s sh) fs =
    p s (get_field k fs) >>= λ v. parse_shape p sh fs >>= λ rest. some (keep_field k v rest)

abbrev pub parse_array : (Option Value → Parsed) → Option Value → Parsed
parse_array p (some (arr vs)) = parse_items p vs >>= λ ws. some (some (arr ws))
parse_array p _ = none

abbrev pub parse_object : (Schema → Option Value → Parsed) → Shape → Option Value → Parsed
parse_object p sh (some (obj fs)) = parse_shape p sh fs >>= λ gs. some (some (obj gs))
parse_object p sh _ = none

abbrev pub parse_optional : (Option Value → Parsed) → Option Value → Parsed
parse_optional p none = some none
parse_optional p (some v) = p (some v)

abbrev pub parse_nullable : (Option Value → Parsed) → Option Value → Parsed
parse_nullable p (some null) = some (some null)
parse_nullable p v = p v

abbrev pub parse_default : Bool → (Option Value → Parsed) → Option Value → Parsed
parse_default b p none = some (some (bool b))
parse_default b p (some v) = p (some v)

abbrev pub first_success : Parsed → Parsed → Parsed
first_success none q = q
first_success (some v) q = some v

pub record Zod : Type 0 where
  pub parse : Schema → Option Value → Parsed
  pub parse-string : (v : Option Value) → parse string v ≡ check is_string v
  pub parse-min_length :
      (n : ℕ) (t : Text) (s : Schema) (v : Option Value)
      → parse (min_length n t s) v ≡ (parse s v >>= check (has_length n))
  pub parse-number : (v : Option Value) → parse number v ≡ check is_number v
  pub parse-int :
      (s : Schema) (v : Option Value) → parse (int s) v ≡ (parse s v >>= check is_number)
  pub parse-positive :
      (s : Schema) (v : Option Value) → parse (positive s) v ≡ (parse s v >>= check (at_least 1))
  pub parse-min_number :
      (n : ℕ) (t : Text) (s : Schema) (v : Option Value)
      → parse (min_number n t s) v ≡ (parse s v >>= check (at_least n))
  pub parse-boolean : (v : Option Value) → parse boolean v ≡ check is_boolean v
  pub parse-enum : (ts : List Text) (v : Option Value) → parse (enum ts) v ≡ check (is_one_of ts) v
  pub parse-literal :
      (t : Text) (v : Option Value) → parse (literal t) v ≡ check (is_one_of (t ∷ [])) v
  pub parse-optional :
      (s : Schema) (v : Option Value) → parse (optional s) v ≡ parse_optional (parse s) v
  pub parse-nullable :
      (s : Schema) (v : Option Value) → parse (nullable s) v ≡ parse_nullable (parse s) v
  pub parse-default_bool :
      (b : Bool) (s : Schema) (v : Option Value)
      → parse (default_bool b s) v ≡ parse_default b (parse s) v
  pub parse-either :
      (s t : Schema) (v : Option Value)
      → parse (either s t) v ≡ first_success (parse s v) (parse t v)
  pub parse-array : (s : Schema) (v : Option Value) → parse (array s) v ≡ parse_array (parse s) v
  pub parse-object : (sh : Shape) (v : Option Value) → parse (object sh) v ≡ parse_object parse sh v
