-- ===== src/Zod/Reference.antt =====
-- A function that meets the documented behaviour: the assumptions can be met together.
use wgpanelne.Prelude.{◌≡◌, refl, Option, none, some, [], ◌∷◌}
use wgpanelne.Zod.Values.{Value, obj, Fields, end, get_field}
use wgpanelne.Zod.Syntax.{
  Schema, string, min_length, number, int, positive, min_number, boolean, enum, literal, optional,
  nullable, default_bool, either, array, object, Shape, done, entry,
}
use wgpanelne.Zod.Interface.{
  Parsed, ◌>>=◌, check, is_string, is_number, is_boolean, has_length, at_least, is_one_of,
  keep_field, parse_shape, parse_array, parse_object, parse_optional, parse_nullable, parse_default,
  first_success, Zod,
}

abbrev object_of : (Fields → Option Fields) → Option Value → Parsed
object_of p (some (obj fs)) = p fs >>= λ gs. some (some (obj gs))
object_of p _ = none

unfoldable mutual
  pub parse : Schema → Option Value → Parsed
  parse string v = check is_string v
  parse (min_length n t s) v = parse s v >>= check (has_length n)
  parse number v = check is_number v
  parse (int s) v = parse s v >>= check is_number
  parse (positive s) v = parse s v >>= check (at_least 1)
  parse (min_number n t s) v = parse s v >>= check (at_least n)
  parse boolean v = check is_boolean v
  parse (enum ts) v = check (is_one_of ts) v
  parse (literal t) v = check (is_one_of (t ∷ [])) v
  parse (optional s) v = parse_optional (parse s) v
  parse (nullable s) v = parse_nullable (parse s) v
  parse (default_bool b s) v = parse_default b (parse s) v
  parse (either s t) v = first_success (parse s v) (parse t v)
  parse (array s) v = parse_array (parse s) v
  parse (object sh) v = object_of (shape sh) v

  pub shape : Shape → Fields → Option Fields
  shape done fs = some end
  shape (entry k s sh) fs =
      parse s (get_field k fs) >>= λ v. shape sh fs >>= λ rest. some (keep_field k v rest)

shape-parse_shape : (sh : Shape) (fs : Fields) → shape sh fs ≡ parse_shape parse sh fs
unfolding parse
shape-parse_shape done fs = refl
shape-parse_shape (entry k s sh) fs = simp (shape-parse_shape sh fs)

pub object-parse_object :
    (sh : Shape) (v : Option Value) → parse (object sh) v ≡ parse_object parse sh v
unfolding parse
object-parse_object sh none = refl
object-parse_object sh (some (obj fs)) = rw (shape-parse_shape sh fs)
object-parse_object sh (some v) = refl

abbrev pub reference : Zod
unfolding parse
reference = record {
  parse = parse;
  parse-string = λ v. refl;
  parse-min_length = λ n t s v. refl;
  parse-number = λ v. refl;
  parse-int = λ s v. refl;
  parse-positive = λ s v. refl;
  parse-min_number = λ n t s v. refl;
  parse-boolean = λ v. refl;
  parse-enum = λ ts v. refl;
  parse-literal = λ t v. refl;
  parse-optional = λ s v. refl;
  parse-nullable = λ s v. refl;
  parse-default_bool = λ b s v. refl;
  parse-either = λ s t v. refl;
  parse-array = λ s v. refl;
  parse-object = object-parse_object;
}
