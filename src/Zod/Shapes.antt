-- ===== src/Zod/Shapes.antt =====
-- What an object schema makes of an object: its own fields, each parsed, and no others.
use wgpanelne.Prelude.{
  ◌≡◌, refl, Bool, true, false, not, ◌&&◌, Option, none, some, arith, if◌then◌else◌, Bool-cases,
  inl, inr,
}
use mathlib.Core.Option.{some-injective}
use wgpanelne.Js.Strings.{Text, text_eq, text_eq_refl, text_eq_iff}
use wgpanelne.Zod.Values.{Value, Fields, get_field}
use wgpanelne.Zod.Syntax.{Schema, Shape, done, entry}
use wgpanelne.Zod.Interface.{keep_field, parse_shape, Zod}
use wgpanelne.Zod.Laws.{entry_sound}

abbrev pub is_name : Text → Shape → Bool
is_name k done = false
is_name k (entry j s sh) = if text_eq k j then true else is_name k sh

abbrev pub schema_of : Text → Shape → Option Schema
schema_of k done = none
schema_of k (entry j s sh) = if text_eq k j then some s else schema_of k sh

-- No name stands twice; the shapes of the sources are like this.
abbrev pub has_distinct_names : Shape → Bool
has_distinct_names done = true
has_distinct_names (entry k s sh) = not (is_name k sh) && has_distinct_names sh

keep_field-eq :
    (k : Text) (v : Option Value) (rest : Fields)
    → get_field k rest ≡ none
    → get_field k (keep_field k v rest) ≡ v
unfolding get_field
keep_field-eq k none rest h = h
keep_field-eq k (some v) rest h = rw (text_eq_refl k)

keep_field-ne :
    (k j : Text) (v : Option Value) (rest : Fields)
    → text_eq k j ≡ false
    → get_field k (keep_field j v rest) ≡ get_field k rest
unfolding get_field
keep_field-ne k j none rest h = refl
keep_field-ne k j (some v) rest h = rw h

module _ (z : Zod) where
  parse_shape_unnamed :
      (sh : Shape) (fs : Fields) {gs : Fields}
      → parse_shape z.parse sh fs ≡ some gs
      → (k : Text) → is_name k sh ≡ false
      → get_field k gs ≡ none
  parse_shape_unnamed done fs {gs} e k h = go
    where
      go : get_field k gs ≡ none
      go = unfold get_field in cc
  parse_shape_unnamed (entry j s sh) fs e k h =
      let (v, rest, _, others, result) = entry_sound z j s sh fs e in
      elim (Bool-cases (text_eq k j)) [
        | inl same ↦ absurd (clash (rw same at h))
        | inr other ↦
            rw (result, keep_field-ne k j v rest other)
              (parse_shape_unnamed sh fs others k (rw other at h))
      ]
    where
      clash : true ≡ false → ⊥
      clash = cc

  -- Every field that the shape names holds the result of the field's own schema.
  pub parse_shape-get_field :
      (sh : Shape) (fs : Fields) {gs : Fields}
      → has_distinct_names sh ≡ true
      → parse_shape z.parse sh fs ≡ some gs
      → (k : Text) (s : Schema) → schema_of k sh ≡ some s
      → z.parse s (get_field k fs) ≡ some (get_field k gs)
  parse_shape-get_field done fs d e k s found = absurd (never found)
    where
      never : none ≡ some s → ⊥
      never = cc
  parse_shape-get_field (entry j t sh) fs d e k s found =
      let (v, rest, own, others, result) = entry_sound z j t sh fs e in
      elim (Bool-cases (text_eq k j)) [
        | inl same ↦
            let p : k ≡ j = (text_eq_iff k j).0 same in
            let q : some t ≡ some s = rw same at found in
            let fresh : get_field j rest ≡ none =
              parse_shape_unnamed sh fs others j (ground arith) in
            rw (p, result, keep_field-eq j v rest fresh, ← some-injective t s q) own
        | inr other ↦
            rw (result, keep_field-ne k j v rest other)
              (parse_shape-get_field sh fs (ground arith) others k s (rw other at found))
      ]
