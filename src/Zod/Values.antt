-- ===== src/Zod/Values.antt =====
-- Values of the language as the schemas see them. A number is a whole number: identifiers, ports,
-- counts and seconds. `undefined`, which only a missing field is, is `none` of `Option Value`.
use wgpanelne.Prelude.{Bool, Option, none, some, List, [], ◌∷◌, if◌then◌else◌}
use wgpanelne.Prelude.Int.{ℤ}
use wgpanelne.Js.Strings.{Text, text_eq}

mutual
  pub data Value : Type 0 where
    null : Value
    bool : Bool → Value
    num : ℤ → Value
    str : Text → Value
    arr : Items → Value
    obj : Fields → Value

  pub data Items : Type 0 where
    nil : Items
    cons : Value → Items → Items

  pub data Fields : Type 0 where
    end : Fields
    field : Text → Value → Fields → Fields

-- `o[k]`
unfoldable pub get_field : Text → Fields → Option Value
get_field k end = none
get_field k (field j v fs) = if text_eq k j then some v else get_field k fs

unfoldable pub keys : Fields → List Text
keys end = []
keys (field k v fs) = k ∷ keys fs
