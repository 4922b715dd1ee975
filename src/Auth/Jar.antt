-- ===== src/Auth/Jar.antt =====
-- A cookie jar that meets what is assumed of js-cookie.
use wgpanelne.Prelude.{◌≡◌, refl, Option, none, some, List, [], ◌∷◌, arith, if◌then◌else◌}
use wgpanelne.Js.Strings.{Text, text_eq, text_eq_iff}
use wgpanelne.Auth.Cookies.{Cookies}

abbrev pub Entries : Type 0
Entries = List (Text × Text)

unfoldable pub find : Text → Entries → Option Text
find j [] = none
find j ((k, v) ∷ jar) = if text_eq j k then some v else find j jar

unfoldable pub drop_key : Text → Entries → Entries
drop_key k [] = []
drop_key k ((i, v) ∷ jar) = let rest = drop_key k jar in if text_eq k i then rest else (i, v) ∷ rest

pub find-drop_key :
    (j k : Text) (jar : Entries)
    → find j (drop_key k jar) ≡ (if text_eq j k then none else find j jar)
unfolding find drop_key
find-drop_key j k [] = ground arith
find-drop_key j k ((i, v) ∷ jar) =
    ground (arith, text_eq_iff j k, text_eq_iff k i, text_eq_iff j i, find-drop_key j k jar)

pub find-cons :
    (j k v : Text) (jar : Entries)
    → find j ((k, v) ∷ jar) ≡ (if text_eq j k then some v else find j jar)
unfolding find
find-cons j k v jar = refl

abbrev pub jar_of_entries : Cookies
jar_of_entries = record {
  Jar = Entries;
  get = find;
  set = λ k v jar. (k, v) ∷ jar;
  remove = drop_key;
  get-set = find-cons;
  get-remove = find-drop_key;
}
