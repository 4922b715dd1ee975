-- ===== src/Forms/Select.antt =====
-- ui/src/features/peers/components/fields/interface-select.tsx: the choice of an interface.
use wgpanelne.Prelude.{
  ℕ, ◌≡◌, ◌≢◌, refl, ap, Bool, true, false, Option, none, some, List, [], ◌∷◌, if◌then◌else◌,
  Bool-cases, inl, inr, Among, first, later,
}
use wgpanelne.Js.Strings.{Text, codes, text_eq, text_eq_iff, text_eq_refl}
use wgpanelne.Js.Decimal.{to_string, is_digit}
use wgpanelne.Js.Decimal.Laws.{AllDigit, to_string-AllDigit, to_string-injective}
use wgpanelne.Forms.NewPeer.{InterfaceEntry}

-- An item of the list.
pub record SelectItem : Type 0 where
  pub value : Text
  pub label : Text
  pub disabled : Bool

abbrev pub notice : Text → Text → SelectItem
notice value label = record { value = value; label = label; disabled = true }

abbrev pub item_of : InterfaceEntry → SelectItem
item_of o = record { value = to_string o.id; label = o.name; disabled = false }

abbrev pub interface_items : List InterfaceEntry → List SelectItem
interface_items [] = []
interface_items (o ∷ os) = item_of o ∷ interface_items os

-- The items that are drawn: a notice while the list is loading, after an error and when it is
-- empty, and one for each interface otherwise.
unfoldable pub select_items : Bool → Bool → List InterfaceEntry → List SelectItem
select_items is_loading error options =
    if is_loading
    then notice (codes "loading") (codes "Loading...") ∷ []
    else if error
    then notice (codes "error") (codes "Error loading interfaces") ∷ []
    else elim options [
      | [] ↦ notice (codes "empty") (codes "No interfaces available") ∷ []
      | o ∷ os ↦ interface_items (o ∷ os)
    ]

-- `options.find((opt) => opt.id.toString() === selectedId)`
unfoldable pub find_option : Text → List InterfaceEntry → Option InterfaceEntry
find_option selected_id [] = none
find_option selected_id (o ∷ os) =
    let rest = find_option selected_id os in
    if text_eq (to_string o.id) selected_id then some o else rest

abbrev pub chosen_id : Option ℕ → Option InterfaceEntry → Option ℕ
chosen_id value none = value
chosen_id value (some selected) = some selected.id

-- The value of the field after `onValueChange(selectedId)`.
unfoldable pub on_value_change : List InterfaceEntry → Text → Option ℕ → Option ℕ
on_value_change options selected_id value = chosen_id value (find_option selected_id options)

-- `field.value?.toString()`
abbrev pub select_value : Option ℕ → Option Text
select_value none = none
select_value (some n) = some (to_string n)

-- What is found has the text that was looked for, and is in the list.
pub data IsFound (selected_id : Text) (options : List InterfaceEntry)
    : Option InterfaceEntry → Type 0 where
  missing : IsFound selected_id options none
  found :
      (o : InterfaceEntry)
      → Among o options
      → to_string o.id ≡ selected_id
      → IsFound selected_id options (some o)

widen :
    (selected_id : Text) (o : InterfaceEntry) (os : List InterfaceEntry) (r : Option InterfaceEntry)
    → IsFound selected_id os r
    → IsFound selected_id (o ∷ os) r
widen selected_id o os _ missing = missing
widen selected_id o os _ (found p i e) = found p (later o i) e

pub find_option-IsFound :
    (selected_id : Text) (os : List InterfaceEntry)
    → IsFound selected_id os (find_option selected_id os)
unfolding find_option
find_option-IsFound selected_id [] = missing
find_option-IsFound selected_id (o ∷ os) =
    elim (Bool-cases (text_eq (to_string o.id) selected_id)) [
      | inl same ↦ rw same (found o (first os) ((text_eq_iff (to_string o.id) selected_id).0 same))
      | inr other ↦
          rw other (
            widen selected_id o os (find_option selected_id os)
              (find_option-IsFound selected_id os))
    ]

-- The identifier that a choice of a listed interface's text leaves in the field.
pub on_value_change-to_string :
    (os : List InterfaceEntry) (o : InterfaceEntry) (value : Option ℕ)
    → Among o os
    → on_value_change os (to_string o.id) value ≡ some o.id
unfolding on_value_change find_option
on_value_change-to_string [] o value i = elim i [ ]
on_value_change-to_string (o ∷ os) _ value (first _) = rw (text_eq_refl (to_string o.id)) refl
on_value_change-to_string (p ∷ os) o value (later _ i) =
    elim (Bool-cases (text_eq (to_string p.id) (to_string o.id))) [
      | inl same ↦ rw same (
          ap some (
            to_string-injective p.id o.id ((text_eq_iff (to_string p.id) (to_string o.id)).0 same)))
      | inr other ↦ rw other (on_value_change-to_string os o value i)
    ]

-- A text that is not all digits is no interface's.
pub on_value_change-text :
    (os : List InterfaceEntry) (t : Text) (value : Option ℕ)
    → ((n : ℕ) → to_string n ≢ t)
    → on_value_change os t value ≡ value
unfolding on_value_change find_option
on_value_change-text [] t value h = refl
on_value_change-text (o ∷ os) t value h = elim (Bool-cases (text_eq (to_string o.id) t)) [
  | inl same ↦ absurd (h o.id ((text_eq_iff (to_string o.id) t).0 same))
  | inr other ↦ rw other (on_value_change-text os t value h)
]

letter-ne-to_string : (c : ℕ) (t : Text) → is_digit c ≡ false → (n : ℕ) → to_string n ≢ c ∷ t
letter-ne-to_string c t h n e = go (to_string n) (to_string-AllDigit n) e
  where
    go : (s : Text) → AllDigit s → s ≢ c ∷ t
    go [] _ = cc
    go (d ∷ s) (hd, _) = cc

-- What a choice of an item does: an item that is enabled is the item of an interface of the list,
-- whose identifier it leaves in the field, and a notice changes nothing.
pub data Chooses (options : List InterfaceEntry) (value : Option ℕ) : SelectItem → Type 0 where
  chooses :
      (o : InterfaceEntry)
      → Among o options
      → on_value_change options (to_string o.id) value ≡ some o.id
      → Chooses options value (item_of o)
  ignores :
      (t label : Text)
      → on_value_change options t value ≡ value
      → Chooses options value (notice t label)

notice-Chooses :
    (os : List InterfaceEntry) (value : Option ℕ) (c : ℕ) (t label : Text) (item : SelectItem)
    → is_digit c ≡ false
    → Among item (notice (c ∷ t) label ∷ [])
    → Chooses os value item
notice-Chooses os value c t label item h (first _) =
    ignores (c ∷ t) label (on_value_change-text os (c ∷ t) value (letter-ne-to_string c t h))
notice-Chooses os value c t label item h (later _ i) = elim i [ ]

listed-Chooses :
    (all os : List InterfaceEntry) (value : Option ℕ) (item : SelectItem)
    → ((o : InterfaceEntry) → Among o os → Among o all)
    → Among item (interface_items os)
    → Chooses all value item
listed-Chooses all [] value item up i = elim i [ ]
listed-Chooses all (o ∷ os) value item up (first _) =
    chooses o (up o (first os)) (on_value_change-to_string all o value (up o (first os)))
listed-Chooses all (o ∷ os) value item up (later _ i) =
    listed-Chooses all os value item (λ p j. up p (later o j)) i

-- Whatever is drawn, a choice of one of the items leaves in the field the identifier of the
-- interface of the list whose item it is, also where several have one identifier; a choice of a
-- notice, which is an item of no interface, changes nothing.
pub select_items-Chooses :
    (is_loading error : Bool) (os : List InterfaceEntry) (value : Option ℕ) (item : SelectItem)
    → Among item (select_items is_loading error os)
    → Chooses os value item
unfolding select_items is_digit
select_items-Chooses true error os value item i =
    notice-Chooses os value b'l' (codes "oading") (codes "Loading...") item refl i
select_items-Chooses false true os value item i =
    notice-Chooses os value b'e' (codes "rror") (codes "Error loading interfaces") item refl i
select_items-Chooses false false [] value item i =
    notice-Chooses [] value b'e' (codes "mpty") (codes "No interfaces available") item refl i
select_items-Chooses false false (o ∷ os) value item i =
    listed-Chooses (o ∷ os) (o ∷ os) value item (λ p j. j) i
