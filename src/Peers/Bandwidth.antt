-- ===== src/Peers/Bandwidth.antt =====
-- ui/src/features/peers/components/fields/bandwidth-field.tsx: an amount and a unit that stand for
-- one text of the form.
pub mod Agreement
mod Tests
use wgpanelne.Prelude.{
  ℕ, ◌-◌, Bool, true, false, not, ◌&&◌, ◌||◌, Option, none, some, List, [], ◌∷◌, ◌++◌, ◌==◌, leb,
  if◌then◌else◌,
}
use wgpanelne.Js.Strings.{Text, codes, text_eq, truthy}
use wgpanelne.Js.Decimal.{is_digit}

pub data BandwidthUnit : Type 0 where
  kb mb gb : BandwidthUnit

-- `unit === 'Kb' ? 'K' : unit === 'Mb' ? 'M' : 'G'`
abbrev pub suffix : BandwidthUnit → ℕ
suffix kb = b'K'
suffix mb = b'M'
suffix gb = b'G'

unfoldable pub get_combined_value : Text → BandwidthUnit → Text
get_combined_value [] unit = []
get_combined_value (c ∷ val) unit = (c ∷ val) ++ suffix unit ∷ []

-- `c.toUpperCase()` on an ASCII character.
abbrev pub to_upper : ℕ → ℕ
to_upper c = if leb b'a' c && leb c b'z' then c - 32 else c

is_suffix : ℕ → Bool
is_suffix c = to_upper c == b'K' || to_upper c == b'M' || to_upper c == b'G'

-- `([KMG])$`, behind the amount that was read.
match_suffix : Text → Text → Option (Text × ℕ)
unfolding is_suffix
match_suffix amount (c ∷ []) = if is_suffix c then some (amount, c) else none
match_suffix amount _ = none

-- `\d*` behind the amount that was read, then `rest` on what follows.
match_digits : (Text → Text → Option (Text × ℕ)) → Text → Text → Option (Text × ℕ)
match_digits rest amount [] = rest amount []
match_digits rest amount (c ∷ s) =
    let more = match_digits rest (amount ++ c ∷ []) s in
    let stop = rest amount (c ∷ s) in if is_digit c then more else stop

-- `\d+`
match_number : (Text → Text → Option (Text × ℕ)) → Text → Text → Option (Text × ℕ)
unfolding match_digits is_digit
match_number rest amount [] = none
match_number rest amount (c ∷ s) =
    if is_digit c then match_digits rest (amount ++ c ∷ []) s else none

-- `(?:\.\d+)?`
match_fraction : Text → Text → Option (Text × ℕ)
unfolding match_number match_suffix
match_fraction amount [] = none
match_fraction amount (c ∷ s) =
    if c == b'.'
    then match_number match_suffix (amount ++ c ∷ []) s
    else match_suffix amount (c ∷ s)

-- `value.match(/^(\d+(?:\.\d+)?)([KMG])$/i)`: the two groups. Where a digit can be taken nothing
-- else fits, so the longest run is the only one to try.
unfoldable pub match_bandwidth : Text → Option (Text × ℕ)
unfolding match_number match_fraction
match_bandwidth s = match_number match_fraction [] s

-- `unitMap[c.toUpperCase()] ?? 'Mb'`
abbrev pub unit_of : ℕ → BandwidthUnit
unit_of c =
    if to_upper c == b'K'
    then kb
    else if to_upper c == b'M'
    then mb
    else if to_upper c == b'G'
    then gb
    else mb

-- What is shown, and the value of the form's field, where `null` and `undefined` are `none`.
pub record BandwidthField : Type 0 where
  pub raw_value : Text
  pub unit : BandwidthUnit
  pub value : Option Text

abbrev pub initial : BandwidthField
initial = record { raw_value = []; unit = mb; value = none }

show_match : Option (Text × ℕ) → BandwidthField → BandwidthField
show_match none s = s
show_match (some (amount, c)) s = record s { raw_value = amount; unit = unit_of c }

show_value : Option Text → BandwidthField → BandwidthField
unfolding show_match
show_value none s = s
show_value (some v) s = if truthy v then show_match (match_bandwidth v) s else s

-- The effect on `field.value`.
unfoldable pub show_field : BandwidthField → BandwidthField
unfolding show_value
show_field s = show_value s.value s

-- `onChange` of the input, of the select, of the button that clears; each is followed by the
-- effect. `load` is a value that the form sets, as it does when a peer is edited.
pub data Event : Type 0 where
  type_text : Text → Event
  choose_unit : BandwidthUnit → Event
  clear : Event
  load : Text → Event

abbrev typed_value : Text → BandwidthUnit → Option Text
typed_value val unit = if truthy val then some (get_combined_value val unit) else none

changed : Event → BandwidthField → BandwidthField
changed (type_text val) s = record s { raw_value = val; value = typed_value val s.unit }
changed (choose_unit unit) s = record s {
  unit = unit;
  value = some (get_combined_value s.raw_value unit);
}
changed clear s = record s { raw_value = []; value = none }
changed (load v) s = record s { value = some v }

unfoldable pub step : Event → BandwidthField → BandwidthField
unfolding show_field changed
step e s = show_field (changed e s)

unfoldable pub steps : List Event → BandwidthField → BandwidthField
unfolding step
steps [] s = s
steps (e ∷ es) s = steps es (step e s)
