-- ===== src/Tables/Filters.antt =====
-- `filterFn` of the columns of statuses in ui/src/features/servers/components/servers-columns.tsx,
-- ui/src/features/interfaces/components/interfaces-columns.tsx and
-- ui/src/features/peers/components/peers-columns.tsx, three times the same code, and the menu of
-- ui/src/features/shared-components/table/data-table-faceted-filter.tsx that sets the filter.
use wgpanelne.Prelude.{
  Bool, true, false, not, Option, none, some, List, [], ◌∷◌, ◌++◌, any, filter, if◌then◌else◌,
}
use wgpanelne.Js.Strings.{Text, text_eq, includes}

-- What `row.getValue(columnId)` can be: a text, a list of texts, or `undefined`.
pub data Cell : Type 0 where
  text : Text → Cell
  texts : List Text → Cell
  undefined : Cell

abbrev pub has : Text → List Text → Bool
has x = any (λ y. text_eq x y)

-- `cellValue.includes(val)`: of a text, whether `val` is a part of it; of a list, whether `val` is
-- a member. `none` is the `TypeError` on `undefined`.
unfoldable pub includes_value : Cell → Text → Option Bool
includes_value (text t) val = some (includes t val)
includes_value (texts ts) val = some (has val ts)
includes_value undefined val = none

abbrev pub first_true : Option Bool → Option Bool → Option Bool
first_true none rest = none
first_true (some true) rest = some true
first_true (some false) rest = rest

unfoldable pub filter_fn : Cell → List Text → Option Bool
unfolding includes_value
filter_fn cell_value [] = some false
filter_fn cell_value (val ∷ filter_value) =
    let rest = filter_fn cell_value filter_value in first_true (includes_value cell_value val) rest

-- `new Set(...)` in the order of insertion, without the values that are there already.
abbrev pub add : Text → List Text → List Text
add x s = if has x s then s else s ++ x ∷ []

abbrev pub remove : Text → List Text → List Text
remove x = filter (λ y. not (text_eq x y))

-- `onSelect` of an option: the selected values after it.
unfoldable pub on_select : Text → List Text → List Text
on_select option selected_values =
    if has option selected_values then remove option selected_values else add option selected_values

-- The value that the column's filter is set to; `none` is `undefined`, no filter.
unfoldable pub set_filter_value : List Text → Option (List Text)
set_filter_value [] = none
set_filter_value (x ∷ xs) = some (x ∷ xs)
