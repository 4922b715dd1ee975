-- ===== src/Tables/Facets.antt =====
-- ui/src/features/shared-components/table/data-table-faceted-filter.tsx: the button of a filter, and
-- the items of its menu.
use wgpanelne.Prelude.{
  ℕ, ◌≡◌, refl, Bool, not, ◌||◌, ◌&&◌, Option, none, some, List, [], ◌∷◌, ◌++◌, if◌then◌else◌,
  length, ◌==◌, ltb, arith, filter-true, filter-false, ap, ◌∙◌, Bool-cases, inl, inr,
}
use wgpanelne.Js.Strings.{Text, codes, text_eq, text_eq_iff}
use wgpanelne.Js.Decimal.{to_string}
use wgpanelne.Tables.Filters.{has, remove, on_select, set_filter_value}

-- The label and the value of an option.
abbrev pub FilterOption : Type 0
FilterOption = Text × Text

-- `new Set(column?.getFilterValue())`
abbrev pub selected_values : Option (List Text) → List Text
selected_values none = []
selected_values (some l) = l

-- The labels of the options that are selected.
unfoldable pub selected_labels : List FilterOption → List Text → List Text
selected_labels [] selected = []
selected_labels ((label, value) ∷ options) selected =
    let rest = selected_labels options selected in if has value selected then label ∷ rest else rest

-- The badges of the button on a wide screen, and on a narrow one.
unfoldable pub wide_badges : List FilterOption → List Text → List Text
wide_badges options selected =
    if length selected == 0
    then []
    else if ltb 2 (length selected)
    then (to_string (length selected) ++ codes " selected") ∷ []
    else selected_labels options selected

unfoldable pub narrow_badges : List Text → List Text
narrow_badges selected = if length selected == 0 then [] else to_string (length selected) ∷ []

-- An item of the menu: its label, whether it is ticked, and how many rows have its value, where the
-- count of the table is not 0.
pub record FacetItem : Type 0 where
  pub label : Text
  pub is_selected : Bool
  pub facet : Option ℕ

abbrev pub nonzero : Option ℕ → Option ℕ
nonzero none = none
nonzero (some n) = if n == 0 then none else some n

unfoldable pub facet_items : (Text → Option ℕ) → List FilterOption → List Text → List FacetItem
facet_items facets [] selected = []
facet_items facets ((label, value) ∷ options) selected =
    record { label = label; is_selected = has value selected; facet = nonzero (facets value) }
    ∷ facet_items facets options selected

-- An option is clicked, or `Clear filters`, which is drawn while something is selected.
pub data FacetEvent : Type 0 where
  select_option : Text → FacetEvent
  clear_filters : FacetEvent

unfoldable pub facet_step : FacetEvent → Option (List Text) → Option (List Text)
unfolding on_select set_filter_value
facet_step (select_option v) filter_value =
    set_filter_value (on_select v (selected_values filter_value))
facet_step clear_filters filter_value = none

values-set_filter_value : (l : List Text) → selected_values (set_filter_value l) ≡ l
unfolding set_filter_value
values-set_filter_value [] = refl
values-set_filter_value (x ∷ xs) = refl

has-append : (x v : Text) (l : List Text) → has x (l ++ v ∷ []) ≡ (has x l || text_eq x v)
has-append x v [] = ground arith
has-append x v (y ∷ l) = ground (arith, has-append x v l)

has-remove : (x v : Text) (l : List Text) → has x (remove v l) ≡ (has x l && not (text_eq x v))
has-remove x v [] = refl
has-remove x v (y ∷ l) = elim (Bool-cases (text_eq v y)) [
  | inl same ↦
      ap (has x) (filter-false (λ z. not (text_eq v z)) y l (rw same refl))
      ∙ ground (arith, has-remove x v l, text_eq_iff x y, text_eq_iff x v, text_eq_iff v y, same)
  | inr other ↦
      ap (has x) (filter-true (λ z. not (text_eq v z)) y l (rw other refl))
      ∙ ground (arith, has-remove x v l, text_eq_iff x y, text_eq_iff x v, text_eq_iff v y, other)
]

-- A click turns the tick of its own option and leaves the others.
facet_step-has :
    (x v : Text) (f : Option (List Text))
    → has x (selected_values (facet_step (select_option v) f))
      ≡ (if text_eq x v then not (has v (selected_values f)) else has x (selected_values f))
unfolding facet_step on_select
facet_step-has x v f =
    rw (values-set_filter_value (on_select v (selected_values f))) (go (selected_values f))
  where
    go : (l : List Text) → has x (on_select v l) ≡ (if text_eq x v then not (has v l) else has x l)
    go l = ground (arith, has-append x v l, has-remove x v l, text_eq_iff x v)
