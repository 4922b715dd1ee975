-- ===== src/Tables/Selecting.antt =====
-- What choosing an option does to the selection, and which rows the filter lets through.
use wgpanelne.Prelude.{
  ◌≡◌, refl, ap, ◌∙◌, Bool, true, false, not, ◌||◌, some, List, [], ◌∷◌, ◌++◌, any, if◌then◌else◌,
  Bool-cases, arith, inl, inr,
}
use wgpanelne.Js.Strings.{Text, text_eq, text_eq_refl, text_eq_iff}
use wgpanelne.Tables.Filters.{texts, has, filter_fn, remove, on_select}

pub has-append : (x : Text) (s t : List Text) → has x (s ++ t) ≡ (has x s || has x t)
has-append x [] t = refl
has-append x (y ∷ s) t = ground (arith, has-append x s t)

pub has-remove :
    (x o : Text) (s : List Text) → has x (remove o s) ≡ (if text_eq x o then false else has x s)
has-remove x o [] = ground arith
has-remove x o (y ∷ s) =
    ground (arith, has-remove x o s, text_eq_iff x o, text_eq_iff o y, text_eq_iff x y)

has_same : (x o : Text) (s : List Text) → text_eq x o ≡ true → has x s ≡ has o s
has_same x o s h = ap (λ y. has y s) ((text_eq_iff x o).0 h)

on_select-has :
    (x o : Text) (s : List Text)
    → has x (on_select o s) ≡ (if text_eq x o then not (has o s) else has x s)
unfolding on_select
on_select-has x o s = ground (arith, has-remove x o s, has-append x s (o ∷ []), has_same x o s)

-- Choosing an option in the menu turns this option on or off and leaves the others as they are,
-- and choosing it again restores every option.
on_select_toggles :
    (x o : Text) (s : List Text)
    → (has x (on_select o s) ≡ (if text_eq x o then not (has o s) else has x s))
      × (has x (on_select o (on_select o s)) ≡ has x s)
on_select_toggles x o s = (
  on_select-has x o s,
  ground (
    arith,
    on_select-has x o (on_select o s),
    on_select-has x o s,
    on_select-has o o s,
    text_eq_refl o,
    has_same x o s,
  ),
)

-- The members of the filter that the row has.
shares : List Text → List Text → Bool
shares ts vals = any (λ v. has v ts) vals

filter_fn-shares : (ts vals : List Text) → filter_fn (texts ts) vals ≡ some (shares ts vals)
unfolding filter_fn shares
filter_fn-shares ts [] = refl
filter_fn-shares ts (v ∷ vals) = elim (Bool-cases (has v ts)) [
  | inl h ↦ rw h refl
  | inr h ↦ rw h (filter_fn-shares ts vals)
]

shares-nil : (vals : List Text) → shares [] vals ≡ false
unfolding shares
shares-nil [] = refl
shares-nil (v ∷ vals) = shares-nil vals

shares-cons :
    (t : Text) (ts vals : List Text) → shares (t ∷ ts) vals ≡ (has t vals || shares ts vals)
unfolding shares
shares-cons t ts [] = refl
shares-cons t ts (v ∷ vals) =
    ground (arith, shares-cons t ts vals, text_eq_iff t v, text_eq_iff v t)

shares-any : (ts vals : List Text) → shares ts vals ≡ any (λ t. has t vals) ts
shares-any [] vals = shares-nil vals
shares-any (t ∷ ts) vals = shares-cons t ts vals ∙ ap (λ b. has t vals || b) (shares-any ts vals)

-- A row whose statuses are a list is shown exactly when one of them is selected; the filter never
-- throws on such a row.
pub filter_fn_texts :
    (ts vals : List Text) → filter_fn (texts ts) vals ≡ some (any (λ t. has t vals) ts)
filter_fn_texts ts vals = filter_fn-shares ts vals ∙ ap some (shares-any ts vals)
