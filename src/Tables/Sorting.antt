-- ===== src/Tables/Sorting.antt =====
-- ui/src/features/peers/components/peers-columns.tsx: `sortingFn` of the column of addresses.
use wgpanelne.Prelude.{
  ℕ, Bool, true, false, not, ◌&&◌, Option, none, some, List, [], ◌∷◌, ◌==◌, get_elem?,
  if◌then◌else◌,
}
use wgpanelne.Prelude.Int.{ℤ, pos, ◌-ℤ◌, pos_part, neg_part}
use wgpanelne.Js.Strings.{Text}
use wgpanelne.Js.Split.{split, first_part}
use wgpanelne.Js.Decimal.{parse_int}

-- A number of JavaScript that came from `parseInt`: `none` is `NaN`.
abbrev pub Number : Type 0
Number = Option ℤ

abbrev pub numbers : List Text → List Number
numbers [] = []
numbers (t ∷ ts) = parse_int t ∷ numbers ts

unfoldable pub get_ip_parts : Text → List Number
get_ip_parts ip = numbers (split (first_part ip b'/') b'.')

abbrev pub eq_ℤ : ℤ → ℤ → Bool
eq_ℤ a b = (pos_part a == pos_part b) && (neg_part a == neg_part b)

-- `x !== y`, where `none` is `undefined`; `NaN` differs from all, itself included.
unfoldable pub differs : Option Number → Option Number → Bool
differs none none = false
differs (some (some a)) (some (some b)) = not (eq_ℤ a b)
differs _ _ = true

-- `x - y`
unfoldable pub minus : Option Number → Option Number → Number
minus (some (some a)) (some (some b)) = some (a -ℤ b)
minus _ _ = none

-- The loop over the indices that are left.
unfoldable pub compare_at : List ℕ → List Number → List Number → Number
unfolding differs minus
compare_at [] ps qs = some (pos 0)
compare_at (i ∷ is) ps qs =
    let rest = compare_at is ps qs in
    let p = get_elem? ps i in let q = get_elem? qs i in if differs p q then minus p q else rest

unfoldable pub compare_ips : Text → Text → Number
unfolding compare_at get_ip_parts
compare_ips a b = compare_at (0 ∷ 1 ∷ 2 ∷ 3 ∷ []) (get_ip_parts a) (get_ip_parts b)
