-- ===== src/Layout/Navigation.antt =====
-- ui/src/components/layout/nav-group.tsx: `checkIsActive`.
use wgpanelne.Prelude.{
  ℕ, ◌≡◌, refl, Bool, true, false, not, ◌&&◌, ◌||◌, Option, none, some, List, [], ◌∷◌, ◌++◌, any,
  get_elem?, arith,
}
use wgpanelne.Js.Strings.{Text, text_eq, text_eq_refl, Lacks}
use wgpanelne.Js.Split.{split, first_part, split-append, first_part-append}

-- A link, or a group whose items have links; `none` is a field that is not there.
pub record NavItem : Type 0 where
  pub url : Option Text
  pub items : Option (List (Option Text))

-- `s === t` where each may be `undefined`.
abbrev pub same : Option Text → Option Text → Bool
same none none = true
same (some s) (some t) = text_eq s t
same _ _ = false

-- `!!item?.items?.filter((i) => i.url === href).length`
abbrev pub has_child : Text → Option (List (Option Text)) → Bool
has_child href none = false
has_child href (some items) = any (λ u. same u (some href)) items

-- `s.split('/')[1]`
abbrev pub segment : Text → Option Text
segment s = get_elem? (split s b'/') 1

-- `item?.url?.split('/')[1]`
abbrev pub segment_of : Option Text → Option Text
segment_of none = none
segment_of (some u) = segment u

unfoldable pub check_is_active : Text → NavItem → Bool → Bool
check_is_active href item main_nav =
    same (some href) item.url
    || same (some (first_part href b'?')) item.url
    || has_child href item.items
    || (main_nav
        && not (same (segment href) (some []))
        && same (segment href) (segment_of item.url))

-- The entry of a page is active on the page, whatever parameters the address has, in the main
-- navigation or not.
check_is_active_search :
    (u query : Text) (items : Option (List (Option Text))) (main_nav : Bool)
    → Lacks b'?' u
    → (check_is_active u (record { url = some u; items = items }) main_nav ≡ true)
      × (check_is_active (u ++ b'?' ∷ query) (record { url = some u; items = items }) main_nav
          ≡ true)
unfolding check_is_active
check_is_active_search u query items main_nav h = (
  ground (arith, text_eq_refl u),
  rw (first_part-append b'?' u query h) (ground (arith, text_eq_refl u)),
)

segment-path :
    (part rest : Text) → Lacks b'/' part → segment (b'/' ∷ part ++ b'/' ∷ rest) ≡ some part
unfolding split
segment-path part rest h = rw (split-append b'/' part rest h) refl

text_eq-nil : (c : ℕ) (s : Text) → text_eq (c ∷ s) [] ≡ false
unfolding text_eq
text_eq-nil c s = refl

-- An entry of the main navigation stays active on every page below its first segment.
check_is_active_below :
    (c : ℕ) (part rest other : Text) (items : Option (List (Option Text)))
    → Lacks b'/' (c ∷ part)
    → check_is_active
        (b'/' ∷ (c ∷ part) ++ b'/' ∷ rest)
        (record { url = some (b'/' ∷ (c ∷ part) ++ b'/' ∷ other); items = items })
        true
      ≡ true
unfolding check_is_active
check_is_active_below c part rest other items h =
    rw (segment-path (c ∷ part) rest h, segment-path (c ∷ part) other h)
      (ground (arith, text_eq_refl (c ∷ part), text_eq-nil c part))
