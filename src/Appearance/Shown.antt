-- ===== src/Appearance/Shown.antt =====
-- The page shows the theme that was chosen.
use wgpanelne.Prelude.{
  ◌≡◌, refl, ap, ◌∙◌, Bool, true, false, ◌||◌, Option, some, List, [], ◌∷◌, if◌then◌else◌, arith,
}
use mathlib.Core.Path.{subst}
use wgpanelne.Js.Strings.{Text, codes, text_eq, text_eq_refl, text_eq_iff}
use wgpanelne.Tables.Filters.{has, add, remove}
use wgpanelne.Tables.Selecting.{has-append, has-remove}
use wgpanelne.Appearance.{
  ThemeState, stored_or, effective_theme, apply_theme, start, set_theme, handle_change, Event,
  choose, prefer_dark, run,
}

has-add : (x t : Text) (s : List Text) → has x (add t s) ≡ (text_eq x t || has x s)
has-add x t s = ground (arith, has-append x s (t ∷ []), has_same x t s)
  where
    has_same : (x t : Text) (s : List Text) → text_eq x t ≡ true → has x s ≡ has t s
    has_same x t s h = ap (λ y. has y s) ((text_eq_iff x t).0 h)

-- The classes `dark` and `light` are there exactly for the effective theme.
abbrev pub Shows : ThemeState → Type 0
Shows s =
    (has (codes "dark") s.classes ≡ text_eq (codes "dark") (effective_theme s.theme s.prefers_dark))
    × (has (codes "light") s.classes
        ≡ text_eq (codes "light") (effective_theme s.theme s.prefers_dark))

dark_after :
    (t : Text) (cs : List Text)
    → has (codes "dark") (add t (remove (codes "dark") (remove (codes "light") cs)))
      ≡ text_eq (codes "dark") t
dark_after t cs = ground (
  arith,
  has-add (codes "dark") t (remove (codes "dark") (remove (codes "light") cs)),
  has-remove (codes "dark") (codes "dark") (remove (codes "light") cs),
  text_eq_refl (codes "dark"),
)

light_after :
    (t : Text) (cs : List Text)
    → has (codes "light") (add t (remove (codes "dark") (remove (codes "light") cs)))
      ≡ text_eq (codes "light") t
light_after t cs = ground (
  arith,
  has-add (codes "light") t (remove (codes "dark") (remove (codes "light") cs)),
  has-remove (codes "light") (codes "dark") (remove (codes "light") cs),
  has-remove (codes "light") (codes "light") cs,
  text_eq_refl (codes "light"),
)

apply_theme-Shows : (s : ThemeState) → Shows (apply_theme s.theme s)
unfolding apply_theme
apply_theme-Shows s = (
  dark_after (effective_theme s.theme s.prefers_dark) s.classes,
  light_after (effective_theme s.theme s.prefers_dark) s.classes,
)

either-Shows :
    (b : Bool) (s t : ThemeState)
    → (b ≡ true → Shows s)
    → (b ≡ false → Shows t)
    → Shows (if b then s else t)
either-Shows true s t p q = p refl
either-Shows false s t p q = q refl

set_theme-Shows : (t : Text) (s : ThemeState) → Shows s → Shows (set_theme t s)
unfolding set_theme
set_theme-Shows t s h =
    either-Shows (text_eq s.theme t) (record s { stored = some t; theme = t }) _
      (λ same.
        subst (λ u. Shows (record s { stored = some t; theme = u }))
          ((text_eq_iff s.theme t).0 same) h)
      (λ other. apply_theme-Shows (record s { stored = some t; theme = t }))

effective_theme-other :
    (t : Text) (b c : Bool)
    → text_eq t (codes "system") ≡ false
    → effective_theme t b ≡ effective_theme t c
effective_theme-other t b c h = rw h refl

handle_change-Shows : (b : Bool) (s : ThemeState) → Shows s → Shows (handle_change b s)
unfolding handle_change
handle_change-Shows b s (d, l) =
    either-Shows (text_eq s.theme (codes "system")) _ (record s { prefers_dark = b })
      (λ e.
        subst (λ u. Shows (apply_theme u (record s { prefers_dark = b })))
          ((text_eq_iff s.theme (codes "system")).0 e)
          (apply_theme-Shows (record s { prefers_dark = b })))
      (λ other.
        let same = effective_theme-other s.theme s.prefers_dark b other in
        (d ∙ ap (text_eq (codes "dark")) same, l ∙ ap (text_eq (codes "light")) same))

run-Shows_from : (es : List Event) (s : ThemeState) → Shows s → Shows (run es s)
unfolding run
run-Shows_from [] s h = h
run-Shows_from (choose t ∷ es) s h = run-Shows_from es (set_theme t s) (set_theme-Shows t s h)
run-Shows_from (prefer_dark b ∷ es) s h =
    run-Shows_from es (handle_change b s) (handle_change-Shows b s h)

-- From the first render on, whatever classes the page had and whatever theme was stored, after any
-- choices of themes and changes of the system's preference the page has the class `dark` exactly
-- if the effective theme is dark, and the class `light` exactly if it is light.
pub run-Shows :
    (default : Text) (stored : Option Text) (prefers_dark : Bool) (classes : List Text)
    (es : List Event)
    → Shows (run es (start default stored prefers_dark classes))
unfolding start
run-Shows default stored prefers_dark classes es =
    run-Shows_from es (start default stored prefers_dark classes) (
      apply_theme-Shows (record {
        theme = stored_or stored default;
        stored = stored;
        prefers_dark = prefers_dark;
        classes = classes;
      }))
