-- ===== src/Appearance.antt =====
-- ui/src/context/theme-context.tsx: the theme, where it is stored, and the classes of the page. The
-- classes of an element are a list without repetition, as the DOM's class list. `prefers_dark` is
-- the media query `(prefers-color-scheme: dark)`.
pub mod Shown
pub mod Fonts
pub mod OneFont
pub mod Passes
pub mod FontShown
pub mod Preferences
mod Tests
use wgpanelne.Prelude.{Bool, true, false, Option, none, some, List, [], ◌∷◌, if◌then◌else◌}
use wgpanelne.Js.Strings.{Text, codes, text_eq}
use wgpanelne.Tables.Filters.{add, remove}

pub record ThemeState : Type 0 where
  pub theme : Text
  pub stored : Option Text
  pub prefers_dark : Bool
  pub classes : List Text

-- `localStorage.getItem(storageKey) || defaultTheme`
abbrev pub stored_or : Option Text → Text → Text
stored_or none default = default
stored_or (some []) default = default
stored_or (some (c ∷ t)) default = c ∷ t

abbrev pub system_theme : Bool → Text
system_theme true = codes "dark"
system_theme false = codes "light"

abbrev pub effective_theme : Text → Bool → Text
effective_theme theme prefers_dark =
    if text_eq theme (codes "system") then system_theme prefers_dark else theme

unfoldable pub apply_theme : Text → ThemeState → ThemeState
apply_theme theme s = record s {
  classes =
      add (effective_theme theme s.prefers_dark)
        (remove (codes "dark") (remove (codes "light") s.classes));
}

-- The first render, and the effect after it.
unfoldable pub start : Text → Option Text → Bool → List Text → ThemeState
unfolding apply_theme
start default stored prefers_dark classes = apply_theme (stored_or stored default) (record {
  theme = stored_or stored default;
  stored = stored;
  prefers_dark = prefers_dark;
  classes = classes;
})

-- `setTheme`, and the effect on `theme` if it is another one.
unfoldable pub set_theme : Text → ThemeState → ThemeState
unfolding apply_theme
set_theme theme s =
    if text_eq s.theme theme
    then record s { stored = some theme; theme = theme }
    else apply_theme theme (record s { stored = some theme; theme = theme })

-- `handleChange`, when the system's preference changes.
unfoldable pub handle_change : Bool → ThemeState → ThemeState
unfolding apply_theme
handle_change prefers_dark s =
    if text_eq s.theme (codes "system")
    then apply_theme (codes "system") (record s { prefers_dark = prefers_dark })
    else record s { prefers_dark = prefers_dark }

pub data Event : Type 0 where
  choose : Text → Event
  prefer_dark : Bool → Event

unfoldable pub run : List Event → ThemeState → ThemeState
run [] s = s
run (choose t ∷ es) s = run es (set_theme t s)
run (prefer_dark b ∷ es) s = run es (handle_change b s)
