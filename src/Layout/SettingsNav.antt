-- ===== src/Layout/SettingsNav.antt =====
-- ui/src/features/settings/components/sidebar-nav.tsx: the navigation of the settings.
use wgpanelne.Prelude.{◌≡◌, refl, Bool, List, [], ◌∷◌}
use wgpanelne.Js.Strings.{Text, text_eq}
use wgpanelne.Layout.Sidebar.{NavLink}

-- The value of the select of narrow screens, the address, and where the router was sent.
pub record SettingsNav : Type 0 where
  pub val : Text
  pub pathname : Text
  pub navigated : List Text

-- `useState(pathname ?? '/settings')`
abbrev pub mounted : Text → SettingsNav
mounted pathname = record { val = pathname; pathname = pathname; navigated = [] }

pub data NavEvent : Type 0 where
  select_entry : Text → NavEvent
  follow_link : Text → NavEvent

-- The select sets its value and navigates; a link of wide screens, or any other navigation, changes
-- the address alone.
unfoldable pub nav_step : NavEvent → SettingsNav → SettingsNav
nav_step (select_entry e) s = record { val = e; pathname = e; navigated = e ∷ s.navigated }
nav_step (follow_link href) s = record s { pathname = href; navigated = href ∷ s.navigated }

unfoldable pub nav_steps : List NavEvent → SettingsNav → SettingsNav
nav_steps [] s = s
nav_steps (e ∷ es) s = nav_steps es (nav_step e s)

-- The links, and which of them is drawn as the page that is open.
unfoldable pub nav_links : List NavLink → Text → List (Text × Bool)
nav_links [] pathname = []
nav_links (item ∷ items) pathname = (item.url, text_eq pathname item.url) ∷ nav_links items pathname

abbrev IsSelect : NavEvent → Type 0
IsSelect (select_entry e) = Unit
IsSelect (follow_link href) = ⊥

abbrev AllSelect : List NavEvent → Type 0
AllSelect [] = Unit
AllSelect (e ∷ es) = IsSelect e × AllSelect es

-- As long as only the select is used, it shows the page that is open.
nav_steps-val :
    (es : List NavEvent) (s : SettingsNav)
    → AllSelect es
    → s.val ≡ s.pathname
    → (nav_steps es s).val ≡ (nav_steps es s).pathname
unfolding nav_steps nav_step
nav_steps-val [] s _ h = h
nav_steps-val (select_entry e ∷ es) s (_, hs) h =
    nav_steps-val es (record { val = e; pathname = e; navigated = e ∷ s.navigated }) hs refl
nav_steps-val (follow_link href ∷ es) s (never, hs) h = absurd never
