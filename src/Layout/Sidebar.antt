-- ===== src/Layout/Sidebar.antt =====
-- ui/src/components/layout: the sidebar (data/sidebar-data.ts, nav-group.tsx, app-sidebar.tsx), and
-- the other places that link to a page: ui/src/components/command-menu.tsx, profile-dropdown.tsx,
-- nav-user.tsx, and ui/src/features/settings. The addresses that the router knows are those of
-- `FileRoutesByTo` in ui/src/routeTree.gen.ts.
use wgpanelne.Prelude.{
  ◌++◌, ◌&&◌, Bool, true, false, not, none, some, List, [], ◌∷◌, if◌then◌else◌, map,
}
use wgpanelne.Js.Strings.{Text, codes}
use wgpanelne.Layout.Navigation.{NavItem, check_is_active}

abbrev file_routes_by_to : List Text
file_routes_by_to =
    codes "/share"
    ∷ codes "/forgot-password"
    ∷ codes "/otp"
    ∷ codes "/sign-in"
    ∷ codes "/401"
    ∷ codes "/403"
    ∷ codes "/404"
    ∷ codes "/500"
    ∷ codes "/503"
    ∷ codes "/"
    ∷ codes "/settings/account"
    ∷ codes "/settings/appearance"
    ∷ codes "/help-center"
    ∷ codes "/interfaces"
    ∷ codes "/peers"
    ∷ codes "/pools"
    ∷ codes "/servers"
    ∷ codes "/settings"
    ∷ []

pub record NavLink : Type 0 where
  pub title : Text
  pub url : Text

pub data Item : Type 0 where
  nav_link : NavLink → Item
  nav_collapsible : Text → List NavLink → Item

pub record Group : Type 0 where
  pub title : Text
  pub items : List Item

abbrev pub entry : Text → Text → NavLink
entry title url = record { title = title; url = url }

abbrev pub sidebar_data : List Group
sidebar_data =
    record {
      title = codes "General";
      items =
          nav_link (entry (codes "Dashboard") (codes "/"))
          ∷ nav_link (entry (codes "Servers") (codes "/servers"))
          ∷ nav_link (entry (codes "Interfaces") (codes "/interfaces"))
          ∷ nav_link (entry (codes "Pools") (codes "/pools"))
          ∷ nav_link (entry (codes "Peers") (codes "/peers"))
          ∷ [];
    }
    ∷ record {
      title = codes "Other";
      items =
          nav_collapsible (codes "Settings") (
            entry (codes "Account") (codes "/settings/account")
            ∷ entry (codes "Appearance") (codes "/settings/appearance")
            ∷ [])
          ∷ nav_link (entry (codes "Help Center") (codes "/help-center"))
          ∷ [];
    }
    ∷ []

-- What `checkIsActive` reads of an item.
abbrev pub of_link : NavLink → NavItem
of_link l = record { url = some l.url; items = none }

abbrev pub of_collapsible : List NavLink → NavItem
of_collapsible ls = record { url = none; items = some (map (λ l. some l.url) ls) }

-- A link on the screen, and whether it is shown as active.
pub record Shown : Type 0 where
  pub url : Text
  pub is_active : Bool

pub data Entry : Type 0 where
  menu_link : Shown → Entry
  dropdown : Bool → List Shown → Entry
  collapsible : Bool → List Shown → Entry

abbrev pub shown_link : Text → NavLink → Shown
shown_link href l = record { url = l.url; is_active = check_is_active href (of_link l) false }

-- `collapsed` is `state === 'collapsed'`; the flags of `dropdown` and `collapsible` are `isActive` and
-- `defaultOpen`.
unfoldable pub nav_item : Bool → Bool → Text → Item → Entry
nav_item collapsed is_mobile href (nav_link l) = menu_link (shown_link href l)
nav_item collapsed is_mobile href (nav_collapsible title ls) =
    if collapsed && not is_mobile
    then dropdown (check_is_active href (of_collapsible ls) false) (map (shown_link href) ls)
    else collapsible (check_is_active href (of_collapsible ls) true) (map (shown_link href) ls)

abbrev pub nav_group : Bool → Bool → Text → Group → List Entry
nav_group collapsed is_mobile href g = map (nav_item collapsed is_mobile href) g.items

unfoldable pub nav_groups : Bool → Bool → Text → List Group → List Entry
nav_groups collapsed is_mobile href [] = []
nav_groups collapsed is_mobile href (g ∷ gs) =
    nav_group collapsed is_mobile href g ++ nav_groups collapsed is_mobile href gs

abbrev pub app_sidebar : Bool → Bool → Text → List Entry
app_sidebar collapsed is_mobile href = nav_groups collapsed is_mobile href sidebar_data

-- The command menu: every entry closes the menu and then runs its command.
pub data Command : Type 0 where
  navigate : Text → Command
  set_theme : Text → Command

unfoldable pub item_commands : Item → List Command
item_commands (nav_link l) = navigate l.url ∷ []
item_commands (nav_collapsible title ls) = map (λ l. navigate l.url) ls

unfoldable pub group_commands : List Item → List Command
group_commands [] = []
group_commands (i ∷ is) = item_commands i ++ group_commands is

unfoldable pub nav_commands : List Group → List Command
nav_commands [] = []
nav_commands (g ∷ gs) = group_commands g.items ++ nav_commands gs

abbrev pub command_menu : List Command
command_menu =
    nav_commands sidebar_data
    ++ set_theme (codes "light") ∷ set_theme (codes "dark") ∷ set_theme (codes "system") ∷ []

-- `sidebarNavItems` of the settings.
abbrev sidebar_nav_items : List NavLink
sidebar_nav_items =
    entry (codes "Account") (codes "/settings/account")
    ∷ entry (codes "Appearance") (codes "/settings/appearance")
    ∷ []

-- The entries of the menu of the profile, and where its last one navigates to.
abbrev profile_dropdown : List Text
profile_dropdown = codes "/settings/account" ∷ codes "/settings/appearance" ∷ codes "/sign-in" ∷ []
