-- ===== src/Layout/Links.antt =====
-- The links of the panel, and which one the sidebar marks.
use wgpanelne.Prelude.{
  Among, first, later, ◌≡◌, refl, ap, ◌∙◌, ◌++◌, Bool, true, false, List, [], ◌∷◌, if◌then◌else◌,
}
use wgpanelne.Js.Strings.{Text, text_eq}
use wgpanelne.Js.Split.{first_part}
use wgpanelne.Layout.Navigation.{check_is_active}
use wgpanelne.Layout.Sidebar.{
  Shown, Entry, menu_link, dropdown, collapsible, Command, navigate, set_theme, nav_item,
  nav_groups, app_sidebar, item_commands, group_commands, nav_commands, command_menu,
}

-- All links, whatever holds them.
unfoldable pub shown : List Entry → List Shown
shown [] = []
shown (menu_link s ∷ es) = s ∷ shown es
shown (dropdown b ss ∷ es) = ss ++ shown es
shown (collapsible b ss ∷ es) = ss ++ shown es

unfoldable pub active : List Shown → List Text
active [] = []
active (s ∷ ss) = let rest = active ss in if s.is_active then s.url ∷ rest else rest

unfoldable pub targets : List Command → List Text
targets [] = []
targets (navigate u ∷ cs) = u ∷ targets cs
targets (set_theme t ∷ cs) = targets cs

abbrev pub sidebar_urls : List Text
sidebar_urls = targets command_menu

-- However the sidebar is drawn, it has the same links.
same_links :
    (collapsed is_mobile : Bool) (href : Text)
    → shown (app_sidebar collapsed is_mobile href) ≡ shown (app_sidebar false false href)
unfolding shown nav_item nav_groups
same_links true true href = refl
same_links true false href = refl
same_links false is_mobile href = refl

marks : (u : Text) → Among u sidebar_urls → active (shown (app_sidebar false false u)) ≡ u ∷ []
unfolding shown active targets nav_item nav_groups item_commands group_commands nav_commands
    check_is_active text_eq first_part
marks u (first _) = refl
marks u (later _ (first _)) = refl
marks u (later _ (later _ (first _))) = refl
marks u (later _ (later _ (later _ (first _)))) = refl
marks u (later _ (later _ (later _ (later _ (first _))))) = refl
marks u (later _ (later _ (later _ (later _ (later _ (first _)))))) = refl
marks u (later _ (later _ (later _ (later _ (later _ (later _ (first _))))))) = refl
marks u (later _ (later _ (later _ (later _ (later _ (later _ (later _ (first _)))))))) = refl
marks u (later _ (later _ (later _ (later _ (later _ (later _ (later _ (later _ x)))))))) =
    elim x [ ]

marks_query :
    (u : Text) (q : Text)
    → Among u sidebar_urls
    → active (shown (app_sidebar false false (u ++ b'?' ∷ q))) ≡ u ∷ []
unfolding shown active targets nav_item nav_groups item_commands group_commands nav_commands
    check_is_active text_eq first_part
marks_query u q (first _) = refl
marks_query u q (later _ (first _)) = refl
marks_query u q (later _ (later _ (first _))) = refl
marks_query u q (later _ (later _ (later _ (first _)))) = refl
marks_query u q (later _ (later _ (later _ (later _ (first _))))) = refl
marks_query u q (later _ (later _ (later _ (later _ (later _ (first _)))))) = refl
marks_query u q (later _ (later _ (later _ (later _ (later _ (later _ (first _))))))) = refl
marks_query u q (later _ (later _ (later _ (later _ (later _ (later _ (later _ (first _)))))))) =
    refl
marks_query u q (later _ (later _ (later _ (later _ (later _ (later _ (later _ (later _ x)))))))) =
    elim x [ ]

-- On every page of the sidebar, whatever parameters its address has and however the sidebar is drawn,
-- the link of that page is marked as active and no other link.
pub active-page :
    (collapsed is_mobile : Bool) (u query : Text)
    → Among u (targets command_menu)
    → (active (shown (app_sidebar collapsed is_mobile u)) ≡ u ∷ [])
      × (active (shown (app_sidebar collapsed is_mobile (u ++ b'?' ∷ query))) ≡ u ∷ [])
active-page collapsed is_mobile u query m = (
  ap active (same_links collapsed is_mobile u) ∙ marks u m,
  ap active (same_links collapsed is_mobile (u ++ b'?' ∷ query)) ∙ marks_query u query m,
)
