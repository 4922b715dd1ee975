-- ===== src/Appearance/Tests.antt =====
-- Runs of the theme, and the theorem at concrete data.
use wgpanelne.Prelude.{inr, ◌≡◌, refl, true, false, none, List, [], ◌∷◌}
use wgpanelne.Js.Strings.{Text, codes, text_eq, starts_with}
use wgpanelne.Appearance.{
  start, Event, choose, prefer_dark, run, apply_theme, set_theme, handle_change,
}
use wgpanelne.Appearance.Fonts.{is_font, for_each, apply_font, saved_font, start_font, set_fonts}
use wgpanelne.Appearance.OneFont.{other_classes}
use wgpanelne.Appearance.Passes.{AtMostOne}
use wgpanelne.Appearance.FontShown.{ShowsFont, set_fonts-ShowsFont}
use wgpanelne.Appearance.Shown.{Shows, run-Shows}

abbrev visit : List Event
visit = choose (codes "system") ∷ prefer_dark false ∷ []

visit_end :
    (run visit (start (codes "dark") none true (codes "font-inter" ∷ []))).classes
    ≡ codes "font-inter" ∷ codes "light" ∷ []
unfolding run start apply_theme set_theme handle_change text_eq
visit_end = refl

run-Shows_example : Shows (run visit (start (codes "dark") none true (codes "font-inter" ∷ [])))
run-Shows_example = run-Shows (codes "dark") none true (codes "font-inter" ∷ []) visit

-- Of two neighbours only the first is removed.
neighbours :
    apply_font (codes "inter") (codes "font-a" ∷ codes "font-b" ∷ [])
    ≡ codes "font-b" ∷ codes "font-inter" ∷ []
unfolding apply_font for_each is_font starts_with text_eq
neighbours = refl

abbrev page : List Text
page = codes "dark" ∷ codes "font-system" ∷ []

page-AtMostOne : AtMostOne page
unfolding is_font starts_with
page-AtMostOne = inr (codes "font-system", refl)

set_fonts-ShowsFont_example :
    ShowsFont
      (set_fonts (codes "manrope" ∷ []) (start_font none page)).font
      (other_classes page)
      (set_fonts (codes "manrope" ∷ []) (start_font none page)).classes
    × (saved_font (set_fonts (codes "manrope" ∷ []) (start_font none page)).stored
        ≡ (set_fonts (codes "manrope" ∷ []) (start_font none page)).font)
unfolding text_eq
set_fonts-ShowsFont_example =
    set_fonts-ShowsFont none page (codes "manrope" ∷ []) page-AtMostOne (refl, tt)
