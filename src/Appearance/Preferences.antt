-- ===== src/Appearance/Preferences.antt =====
-- ui/src/features/settings/appearance/appearance-form.tsx and ui/src/components/theme-switch.tsx: what
-- chooses the theme and the font.
use wgpanelne.Prelude.{
  ◌≡◌, refl, sym, ap, ◌∙◌, Bool, Option, none, some, List, [], ◌∷◌, if◌then◌else◌, Bool-cases, inl,
  inr,
}
use wgpanelne.Js.Strings.{Text, codes, text_eq, text_eq_iff}
use wgpanelne.Zod.Values.{Value, str, obj, end, field, get_field}
use wgpanelne.Zod.Syntax.{Schema, enum, object, done, entry}
use wgpanelne.Zod.Interface.{Zod, parse_object}
use wgpanelne.Appearance.{ThemeState, set_theme, apply_theme}
use wgpanelne.Appearance.Fonts.{fonts, FontState, set_font}

abbrev pub appearance_form_schema : Schema
appearance_form_schema = object (
    entry (codes "theme") (enum (codes "light" ∷ codes "dark" ∷ []))
      (entry (codes "font") (enum fonts) done))

-- The values of the form, and the two providers.
pub record Preferences : Type 0 where
  pub theme : Text
  pub font : Text

pub record Providers : Type 0 where
  pub themes : ThemeState
  pub fonts_of : FontState

-- `defaultValues`
abbrev pub default_preferences : Providers → Preferences
default_preferences p = record { theme = p.themes.theme; font = p.fonts_of.font }

abbrev pub preferences_value : Preferences → Value
preferences_value d =
    obj (field (codes "theme") (str d.theme) (field (codes "font") (str d.font) end))

abbrev with_font : Text → Providers → Providers
with_font font p =
    if text_eq font p.fonts_of.font then p else record p { fonts_of = set_font font p.fonts_of }

abbrev with_theme : Text → Providers → Providers
with_theme theme p =
    if text_eq theme p.themes.theme then p else record p { themes = set_theme theme p.themes }

-- `onSubmit`; the toast shows the values.
unfoldable pub submit_values : Preferences → Providers → Providers
submit_values data' p = with_theme data'.theme (with_font data'.font p)

-- `form.handleSubmit(onSubmit)`: only values that the schema accepts get there.
abbrev on_parsed : Option (Option Value) → Preferences → Providers → Providers
on_parsed none data' p = p
on_parsed (some v) data' p = submit_values data' p

unfoldable pub submit_preferences : Zod → Preferences → Providers → Providers
submit_preferences z data' p =
    on_parsed (z.parse appearance_form_schema (some (preferences_value data'))) data' p

-- The content of `theme-color`, and which entry of the menu is ticked.
abbrev pub theme_color : Text → Text
theme_color theme = if text_eq theme (codes "dark") then codes "#020817" else codes "#fff"

abbrev pub switch_entries : Text → List (Text × Bool)
switch_entries theme =
    (codes "light", text_eq theme (codes "light"))
    ∷ (codes "dark", text_eq theme (codes "dark"))
    ∷ (codes "system", text_eq theme (codes "system"))
    ∷ []

set_theme-theme : (t : Text) (s : ThemeState) → (set_theme t s).theme ≡ t
unfolding set_theme apply_theme
set_theme-theme t s = elim (Bool-cases (text_eq s.theme t)) [
  | inl same ↦ rw same refl
  | inr other ↦ rw other refl
]

with_font-font : (f : Text) (p : Providers) → (with_font f p).fonts_of.font ≡ f
unfolding set_font
with_font-font f p = elim (Bool-cases (text_eq f p.fonts_of.font)) [
  | inl same ↦ rw same (sym ((text_eq_iff f p.fonts_of.font).0 same))
  | inr other ↦ rw other refl
]

with_theme-theme :
    (t : Text) (p : Providers)
    → ((with_theme t p).themes.theme ≡ t) × ((with_theme t p).fonts_of ≡ p.fonts_of)
with_theme-theme t p = elim (Bool-cases (text_eq t p.themes.theme)) [
  | inl same ↦ rw same (sym ((text_eq_iff t p.themes.theme).0 same), refl)
  | inr other ↦ rw other (set_theme-theme t p.themes, refl)
]

-- After values that are accepted, the theme and the font are those of the form.
submit_values_lem :
    (d : Preferences) (p : Providers)
    → ((submit_values d p).themes.theme ≡ d.theme) × ((submit_values d p).fonts_of.font ≡ d.font)
unfolding submit_values
submit_values_lem d p =
    let (t, f) = with_theme-theme d.theme (with_font d.font p) in
    (t, ap (λ s. s.font) f ∙ with_font-font d.font p)

-- The theme of the system, which the form shows as its value, is refused whatever the font is, so
-- the font stays as it was.
system_refused :
    (z : Zod) (f : Text) (p : Providers)
    → submit_preferences z (record { theme = codes "system"; font = f }) p ≡ p
unfolding submit_preferences get_field text_eq
system_refused z f p =
    ap (λ r. on_parsed r (record { theme = codes "system"; font = f }) p)
      (z.parse-object _ (some (preferences_value (record { theme = codes "system"; font = f })))
        ∙ shape)
  where
    theme_refused :
        z.parse (enum (codes "light" ∷ codes "dark" ∷ [])) (some (str (codes "system"))) ≡ none
    theme_refused = z.parse-enum (codes "light" ∷ codes "dark" ∷ []) (some (str (codes "system")))

    shape :
        parse_object z.parse
          (entry
            (codes "theme")
            (enum (codes "light" ∷ codes "dark" ∷ []))
            (entry (codes "font") (enum fonts) done))
          (some (preferences_value (record { theme = codes "system"; font = f })))
        ≡ none
    shape = rw theme_refused refl
