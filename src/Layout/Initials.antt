-- ===== src/Layout/Initials.antt =====
-- ui/src/utils/helper.ts: `getAvatarInitials`. `toUpperCase` is a parameter.
use wgpanelne.Prelude.{
  ℕ, ◌≡◌, refl, ap, sym, ◌∙◌, true, false, Option, none, some, List, [], ◌∷◌, ◌++◌, append_assoc,
  if◌then◌else◌,
}
use wgpanelne.Js.Strings.{Text, truthy, Lacks}
use wgpanelne.Js.Split.{split, split-append, split-Lacks}
use wgpanelne.Js.Trim.{is_space, AllSpace, trim, trim_start, trim_end, collapse, collapse_from}
use wgpanelne.Js.Trim.Laws.{
  NoSpace, trim_start_stop, trim_end_stop, trim_padded, collapse_word, collapse_run,
}

-- `w[0]` in a concatenation; a word is not empty here.
abbrev first_char : Text → Text
first_char [] = []
first_char (c ∷ w) = c ∷ []

abbrev first_two : Text → Text
first_two [] = []
first_two (c ∷ []) = c ∷ []
first_two (c ∷ d ∷ w) = c ∷ d ∷ []

module _ (to_upper_case : Text → Text) where
  initials_of : List Text → Text
  initials_of [] = []
  initials_of (w ∷ []) = to_upper_case (first_two w)
  initials_of (w ∷ v ∷ ws) = to_upper_case (first_char w ++ first_char v)

  unfoldable pub get_avatar_initials : Option Text → Text
  unfolding initials_of
  get_avatar_initials none = []
  get_avatar_initials (some name) =
      let cleaned = collapse (trim name) in
      if truthy name then if truthy cleaned then initials_of (split cleaned b' ') else [] else []

trim_end-NoSpace : (s : Text) → NoSpace s → trim_end s ≡ s
unfolding trim_end
trim_end-NoSpace [] h = refl
trim_end-NoSpace (c ∷ s) (h, hs) = trim_end_stop [] c s h ∙ ap (λ t. c ∷ t) (trim_end-NoSpace s hs)

-- Text between two characters that are no blanks is not shortened.
trim-core :
    (c : ℕ) (s : Text) (d : ℕ) (v : Text)
    → is_space c ≡ false
    → NoSpace (d ∷ v)
    → trim ((c ∷ s) ++ d ∷ v) ≡ (c ∷ s) ++ d ∷ v
unfolding trim
trim-core c s d v h (hd, hv) =
    ap trim_start
      (trim_end_stop (c ∷ s) d v hd ∙ ap (λ t. (c ∷ s) ++ d ∷ t) (trim_end-NoSpace v hv))
    ∙ trim_start_stop c (s ++ d ∷ v) h

space_is_space : is_space b' ' ≡ true
unfolding is_space
space_is_space = refl

NoSpace-Lacks : (s : Text) → NoSpace s → Lacks b' ' s
NoSpace-Lacks [] h = tt
NoSpace-Lacks (c ∷ s) (h, hs) = (λ e. cc (ap is_space e, space_is_space), NoSpace-Lacks s hs)

collapse-NoSpace : (s : Text) → NoSpace s → collapse_from false s ≡ s
unfolding collapse_from
collapse-NoSpace [] h = refl
collapse-NoSpace (c ∷ s) (h, hs) = rw (h, collapse-NoSpace s hs) refl

collapse_gap :
    (b : ℕ) (run : Text) (d : ℕ) (v : Text)
    → AllSpace (b ∷ run)
    → NoSpace (d ∷ v)
    → collapse_from false (b ∷ (run ++ d ∷ v)) ≡ b' ' ∷ d ∷ v
unfolding collapse_from
collapse_gap b run d v (hb, hr) (hd, hv) =
    rw (hb, collapse_run run (d ∷ v) hr, hd, collapse-NoSpace v hv) refl

collapse_words :
    (w : Text) (b : ℕ) (run : Text) (d : ℕ) (v : Text)
    → NoSpace w
    → AllSpace (b ∷ run)
    → NoSpace (d ∷ v)
    → collapse (w ++ b ∷ (run ++ d ∷ v)) ≡ w ++ b' ' ∷ d ∷ v
unfolding collapse
collapse_words w b run d v hw hb hv =
    collapse_word w (b ∷ (run ++ d ∷ v)) hw ∙ ap (λ t. w ++ t) (collapse_gap b run d v hb hv)

truthy-append : (p : Text) (c : ℕ) (s q : Text) → truthy (p ++ (c ∷ s) ++ q) ≡ true
truthy-append [] c s q = refl
truthy-append (x ∷ p) c s q = refl

-- A user of two names has their first letters for initials, in upper case, whatever blanks stand
-- around and between the names.
get_avatar_initials_two :
    (to_upper_case : Text → Text) (p q run : Text) (b c d : ℕ) (w v : Text)
    → AllSpace p
    → AllSpace q
    → AllSpace (b ∷ run)
    → NoSpace (c ∷ w)
    → NoSpace (d ∷ v)
    → get_avatar_initials to_upper_case (some (p ++ ((c ∷ w) ++ b ∷ (run ++ d ∷ v)) ++ q))
      ≡ to_upper_case (c ∷ d ∷ [])
unfolding get_avatar_initials initials_of
get_avatar_initials_two to_upper_case p q run b c d w v hp hq hb (hc, hw) hv =
    let within : trim ((c ∷ w) ++ b ∷ (run ++ d ∷ v)) ≡ (c ∷ w) ++ b ∷ (run ++ d ∷ v) =
      ap trim (sym (append_assoc (c ∷ w) (b ∷ run) (d ∷ v)))
      ∙ trim-core c (w ++ b ∷ run) d v hc hv
      ∙ append_assoc (c ∷ w) (b ∷ run) (d ∷ v) in
    rw
      (
        truthy-append p c (w ++ b ∷ (run ++ d ∷ v)) q,
        trim_padded p ((c ∷ w) ++ b ∷ (run ++ d ∷ v)) q hp hq,
        within,
        collapse_words (c ∷ w) b run d v (hc, hw) hb hv,
        split-append b' ' (c ∷ w) (d ∷ v) (NoSpace-Lacks (c ∷ w) (hc, hw)),
        split-Lacks b' ' (d ∷ v) (NoSpace-Lacks (d ∷ v) hv),
      )
      refl
