-- ===== src/Js/Trim/Laws.antt =====
-- Trimming removes the spaces at both ends and nothing else; collapsing acts on runs of spaces.
use wgpanelne.Prelude.{
  ℕ, ◌≡◌, refl, ◌∙◌, ap, true, false, [], ◌∷◌, ◌++◌, arith, All, Bool-cases, inl, inr,
}
use wgpanelne.Js.Strings.{Text}
use wgpanelne.Js.Trim.{is_space, AllSpace, trim_start, keep, trim_end, trim, collapse_from}

abbrev pub NoSpace : Text → Type 0
NoSpace = All (λ c. is_space c ≡ false)

pub trim_start_skip : (p s : Text) → AllSpace p → trim_start (p ++ s) ≡ trim_start s
unfolding trim_start
trim_start_skip [] s _ = refl
trim_start_skip (c ∷ p) s (h, hp) = rw h (trim_start_skip p s hp)

pub trim_start_stop : (c : ℕ) (s : Text) → is_space c ≡ false → trim_start (c ∷ s) ≡ c ∷ s
unfolding trim_start
trim_start_stop c s h = rw h

trim_start_idem : (s : Text) → trim_start (trim_start s) ≡ trim_start s
unfolding trim_start
trim_start_idem [] = refl
trim_start_idem (c ∷ s) = ground (arith, trim_start_idem s)

pub trim_end_space : (q : Text) → AllSpace q → trim_end q ≡ []
unfolding trim_end
trim_end_space [] _ = refl
trim_end_space (c ∷ q) (h, hq) = rw (trim_end_space q hq, h)

pub trim_end_skip : (s q : Text) → AllSpace q → trim_end (s ++ q) ≡ trim_end s
unfolding trim_end
trim_end_skip [] q h = trim_end_space q h
trim_end_skip (c ∷ s) q h = rw (trim_end_skip s q h)

-- What stands before a character that is no space stays.
pub trim_end_stop :
    (p : Text) (c : ℕ) (s : Text) → is_space c ≡ false → trim_end (p ++ c ∷ s) ≡ p ++ c ∷ trim_end s
unfolding trim_end
trim_end_stop [] c s h = go (trim_end s)
  where
    go : (t : Text) → keep c t ≡ c ∷ t
    go [] = rw h
    go (d ∷ t) = refl
trim_end_stop (b ∷ []) c s h = rw (trim_end_stop [] c s h)
trim_end_stop (b ∷ d ∷ p) c s h = rw (trim_end_stop (d ∷ p) c s h)

keep-eq-cons : (c : ℕ) (v u : Text) → keep c v ≡ c ∷ u → v ≡ u
keep-eq-cons c [] u e = ground arith
keep-eq-cons c (d ∷ v) u e = cc

trim_end_idem : (s : Text) → trim_end (trim_end s) ≡ trim_end s
unfolding trim_end
trim_end_idem [] = refl
trim_end_idem (c ∷ s) = go (trim_end s) (trim_end_idem s)
  where
    go : (t : Text) → trim_end t ≡ t → trim_end (keep c t) ≡ keep c t
    go [] e = ground arith
    go (d ∷ t) e = rw e

trim_end-trim_start : (t : Text) → trim_end t ≡ t → trim_end (trim_start t) ≡ trim_start t
unfolding trim_start trim_end
trim_end-trim_start [] e = refl
trim_end-trim_start (c ∷ u) e =
    let short = trim_end-trim_start u (keep-eq-cons c (trim_end u) u e) in
    elim (Bool-cases (is_space c)) [ inl h ↦ rw h short | inr h ↦ rw h e ]

-- A text is trimmed once.
pub trim_idem : (s : Text) → trim (trim s) ≡ trim s
unfolding trim
trim_idem s =
    ap trim_start (trim_end-trim_start (trim_end s) (trim_end_idem s))
    ∙ trim_start_idem (trim_end s)

trim_start-keep : (c : ℕ) (t : Text) → is_space c ≡ true → trim_start (keep c t) ≡ trim_start t
unfolding trim_start
trim_start-keep c [] h = rw h
trim_start-keep c (d ∷ t) h = rw h

trim_padded_start :
    (p s : Text) → AllSpace p → trim_start (trim_end (p ++ s)) ≡ trim_start (trim_end s)
unfolding trim_end
trim_padded_start [] s _ = refl
trim_padded_start (c ∷ p) s (h, hp) =
    trim_start-keep c (trim_end (p ++ s)) h ∙ trim_padded_start p s hp

-- Spaces at either end do not matter.
pub trim_padded : (p s q : Text) → AllSpace p → AllSpace q → trim (p ++ s ++ q) ≡ trim s
unfolding trim
trim_padded p s q hp hq = rw (trim_end_skip (p ++ s) q hq) (trim_padded_start p s hp)

pub collapse_word :
    (w s : Text) → NoSpace w → collapse_from false (w ++ s) ≡ w ++ collapse_from false s
unfolding collapse_from
collapse_word [] s _ = refl
collapse_word (c ∷ w) s (h, hw) = rw (h, collapse_word w s hw)

pub collapse_run : (q s : Text) → AllSpace q → collapse_from true (q ++ s) ≡ collapse_from true s
unfolding collapse_from
collapse_run [] s _ = refl
collapse_run (c ∷ q) s (h, hq) = rw h (collapse_run q s hq)
