-- ===== src/Peers/Sessions/Shown.antt =====
-- The rows of a tab are as many as the number on it says.
use mathlib.Core.Path.{subst}
use wgpanelne.Prelude.{
  Among, first, later, ℕ, zero, suc, ◌+◌, ◌==◌, ◌≡◌, refl, sym, ap, ◌∙◌, Bool, true, false, ◌&&◌,
  ◌||◌, Option, some, List, [], ◌∷◌, map, ltb, length, arith,
}
use wgpanelne.Prelude.Int.{ℤ, pos, sub_ℕ}
use wgpanelne.Js.Strings.{Text}
use wgpanelne.Peers.Sessions.{
  ongoing, ended, PeerSession, SessionFilter, all_sessions, only, filtered_sessions,
}
use wgpanelne.Peers.Sessions.Clock.{filtered_sessions-partition}
use wgpanelne.Peers.Sessions.View.{
  PeerSessions, SessionsDialog, tab_counts, session_row, session_rows, body, listed, Row,
  session_summary,
}

-- The number on the tab.
unfoldable pub count_of : SessionFilter → PeerSessions → ℤ
count_of all_sessions d = pos d.total_sessions
count_of (only ongoing) d = pos d.ongoing_sessions
count_of (only ended) d = sub_ℕ d.total_sessions d.ongoing_sessions

-- What the server counts: its totals are those of the sessions it lists.
abbrev pub IsCounted : PeerSessions → Type 0
IsCounted d =
    (d.total_sessions ≡ length d.sessions)
    × (d.ongoing_sessions ≡ length (filtered_sessions (only ongoing) d.sessions))

sub_ℕ-add : (a b : ℕ) → sub_ℕ (a + b) a ≡ pos b
sub_ℕ-add a b = ground arith

count_of-length :
    (f : SessionFilter) (d : PeerSessions)
    → IsCounted d
    → count_of f d ≡ pos (length (filtered_sessions f d.sessions))
unfolding count_of filtered_sessions
count_of-length all_sessions d (h, k) = ap pos h
count_of-length (only ongoing) d (h, k) = ap pos k
count_of-length (only ended) d (h, k) =
    rw (h, k, sym (filtered_sessions-partition d.sessions).0) (sub_ℕ-add _ _)

-- Which of so many rows is the last one.
abbrev pub flags : ℕ → List Bool
flags zero = []
flags (suc zero) = true ∷ []
flags (suc (suc n)) = false ∷ flags (suc n)

-- The tab that is chosen, with the number on it.
count_of-Among :
    (f : SessionFilter) (d : PeerSessions) → Among (f, count_of f d) (tab_counts (some d))
unfolding count_of tab_counts
count_of-Among all_sessions d = first _
count_of-Among (only ongoing) d = later _ (first _)
count_of-Among (only ended) d = later _ (later _ (first _))

and_false : (b : Bool) → (b && false) ≡ false
and_false true = refl
and_false false = refl

module _ (time_of : Text → Option ℤ) (format_iso : Text → Option Text) where
  length-session_rows :
      (now : ℤ) (i n : ℕ) (l : List PeerSession)
      → length (session_rows time_of format_iso now i n l) ≡ length l
  unfolding session_rows
  length-session_rows now i n [] = refl
  length-session_rows now i n (r ∷ rs) = ap suc (length-session_rows now (suc i) n rs)

  flags-session_rows :
      (now : ℤ) (i n : ℕ) (l : List PeerSession)
      → n ≡ i + length l
      → map (λ r. r.is_last) (session_rows time_of format_iso now i n l) ≡ flags (length l)
  unfolding session_rows session_row
  flags-session_rows now i n [] h = refl
  flags-session_rows now i n (r ∷ []) h = ap (λ b. b ∷ []) (ground (arith, h))
  flags-session_rows now i n (r ∷ q ∷ rs) h =
      let next : _ = flags-session_rows now (suc i) n (q ∷ rs) (omega (arith, h)) in
      let head : (suc i == n) ≡ false = ground (arith, h) in rw (next, head) refl

  ids-session_rows :
      (now : ℤ) (i n : ℕ) (l : List PeerSession)
      → map (λ r. r.id) (session_rows time_of format_iso now i n l) ≡ map (λ s. s.id) l
  unfolding session_rows session_row
  ids-session_rows now i n [] = refl
  ids-session_rows now i n (r ∷ rs) = ap (λ ids. r.id ∷ ids) (ids-session_rows now (suc i) n rs)

  -- If the totals of the server are those of the sessions it lists, then once they are loaded the
  -- dialog shows as many rows as the number on the chosen tab says, those of the sessions of that
  -- tab in their order, marks exactly the last row as the last one, and tells an empty tab from a
  -- peer without sessions.
  pub body_rows :
      (s : SessionsDialog) (is_loading is_fetching : Bool) (d : PeerSessions)
      → IsCounted d
      → (rows : List Row) × (body time_of format_iso s is_loading is_fetching false (some d)
          ≡ listed
              (session_summary (some d))
              (tab_counts (some d))
              rows
              (ltb 0 (length d.sessions)))
        × Among (s.filter, pos (length rows)) (tab_counts (some d))
        × (map (λ r. r.id) rows ≡ map (λ q. q.id) (filtered_sessions s.filter d.sessions))
        × (map (λ r. r.is_last) rows ≡ flags (length rows))
  unfolding body
  body_rows s is_loading is_fetching d h =
      let l = filtered_sessions s.filter d.sessions in
      let n : length (session_rows time_of format_iso s.now 0 (length l) l) ≡ length l =
        length-session_rows s.now 0 (length l) l in
      (
        session_rows time_of format_iso s.now 0 (length l) l,
        rw (and_false (is_loading || is_fetching)) refl,
        subst (λ k. Among (s.filter, k) (tab_counts (some d)))
            (count_of-length s.filter d h ∙ ap pos (sym n)) (count_of-Among s.filter d),
        ids-session_rows s.now 0 (length l) l,
        flags-session_rows s.now 0 (length l) l (omega arith) ∙ ap flags (sym n),
      )
