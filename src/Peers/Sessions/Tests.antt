-- ===== src/Peers/Sessions/Tests.antt =====
-- Runs of the durations and of the tabs, and the theorems at concrete data.
use wgpanelne.Prelude.{
  Among, List, map, true, false, ltb, ◌*◌, ◌≡◌, refl, Option, none, some, [], ◌∷◌, length,
}
use wgpanelne.Prelude.Int.{ℤ, pos, negsuc, ◌-ℤ◌}
use wgpanelne.Js.Strings.{Text, codes}
use wgpanelne.Js.Decimal.{to_string, pad2}
use wgpanelne.Peers.Sessions.{
  ongoing, ended, PeerSession, format_duration, elapsed, session_seconds, all_sessions, only,
  filtered_sessions,
}
use wgpanelne.Peers.Sessions.View.{
  PeerSessions, SessionsDialog, Row, body, listed, session_summary, tab_counts, dialog_step,
  set_open,
}
use wgpanelne.Peers.Sessions.Shown.{IsCounted, flags, body_rows}
use wgpanelne.Prelude.{ℕ, ◌+◌, ◌*◌, ◌<◌}
use wgpanelne.Peers.Sessions.Clock.{clock, format_duration-clock}

format_tests :
    (format_duration (some (pos 93_784)) ≡ codes "1d 02:03:04")
    × (format_duration (some (pos 59)) ≡ codes "00:00:59")
    × (format_duration (some (negsuc 4)) ≡ codes "00:00:00")
unfolding format_duration to_string pad2
format_tests = (refl, refl, refl)

abbrev first_visit : PeerSession
first_visit = record {
  id = 1;
  status = ended;
  connected_at = codes "0";
  disconnected_at = some (codes "x");
  endpoint = none;
  download_usage = codes "1 B";
  upload_usage = codes "2 B";
  total_usage = codes "3 B";
}

abbrev second_visit : PeerSession
second_visit = record {
  id = 2;
  status = ongoing;
  connected_at = codes "x";
  disconnected_at = none;
  endpoint = none;
  download_usage = codes "1 B";
  upload_usage = codes "2 B";
  total_usage = codes "3 B";
}

-- A clock that reads a text as its number of characters, in seconds.
abbrev time_of_length : Text → Option ℤ
time_of_length t = some (pos (length t * 1000))

seconds_test : session_seconds time_of_length second_visit (pos 9_500) ≡ some (pos 8)
unfolding session_seconds elapsed ◌-ℤ◌
seconds_test = refl

format_duration-clock_example :
    (d : ℕ) × (h : ℕ) × (m : ℕ) × (s : ℕ) × (93_784 ≡ ((d * 24 + h) * 60 + m) * 60 + s)
    × (h < 24)
    × (m < 60)
    × (s < 60)
    × (format_duration (some (pos 93_784)) ≡ clock d h m s)
format_duration-clock_example = format_duration-clock 93_784

abbrev visits : PeerSessions
visits = record {
  total_sessions = 2;
  ongoing_sessions = 1;
  total_duration_label = codes "00:01:00";
  total_download_usage = codes "1 B";
  total_upload_usage = codes "2 B";
  total_usage = codes "3 B";
  sessions = second_visit ∷ first_visit ∷ [];
}

visits-IsCounted : IsCounted visits
unfolding filtered_sessions
visits-IsCounted = (refl, refl)

abbrev ended_tab : SessionsDialog
ended_tab = record { is_open = true; filter = only ended; now = pos 0 }

abbrev no_iso : Text → Option Text
no_iso t = none

abbrev no_time : Text → Option ℤ
no_time t = none

closing_resets : (dialog_step (set_open false) ended_tab).filter ≡ all_sessions
unfolding dialog_step
closing_resets = refl

body_rows_example :
    (rows : List Row) × (body no_time no_iso ended_tab true false false (some visits)
      ≡ listed (session_summary (some visits)) (tab_counts (some visits)) rows (ltb 0 2))
    × Among (only ended, pos (length rows)) (tab_counts (some visits))
    × (map (λ r. r.id) rows ≡ map (λ q. q.id) (filtered_sessions (only ended) visits.sessions))
    × (map (λ r. r.is_last) rows ≡ flags (length rows))
body_rows_example = body_rows no_time no_iso ended_tab true false visits visits-IsCounted
