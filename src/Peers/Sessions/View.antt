-- ===== src/Peers/Sessions/View.antt =====
-- ui/src/features/peers/components/dialogs/peers-sessions-dialog.tsx: what the dialog shows.
-- `format_iso` is `format(parseISO(value), 'MMM d, yyyy HH:mm:ss')` of date-fns, `none` where it
-- throws. The counts come from the server and are not negative.
use wgpanelne.Prelude.{
  ℕ, suc, ◌==◌, Bool, true, false, not, ◌&&◌, ◌||◌, Option, none, some, List, [], ◌∷◌, ◌++◌, ltb,
  if◌then◌else◌, length,
}
use wgpanelne.Prelude.Int.{ℤ, pos, sub_ℕ}
use wgpanelne.Js.Strings.{Text, codes, truthy}
use wgpanelne.Js.Decimal.{to_string}
use wgpanelne.Peers.Sessions.{
  SessionStatus, ongoing, ended, PeerSession, SessionFilter, all_sessions, only, filtered_sessions,
  format_duration, session_seconds,
}

pub record PeerSessions : Type 0 where
  pub total_sessions : ℕ
  pub ongoing_sessions : ℕ
  pub total_duration_label : Text
  pub total_download_usage : Text
  pub total_upload_usage : Text
  pub total_usage : Text
  pub sessions : List PeerSession

-- The state of the dialog and of its query.
pub record SessionsDialog : Type 0 where
  pub is_open : Bool
  pub filter : SessionFilter
  pub now : ℤ

pub data Event : Type 0 where
  set_filter : SessionFilter → Event
  set_open : Bool → Event
  tick : ℤ → Event

-- The effects of `open`: the clock only runs, and the tab is kept, while the dialog is open.
unfoldable pub dialog_step : Event → SessionsDialog → SessionsDialog
dialog_step (set_filter f) s = record { is_open = s.is_open; filter = f; now = s.now }
dialog_step (set_open b) s = record {
  is_open = b;
  filter = if b then s.filter else all_sessions;
  now = s.now;
}
dialog_step (tick t) s = record {
  is_open = s.is_open;
  filter = s.filter;
  now = if s.is_open then t else s.now;
}

pub record SummaryCard : Type 0 where
  pub label : Text
  pub value : Text
  pub hint : Text

-- `data?.field ?? fallback`
abbrev pub or_else {ℓ} : {A : Type ℓ} → Option PeerSessions → (PeerSessions → A) → A → A
or_else none f a = a
or_else (some d) f a = f d

unfoldable pub ongoing_hint : Option PeerSessions → Text
ongoing_hint none = codes "No active session"
ongoing_hint (some d) =
    if d.ongoing_sessions == 0
    then codes "No active session"
    else to_string d.ongoing_sessions ++ codes " ongoing"

unfoldable pub session_summary : Option PeerSessions → List SummaryCard
session_summary data' =
    record {
      label = codes "Sessions";
      value = to_string (or_else data' (λ d. d.total_sessions) 0);
      hint = ongoing_hint data';
    }
    ∷ record {
      label = codes "Time online";
      value = or_else data' (λ d. d.total_duration_label) (codes "00:00:00");
      hint = codes "All recorded sessions";
    }
    ∷ record {
      label = codes "Session traffic";
      value = or_else data' (λ d. d.total_usage) (codes "0 B");
      hint =
          or_else data' (λ d. d.total_download_usage) (codes "0 B")
          ++ codes " down · "
          ++ or_else data' (λ d. d.total_upload_usage) (codes "0 B")
          ++ codes " up";
    }
    ∷ []

pub record Row : Type 0 where
  pub id : ℕ
  pub is_ongoing : Bool
  pub duration : Text
  pub connected : Text
  pub disconnected : Text
  pub endpoint : Text
  pub usages : List Text
  pub is_last : Bool

pub data Body : Type 0 where
  sessions_skeleton : Body
  not_loaded : Body
  -- The cards, the number on each tab, and the rows or, if there are none, whether there is any
  -- session at all.
  listed : List SummaryCard → List (SessionFilter × ℤ) → List Row → Bool → Body

abbrev pub is_ongoing_status : SessionStatus → Bool
is_ongoing_status ongoing = true
is_ongoing_status ended = false

-- `data?.sessions ?? []`
abbrev pub sessions_of : Option PeerSessions → List PeerSession
sessions_of data' = or_else data' (λ d. d.sessions) []

abbrev pub given : Option PeerSessions → Bool
given none = false
given (some d) = true

-- `data?.total_sessions ?? 0`, `data?.ongoing_sessions ?? 0` and `endedCount`.
unfoldable pub tab_counts : Option PeerSessions → List (SessionFilter × ℤ)
tab_counts data' =
    let total = or_else data' (λ d. d.total_sessions) 0 in
    let going = or_else data' (λ d. d.ongoing_sessions) 0 in
    (all_sessions, pos total) ∷ (only ongoing, pos going) ∷ (only ended, sub_ℕ total going) ∷ []

module _ (time_of : Text → Option ℤ) (format_iso : Text → Option Text) where
  unfoldable pub format_date_time : Text → Text
  format_date_time value = elim (format_iso value) [ none ↦ value | some t ↦ t ]

  abbrev pub ended_at : Option Text → Text
  ended_at none = codes "now"
  ended_at (some t) = if truthy t then format_date_time t else codes "now"

  unfoldable pub session_row : PeerSession → ℤ → Bool → Row
  session_row r now is_last = record {
    id = r.id;
    is_ongoing = is_ongoing_status r.status;
    duration = format_duration (session_seconds time_of r now);
    connected = format_date_time r.connected_at;
    disconnected = ended_at r.disconnected_at;
    endpoint = elim r.endpoint [ none ↦ codes "Endpoint unknown" | some e ↦ e ];
    usages = r.total_usage ∷ r.download_usage ∷ r.upload_usage ∷ [];
    is_last = is_last;
  }

  -- `filteredSessions.map((session, index) => ...)`, from an index on.
  unfoldable pub session_rows : ℤ → ℕ → ℕ → List PeerSession → List Row
  session_rows now index count [] = []
  session_rows now index count (r ∷ rs) =
      session_row r now (suc index == count) ∷ session_rows now (suc index) count rs

  -- `isLoading`, `isFetching` and `isError` are the query's.
  unfoldable pub body : SessionsDialog → Bool → Bool → Bool → Option PeerSessions → Body
  body s is_loading is_fetching is_error data' =
      let filtered = filtered_sessions s.filter (sessions_of data') in
      if (is_loading || is_fetching) && not (given data')
      then sessions_skeleton
      else if is_error
      then not_loaded
      else listed (session_summary data') (tab_counts data')
          (session_rows s.now 0 (length filtered) filtered) (ltb 0 (length (sessions_of data')))
