-- ===== src/Peers/Sessions.antt =====
-- ui/src/features/peers/components/dialogs/peers-sessions-dialog.tsx: how long a session lasts, how
-- that is written, and which sessions a tab shows.
pub mod Clock
pub mod View
pub mod Shown
mod Tests
use wgpanelne.Prelude.{
  ℕ, ◌-◌, ◌/◌, ◌%◌, Bool, true, false, Option, none, some, List, [], ◌∷◌, ◌++◌, ltb, if◌then◌else◌,
  filter,
}
use wgpanelne.Prelude.Int.{ℤ, pos, negsuc, ◌-ℤ◌, pos_part}
use wgpanelne.Js.Strings.{Text, codes, truthy}
use wgpanelne.Js.Decimal.{to_string, pad2}

pub data SessionStatus : Type 0 where
  ongoing ended : SessionStatus

-- The fields of `PeerSession` that the dialog uses.
pub record PeerSession : Type 0 where
  pub id : ℕ
  pub status : SessionStatus
  pub connected_at : Text
  pub disconnected_at : Option Text
  pub endpoint : Option Text
  pub download_usage : Text
  pub upload_usage : Text
  pub total_usage : Text

-- `String(part).padStart(2, '0')`
abbrev pub part : ℕ → Text
part n = pad2 (to_string n)

abbrev pub hms : ℕ → ℕ → ℕ → Text
hms hours minutes rest = part hours ++ (b':' ∷ part minutes ++ (b':' ∷ part rest))

-- `none` is `NaN`, the age of a session whose dates cannot be read. `Math.max(0, ...)` is the
-- positive part.
unfoldable pub format_duration : Option ℤ → Text
format_duration none = codes "NaN:NaN:NaN"
format_duration (some total_seconds) =
    let seconds = pos_part total_seconds in
    let days = seconds / 86_400 in
    let clock = hms ((seconds % 86_400) / 3_600) ((seconds % 3_600) / 60) (seconds % 60) in
    if ltb 0 days then to_string days ++ codes "d " ++ clock else clock

-- `Math.floor(n / 1000)`
abbrev pub floor_thousandth : ℤ → ℤ
floor_thousandth (pos n) = pos (n / 1000)
floor_thousandth (negsuc n) = negsuc (n / 1000)

-- `Math.max(0, Math.floor((end - start) / 1000))`
unfoldable pub elapsed : Option ℤ → Option ℤ → Option ℤ
elapsed none end = none
elapsed (some start) none = none
elapsed (some start) (some end) = some (pos (pos_part (floor_thousandth (end -ℤ start))))

module _ (time_of : Text → Option ℤ) where
  -- `new Date(t).getTime()`, in milliseconds, is `time_of`; `none` is `NaN`.
  end_of : Option Text → ℤ → Option ℤ
  end_of none now = some now
  end_of (some t) now = if truthy t then time_of t else some now

  unfoldable pub session_seconds : PeerSession → ℤ → Option ℤ
  unfolding elapsed end_of
  session_seconds s now = elapsed (time_of s.connected_at) (end_of s.disconnected_at now)

pub data SessionFilter : Type 0 where
  all_sessions : SessionFilter
  only : SessionStatus → SessionFilter

abbrev pub has_status : SessionStatus → PeerSession → Bool
has_status ongoing s = elim s.status [ ongoing ↦ true | ended ↦ false ]
has_status ended s = elim s.status [ ongoing ↦ false | ended ↦ true ]

unfoldable pub filtered_sessions : SessionFilter → List PeerSession → List PeerSession
filtered_sessions all_sessions sessions = sessions
filtered_sessions (only status) sessions = filter (has_status status) sessions
