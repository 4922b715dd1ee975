-- ===== src/Peers/Sessions/Clock.antt =====
-- The duration of a session, and its text.
use wgpanelne.Prelude.{
  ℕ, zero, suc, ◌+◌, ◌*◌, ◌/◌, ◌%◌, ◌≤◌, ◌<◌, ◌≡◌, refl, ap, ◌∙◌, true, false, Bool-cases, ltb→lt,
  Option, none, some, List, [], ◌∷◌, ◌++◌, arith, length, if◌then◌else◌, ltb, inl, inr, All, ◌⊎◌,
}
use wgpanelne.Prelude.Int.{ℤ, pos, negsuc, ◌≤ℤ◌, ◌-ℤ◌, pos_part}
use wgpanelne.Js.Strings.{Text, codes}
use wgpanelne.Js.Decimal.{digits, to_string, pad2}
use wgpanelne.Peers.Sessions.{
  part, end_of, SessionStatus, ongoing, ended, PeerSession, hms, format_duration, floor_thousandth,
  elapsed, session_seconds, all_sessions, only, filtered_sessions,
}

-- A number below 100 in two digits.
abbrev pub two_digits : ℕ → Text
two_digits n = (48 + n / 10) ∷ (48 + n % 10) ∷ []

-- The text of `d` days, `h` hours, `m` minutes and `s` seconds.
abbrev pub clock_time : ℕ → ℕ → ℕ → Text
clock_time h m s = two_digits h ++ (b':' ∷ two_digits m ++ (b':' ∷ two_digits s))

abbrev pub clock : ℕ → ℕ → ℕ → ℕ → Text
clock zero h m s = clock_time h m s
clock (suc d) h m s = to_string (suc d) ++ codes "d " ++ clock_time h m s

part_digits : (n : ℕ) → n < 100 → part n ≡ two_digits n
unfolding to_string digits pad2
part_digits n h = elim (Bool-cases (ltb n 10)) [
  | inl small ↦ rw small (
      ap (λ a. a ∷ (48 + n) ∷ []) (omega (arith, ltb→lt n 10 small))
      ∙ ap (λ b. (48 + n / 10) ∷ b ∷ []) (omega (arith, ltb→lt n 10 small)))
  | inr large ↦ large_part n h large
]
  where
    large_part : (n : ℕ) → n < 100 → ltb n 10 ≡ false → part n ≡ two_digits n
    large_part zero h large = cc
    large_part (suc k) h large =
        let short : ltb (suc k / 10) 10 ≡ true = ground arith in rw (large, short) refl

hms-clock_time : (h m s : ℕ) → h < 24 → m < 60 → s < 60 → hms h m s ≡ clock_time h m s
hms-clock_time h m s hh hm hs = cc (
  part_digits h (omega (arith, hh)),
  part_digits m (omega (arith, hm)),
  part_digits s (omega (arith, hs)),
)

clock-if :
    (d h m s : ℕ)
    → (if ltb 0 d then to_string d ++ codes "d " ++ clock_time h m s else clock_time h m s)
      ≡ clock d h m s
clock-if zero h m s = refl
clock-if (suc d) h m s = ground arith

-- Every number of seconds is written as the days, hours below 24, minutes below 60 and seconds below
-- 60 that add up to it: the days in decimals and only if there are any, the others in two digits.
pub format_duration-clock :
    (n : ℕ)
    → (d : ℕ) × (h : ℕ) × (m : ℕ) × (s : ℕ) × (n ≡ ((d * 24 + h) * 60 + m) * 60 + s)
      × (h < 24)
      × (m < 60)
      × (s < 60)
      × (format_duration (some (pos n)) ≡ clock d h m s)
unfolding format_duration
format_duration-clock n = (
  n / 86_400,
  n % 86_400 / 3_600,
  n % 3_600 / 60,
  n % 60,
  omega arith,
  hours,
  minutes,
  seconds,
  rw (hms-clock_time (n % 86_400 / 3_600) (n % 3_600 / 60) (n % 60) hours minutes seconds)
      (clock-if (n / 86_400) (n % 86_400 / 3_600) (n % 3_600 / 60) (n % 60)),
)
  where
    hours : n % 86_400 / 3_600 < 24
    hours = omega arith

    minutes : n % 3_600 / 60 < 60
    minutes = omega arith

    seconds : n % 60 < 60
    seconds = omega arith

status-cases : (st : SessionStatus) → (st ≡ ongoing) ⊎ (st ≡ ended)
status-cases ongoing = inl refl
status-cases ended = inr refl

-- The sessions of the tab of ongoing ones and of the tab of ended ones are together as many as all
-- sessions, and each tab shows only sessions of its status.
pub filtered_sessions-partition :
    (l : List PeerSession)
    → (length (filtered_sessions (only ongoing) l) + length (filtered_sessions (only ended) l)
        ≡ length (filtered_sessions all_sessions l))
      × All (λ s. s.status ≡ ongoing) (filtered_sessions (only ongoing) l)
      × All (λ s. s.status ≡ ended) (filtered_sessions (only ended) l)
unfolding filtered_sessions
filtered_sessions-partition [] = (refl, tt, tt)
filtered_sessions-partition (s ∷ l) =
    let (n, a, b) = filtered_sessions-partition l in
    elim (status-cases s.status) [
      | inl h ↦ rw h (omega arith, (refl, a), b)
      | inr h ↦ rw h (omega arith, a, (refl, b))
    ]

floor_thousandth-pos : (a : ℤ) → pos_part (floor_thousandth a) ≡ pos_part a / 1000
floor_thousandth-pos (pos n) = refl
floor_thousandth-pos (negsuc n) = refl

-ℤ_mono : (a b c : ℤ) → a ≤ℤ b → pos_part (a -ℤ c) ≤ pos_part (b -ℤ c)
unfolding ◌-ℤ◌
-ℤ_mono a b c h = ground arith

-- The seconds of a duration; 0 for one that is not known.
abbrev pub seconds_of : Option ℤ → ℕ
seconds_of none = 0
seconds_of (some n) = pos_part n

module _ (time_of : Text → Option ℤ) where
  elapsed_mono :
      (start : Option ℤ) (a b : ℤ)
      → a ≤ℤ b
      → seconds_of (elapsed start (some a)) ≤ seconds_of (elapsed start (some b))
  unfolding elapsed
  elapsed_mono none a b h = omega arith
  elapsed_mono (some start) a b h =
      let step = -ℤ_mono a b start h in
      rw (floor_thousandth-pos (a -ℤ start), floor_thousandth-pos (b -ℤ start)) (omega arith)

  duration_mono :
      (start : Option ℤ) (d : Option Text) (now later : ℤ)
      → now ≤ℤ later
      → seconds_of (elapsed start (end_of time_of d now))
        ≤ seconds_of (elapsed start (end_of time_of d later))
  unfolding end_of
  duration_mono start none now later h = elapsed_mono start now later h
  duration_mono start (some []) now later h = elapsed_mono start now later h
  duration_mono start (some (c ∷ t)) now later h = omega arith

  end_of_recorded :
      (d : Option Text) (c : ℕ) (t : Text) (now later : ℤ)
      → d ≡ some (c ∷ t)
      → end_of time_of d now ≡ end_of time_of d later
  unfolding end_of
  end_of_recorded d c t now later e = rw e refl

  -- The duration of a session never shrinks while the clock of the dialog goes on, and that of one
  -- whose end is recorded does not depend on the clock at all.
  session_seconds_mono :
      (s : PeerSession) (now later : ℤ)
      → now ≤ℤ later
      → (seconds_of (session_seconds time_of s now) ≤ seconds_of (session_seconds time_of s later))
        × ((c : ℕ) (t : Text)
            → s.disconnected_at ≡ some (c ∷ t)
            → session_seconds time_of s now ≡ session_seconds time_of s later)
  unfolding session_seconds
  session_seconds_mono s now later h = (
    duration_mono (time_of s.connected_at) s.disconnected_at now later h,
    λ c t e.
        ap (elapsed (time_of s.connected_at)) (end_of_recorded s.disconnected_at c t now later e),
  )
