-- ===== src/Share/Stats.antt =====
-- ui/src/features/share/components/peer-stats-card.tsx. `time_of` is `new Date(t).getTime()`, in
-- milliseconds, and `none` is `NaN`. The quotient is taken exactly; that of floating-point numbers
-- has the same ceiling up to 2 ^ 26 days.
use wgpanelne.Prelude.{
  ℕ, suc, ◌+◌, ◌*◌, ◌/◌, ◌≤◌, ◌<◌, ◌≡◌, ◌↔◌, refl, Bool, false, Option, none, some, [], ◌∷◌, ◌++◌,
  if◌then◌else◌, arith,
}
use wgpanelne.Prelude.Int.{ℤ, pos, negsuc, sub_ℕ, ◌-ℤ◌, pos_part, neg_part}
use wgpanelne.Js.Strings.{Text, codes, truthy}
use wgpanelne.Js.Decimal.{to_string}

pub record PeerStats : Type 0 where
  pub name : Text
  pub expire_time : Option Text
  pub traffic_limit : Option Text
  pub download_usage : Text
  pub upload_usage : Text
  pub total_usage : Text
  pub usage_percent : Option Text
  pub is_online : Bool

-- `1000 * 60 * 60 * 24`
abbrev pub day : ℕ
day = 86_400_000

-- `Math.ceil(n / day)`
unfoldable pub ceil_days : ℤ → ℤ
ceil_days (pos n) = pos ((n + 86_399_999) / 86_400_000)
ceil_days (negsuc n) = sub_ℕ 0 ((n + 1) / 86_400_000)

ceil_days_upper :
    (x : ℤ) → pos_part x + neg_part (ceil_days x) * day ≤ pos_part (ceil_days x) * day + neg_part x
unfolding ceil_days
ceil_days_upper (pos n) = omega arith
ceil_days_upper (negsuc n) = ground arith

ceil_days_lower :
    (x : ℤ)
    → pos_part (ceil_days x) * day + neg_part x < pos_part x + neg_part (ceil_days x) * day + day
unfolding ceil_days
ceil_days_lower (pos n) = omega arith
ceil_days_lower (negsuc n) = ground arith

ceil_days_sign : (x : ℤ) → (pos_part (ceil_days x) ≡ 0) ↔ (pos_part x ≡ 0)
unfolding ceil_days
ceil_days_sign (pos n) = (λ h. omega (arith, h), λ h. omega (arith, h))
ceil_days_sign (negsuc n) = (λ h. refl, λ h. ground arith)

-- The time between two dates, if both can be read.
abbrev pub days_between : Option ℤ → ℤ → Option ℤ
days_between none now = none
days_between (some t) now = some (ceil_days (t -ℤ now))

module _ (time_of : Text → Option ℤ) where
  unfoldable pub remaining_days : Option Text → ℤ → Option ℤ
  remaining_days none now = some (pos 0)
  remaining_days (some t) now = if truthy t then days_between (time_of t) now else some (pos 0)

-- A number in a template literal.
unfoldable pub shown_number : Option ℤ → Text
shown_number none = codes "NaN"
shown_number (some (pos n)) = to_string n
shown_number (some (negsuc n)) = b'-' ∷ to_string (suc n)

abbrev pub truthy_option : Option Text → Bool
truthy_option none = false
truthy_option (some t) = truthy t

-- `${x}` where `x` may be `null`.
abbrev pub or_null : Option Text → Text
or_null none = codes "null"
or_null (some t) = t

-- `stats?.field ?? 0` in a template literal.
abbrev pub usage : Option PeerStats → (PeerStats → Text) → Text
usage none f = codes "0"
usage (some s) f = f s

pub record StatsCard : Type 0 where
  pub status : Text
  pub traffic_limit : Text
  pub expiration : Text
  pub download : Text
  pub upload : Text
  pub total : Text
  pub progress : Option Text

pub data StatsBody : Type 0 where
  stats_skeleton : StatsBody
  stats_shown : StatsCard → StatsBody

abbrev pub field_of : Option PeerStats → (PeerStats → Option Text) → Option Text
field_of none f = none
field_of (some s) f = f s

abbrev pub status_text : Option PeerStats → Text
status_text none = codes "Offline"
status_text (some s) = if s.is_online then codes "Online" else codes "Offline"

module _ (time_of : Text → Option ℤ) where
  unfoldable pub stats_card : Bool → Option PeerStats → ℤ → StatsBody
  unfolding remaining_days
  stats_card is_loading stats now =
      let limit = field_of stats (λ s. s.traffic_limit) in
      let percent = or_null (field_of stats (λ s. s.usage_percent)) in
      let expire = field_of stats (λ s. s.expire_time) in
      if is_loading
      then stats_skeleton
      else stats_shown (record {
        status = status_text stats;
        traffic_limit =
            if truthy_option limit then or_null limit ++ codes " GB" else codes "Unlimited";
        expiration =
            if truthy_option expire
            then or_null expire
              ++ codes " ("
              ++ shown_number (remaining_days time_of expire now)
              ++ codes " Days)"
            else codes "Active";
        download = usage stats (λ s. s.download_usage) ++ codes " GB";
        upload = usage stats (λ s. s.upload_usage) ++ codes " GB";
        total =
            usage stats (λ s. s.total_usage)
            ++ codes " GB "
            ++ (if truthy_option limit then codes "(" ++ percent ++ codes "%)" else []);
        progress = if truthy_option limit then some percent else none;
      })

  -- The days that remain are the least number of whole days that reaches the date at which the peer
  -- expires, so less than a day too many; and they are none or negative exactly when that date is
  -- not in the future.
  pub remaining_days_bounds :
      (c : ℕ) (t : Text) (at now : ℤ)
      → time_of (c ∷ t) ≡ some at
      → (d : ℤ) × (remaining_days time_of (some (c ∷ t)) now ≡ some d)
        × (pos_part (at -ℤ now) + neg_part d * day ≤ pos_part d * day + neg_part (at -ℤ now))
        × (pos_part d * day + neg_part (at -ℤ now) < pos_part (at -ℤ now) + neg_part d * day + day)
        × ((pos_part d ≡ 0) ↔ (pos_part (at -ℤ now) ≡ 0))
  unfolding remaining_days
  remaining_days_bounds c t at now h = (
    ceil_days (at -ℤ now),
    rw h refl,
    ceil_days_upper (at -ℤ now),
    ceil_days_lower (at -ℤ now),
    ceil_days_sign (at -ℤ now),
  )
