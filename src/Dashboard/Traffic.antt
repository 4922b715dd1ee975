-- ===== src/Dashboard/Traffic.antt =====
-- ui/src/features/dashboard/components/traffic-chart.tsx: the range that is chosen, and what is drawn.
use wgpanelne.Prelude.{
  ℕ, ◌≡◌, refl, ap, ◌∙◌, Bool, true, false, ◌||◌, Option, none, some, List, [], ◌∷◌, ◌++◌, ◌==◌,
  if◌then◌else◌, length, arith,
}
use wgpanelne.Prelude.Int.{ℤ, pos}
use wgpanelne.Js.Strings.{Text, codes}
use wgpanelne.Js.Decimal.{to_string, is_digit, parse_int}
use wgpanelne.Js.Decimal.Laws.{AllDigit, to_string-AllDigit, parse_int-to_string}

-- `s.replace('d', '')`
unfoldable pub without_d : Text → Text
without_d [] = []
without_d (c ∷ s) = let rest = without_d s in if c == b'd' then s else c ∷ rest

-- `parseInt(timeRange.replace('d', ''))`
unfoldable pub range_number : Text → Option ℤ
range_number time_range = parse_int (without_d time_range)

-- The ranges of the menu; the first one chosen is the last of them.
abbrev pub time_ranges : List Text
time_ranges = codes "90d" ∷ codes "30d" ∷ codes "7d" ∷ []

-- One day of the answer; the numbers come as texts.
pub record Usage : Type 0 where
  pub date : Text
  pub download : Text
  pub upload : Text
  pub total : Text

pub data Chart : Type 0 where
  chart_skeleton : Chart
  no_traffic : Chart
  areas : List Text → List Usage → Chart

-- `dailyTrafficUsageData ?? []`
abbrev pub filtered_data : Option (List Usage) → List Usage
filtered_data none = []
filtered_data (some l) = l

abbrev pub series : List Text
series = codes "upload" ∷ codes "download" ∷ codes "total" ∷ []

unfoldable pub traffic_chart : Bool → Bool → Option (List Usage) → Chart
traffic_chart is_loading is_fetching data' =
    if is_loading || is_fetching
    then chart_skeleton
    else if length (filtered_data data') == 0
    then no_traffic
    else areas series (filtered_data data')

digit-ne_d : (c : ℕ) → is_digit c ≡ true → (c == b'd') ≡ false
unfolding is_digit
digit-ne_d c h = ground (arith, h)

without_d-digits : (t : Text) → AllDigit t → without_d (t ++ codes "d") ≡ t
unfolding without_d
without_d-digits [] h = refl
without_d-digits (c ∷ t) (h, hs) = rw (digit-ne_d c h) (ap (λ s. c ∷ s) (without_d-digits t hs))

-- A range that is written as a number of days and a `d` is read back as that number.
range_number-to_string : (n : ℕ) → range_number (to_string n ++ codes "d") ≡ some (pos n)
unfolding range_number
range_number-to_string n =
    ap parse_int (without_d-digits (to_string n) (to_string-AllDigit n)) ∙ parse_int-to_string n
