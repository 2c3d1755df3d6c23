-- ===== src/IsoDate.antt =====
-- Python's `datetime.date`: a calendar day, `date.fromisoformat` with every form that it reads, and
-- `date.isoformat`.
use myorishop.Prelude.{
  ℕ, zero, suc, ◌+◌, ◌-◌, ◌*◌, ◌/◌, ◌%◌, Bool, true, not, ◌&&◌, ◌||◌, Option, none, some, List, [],
  ◌∷◌, ltb, leb, ◌==◌, if◌then◌else◌,
}
use myorishop.Text.{Text, is_digit}

pub record Date : Type 0 where
  pub year : ℕ
  pub month : ℕ
  pub day : ℕ

abbrev pub is_leap : ℕ → Bool
is_leap y = y % 4 == 0 && (not (y % 100 == 0) || y % 400 == 0)

abbrev pub days_in_month : ℕ → ℕ → ℕ
days_in_month y m =
    if m == 2
    then (if is_leap y then 29 else 28)
    else if (m == 4 || m == 6) || (m == 9 || m == 11)
    then 30
    else 31

-- What the constructor `date(year, month, day)` accepts.
abbrev pub is_date : Date → Bool
is_date d =
    (leb 1 d.year && leb d.year 9999)
    && ((leb 1 d.month && leb d.month 12)
        && (leb 1 d.day && leb d.day (days_in_month d.year d.month)))

abbrev checked : Date → Option Date
checked d = if is_date d then some d else none

-- `d < e`
unfoldable pub lt_date : Date → Date → Bool
lt_date d e =
    if ltb d.year e.year
    then true
    else d.year == e.year
      && (if ltb d.month e.month then true else d.month == e.month && ltb d.day e.day)

abbrev digit : ℕ → ℕ
digit c = c - 48

-- Zero-padded decimal digits.
abbrev two_digits : ℕ → Text → Text
two_digits n rest = (48 + n / 10 % 10) ∷ (48 + n % 10) ∷ rest

-- `d.isoformat()`
unfoldable pub isoformat : Date → Text
isoformat d =
    two_digits (d.year / 100)
      (two_digits d.year (b'-' ∷ two_digits d.month (b'-' ∷ two_digits d.day [])))

-- The weekday of 1 January, 0 for Monday.
abbrev jan_first_weekday : ℕ → ℕ
jan_first_weekday y = let p = y - 1 in (p * 365 + p / 4 - p / 100 + p / 400) % 7

-- The month and day of the n-th day, from 0, of a year; the fuel counts the months left.
abbrev nth_day : ℕ → ℕ → ℕ → ℕ → Option Date
nth_day zero y m n = none
nth_day (suc fuel) y m n =
    let rest = nth_day fuel y (m + 1) (n - days_in_month y m) in
    if ltb n (days_in_month y m) then some (record { year = y; month = m; day = n + 1 }) else rest

abbrev year_length : ℕ → ℕ
year_length y = if is_leap y then 366 else 365

-- Day `offset - 3` of year `y`, counted from 1 January; it may fall into a neighbouring year.
abbrev shifted_day : ℕ → ℕ → Option Date
shifted_day y offset =
    if ltb offset 3
    then (if y == 1 then none else nth_day 12 (y - 1) 1 (year_length (y - 1) + offset - 3))
    else if ltb (offset - 3) (year_length y)
    then nth_day 12 y 1 (offset - 3)
    else if y == 9999
    then none
    else nth_day 12 (y + 1) 1 (offset - 3 - year_length y)

-- The day of an ISO week date. Week 1 holds the year's first Thursday.
abbrev week_date : ℕ → ℕ → ℕ → Option Date
week_date y w d =
    let first = jan_first_weekday y in
    let long = first == 3 || (first == 2 && is_leap y) in
    let monday = if leb first 3 then 3 - first else 10 - first in
    if (leb 1 y && leb y 9999)
      && ((leb 1 w && (leb w 52 || (w == 53 && long))) && (leb 1 d && leb d 7))
    then shifted_day y (monday + (w - 1) * 7 + (d - 1))
    else none

abbrev all_of : List ℕ → Bool
all_of [] = true
all_of (c ∷ cs) = is_digit c && all_of cs

abbrev year_of : ℕ → ℕ → ℕ → ℕ → ℕ
year_of a b c d = digit a * 1000 + digit b * 100 + digit c * 10 + digit d

abbrev pair_of : ℕ → ℕ → ℕ
pair_of a b = digit a * 10 + digit b

-- After the year: `-MM-DD`, `MMDD`, `-Www`, `-Www-D`, `Www` or `WwwD`.
abbrev rest_of_date : List ℕ → ℕ → Text → Option Date
rest_of_date y year (a ∷ b ∷ c ∷ []) =
    if a == b'W' && all_of (b ∷ c ∷ y) then week_date year (pair_of b c) 1 else none
rest_of_date y year (a ∷ b ∷ c ∷ d ∷ []) =
    if a == b'W'
    then (if all_of (b ∷ c ∷ d ∷ y) then week_date year (pair_of b c) (digit d) else none)
    else if (a == b'-' && b == b'W') && all_of (c ∷ d ∷ y)
    then week_date year (pair_of c d) 1
    else if all_of (a ∷ b ∷ c ∷ d ∷ y)
    then checked (record { year = year; month = pair_of a b; day = pair_of c d })
    else none
rest_of_date y year (a ∷ b ∷ c ∷ d ∷ e ∷ f ∷ []) =
    if a == b'-'
    then (if b == b'W'
        then (if e == b'-' && all_of (c ∷ d ∷ f ∷ y)
            then week_date year (pair_of c d) (digit f)
            else none)
        else if d == b'-' && all_of (b ∷ c ∷ e ∷ f ∷ y)
        then checked (record { year = year; month = pair_of b c; day = pair_of e f })
        else none)
    else none
rest_of_date y year _ = none

-- `date.fromisoformat(s)`; `none` is its ValueError.
unfoldable pub fromisoformat : Text → Option Date
fromisoformat (a ∷ b ∷ c ∷ d ∷ rest) = rest_of_date (a ∷ b ∷ c ∷ d ∷ []) (year_of a b c d) rest
fromisoformat _ = none

-- `format_ru_date` of app/core.py: `dd.mm.yyyy`, with a year of four digits; what is no date is shown
-- as it is.
unfoldable pub format_ru_date : Text → Text
unfolding fromisoformat
format_ru_date [] = []
format_ru_date (c ∷ cs) = elim (fromisoformat (c ∷ cs)) [
  | none ↦ c ∷ cs
  | some d ↦
      two_digits d.day
        (b'.' ∷ two_digits d.month (b'.' ∷ two_digits (d.year / 100) (two_digits d.year [])))
]
