-- ===== src/Subscriptions/Dates.antt =====
-- The calendar of Python's `datetime.date`: dates of the Gregorian calendar from year 1, without the
-- bound of year 9999.
use clean.Base.{
  ℕ, zero, suc, ◌+◌, ◌-◌, ◌*◌, ◌/◌, ◌%◌, ◌≤◌, ◌<◌, ◌≡◌, ◌⊎◌, refl, Bool, true, false, not, ◌&&◌,
  ◌||◌, ltb, ◌==◌, if◌then◌else◌, any, [], ◌∷◌, arith, Bool-cases, inl, inr,
}

pub record Date : Type 0 where
  pub year : ℕ
  pub month : ℕ
  pub day : ℕ

-- `calendar.isleap`
abbrev pub is_leap : ℕ → Bool
is_leap y = (y % 4 == 0) && (not (y % 100 == 0) || (y % 400 == 0))

abbrev leap_day : ℕ → ℕ
leap_day y = if is_leap y then 1 else 0

abbrev mdays : ℕ → ℕ
mdays m = if any (λ k. k == m) (4 ∷ 6 ∷ 9 ∷ 11 ∷ []) then 30 else 31

-- `calendar.monthrange(y, m)[1]`
unfoldable pub days_in_month : ℕ → ℕ → ℕ
days_in_month y m = if m == 2 then 28 + leap_day y else mdays m

-- The days of the first months of a year.
unfoldable pub days_of_months : ℕ → ℕ → ℕ
days_of_months y zero = 0
days_of_months y (suc n) = days_in_month y (suc n) + days_of_months y n

-- The days of a year before a month.
unfoldable pub days_before_month : ℕ → ℕ → ℕ
days_before_month y m = days_of_months y (m - 1)

unfoldable pub days_before_year : ℕ → ℕ
days_before_year y = let p = y - 1 in p * 365 + p / 4 - p / 100 + p / 400

-- `date.toordinal`
unfoldable pub ordinal : Date → ℕ
ordinal d = days_before_year d.year + days_before_month d.year d.month + d.day

-- `date.weekday`, Monday is 0.
unfoldable pub weekday : Date → ℕ
weekday d = (ordinal d + 6) % 7

pub record IsDate (d : Date) : Type 0 where
  pub has_year : 1 ≤ d.year
  pub from_month : 1 ≤ d.month
  pub to_month : d.month ≤ 12
  pub from_day : 1 ≤ d.day
  pub to_day : d.day ≤ days_in_month d.year d.month

-- The day after.
unfoldable pub next_day : Date → Date
next_day d =
    if ltb d.day (days_in_month d.year d.month)
    then record d { day = d.day + 1 }
    else (if ltb d.month 12
        then record { year = d.year; month = d.month + 1; day = 1 }
        else record { year = d.year + 1; month = 1; day = 1 })

-- `d + timedelta(days=n)`
unfoldable pub add_days : ℕ → Date → Date
add_days zero d = d
add_days (suc n) d = add_days n (next_day d)

-- The first month after a date's, as a year and a month.
unfoldable pub next_month : Date → ℕ × ℕ
next_month d = let month = d.month + 1 in (d.year + (month - 1) / 12, (month - 1) % 12 + 1)

-- A year that begins has the days of the year before behind it.
leap_days :
    (p : ℕ) → suc p / 4 + p / 100 + suc p / 400 ≡ p / 4 + suc p / 100 + p / 400 + leap_day (suc p)
leap_days p = ground arith

centuries : (p : ℕ) → p / 100 ≤ p * 365 + p / 4
centuries p = omega arith

year_length :
    (y : ℕ) → 1 ≤ y → days_before_year (y + 1) ≡ days_before_year y + days_before_month y 12 + 31
unfolding days_before_year days_before_month days_of_months days_in_month
year_length zero h = omega (arith, h)
year_length (suc p) h =
    let e = leap_days p in
    elim (Bool-cases (is_leap (suc p))) [
      | inl leap ↦
          let e' = rw leap at e in rw leap (omega (arith, e', centuries p, centuries (suc p)))
      | inr plain ↦
          let e' = rw plain at e in rw plain (omega (arith, e', centuries p, centuries (suc p)))
    ]

month_length :
    (y m : ℕ) → 1 ≤ m → days_before_month y (m + 1) ≡ days_before_month y m + days_in_month y m
unfolding days_before_month days_of_months
month_length y zero h = omega (arith, h)
month_length y (suc n) h =
    let e : suc n + 1 - 1 ≡ suc n = omega arith in
    let e' : suc n - 1 ≡ n = omega arith in rw (e, e') (omega arith)

pub days_in_month-bounds : (y m : ℕ) → (28 ≤ days_in_month y m) × (days_in_month y m ≤ 31)
unfolding days_in_month
days_in_month-bounds y m = ground arith

december :
    (y : ℕ)
    → 1 ≤ y
    → days_before_year (y + 1) + days_before_month (y + 1) 1
      ≡ days_before_year y + days_before_month y 12 + days_in_month y 12
unfolding days_before_month days_of_months days_in_month
december y h = let e = year_length y h in omega (arith, e)

pub next_month-cases :
    (d : Date)
    → d.month ≤ 12
    → ((ltb d.month 12 ≡ true) × (next_month d ≡ (d.year, d.month + 1)))
      ⊎ ((ltb d.month 12 ≡ false) × (d.month ≡ 12) × (next_month d ≡ (d.year + 1, 1)))
unfolding next_month
next_month-cases d h = elim (Bool-cases (ltb d.month 12)) [
  | inl inside ↦
      let less : d.month < 12 = ground arith in
      let y : d.year + (d.month + 1 - 1) / 12 ≡ d.year = omega (arith, less) in
      let m : (d.month + 1 - 1) % 12 + 1 ≡ d.month + 1 = omega (arith, less) in
      inl (inside, rw (y, m) refl)
  | inr outside ↦
      let last : d.month ≡ 12 = ground arith in
      let y : d.year + (d.month + 1 - 1) / 12 ≡ d.year + 1 = omega (arith, last) in
      let m : (d.month + 1 - 1) % 12 + 1 ≡ 1 = omega (arith, last) in
      inr (outside, last, rw (y, m) refl)
]

-- The first day of the next month comes right after the days of a month.
pub next_month-follows :
    (d : Date)
    → IsDate d
    → let (y, m) = next_month d in
      (1 ≤ y)
      × (1 ≤ m)
      × (m ≤ 12)
      × (days_before_year y + days_before_month y m
          ≡ days_before_year d.year
            + days_before_month d.year d.month
            + days_in_month d.year d.month)
next_month-follows d v = elim (next_month-cases d v.to_month) [
  | inl (inside, e) ↦
      let less : d.month < 12 = ground arith in
      rw e (
        v.has_year,
        omega arith,
        omega (arith, less),
        omega (arith, month_length d.year d.month v.from_month),
      )
  | inr (_, last, e) ↦
      rw (e, last) (omega arith, omega arith, omega arith, december d.year v.has_year)
]

abbrev pub date_of : ℕ → ℕ × ℕ → Date
date_of day (y, m) = record { year = y; month = m; day = day }

pub next_day-last :
    (d : Date)
    → d.month ≤ 12
    → ltb d.day (days_in_month d.year d.month) ≡ false
    → next_day d ≡ date_of 1 (next_month d)
unfolding next_day
next_day-last d h last = elim (next_month-cases d h) [
  | inl (inside, e) ↦ rw (last, inside, e) refl
  | inr (outside, _, e) ↦ rw (last, outside, e) refl
]
