-- ===== src/Subscriptions/Advance.antt =====
-- The dates on which a subscription's orders fall.
use clean.Base.{
  ℕ, zero, suc, ◌+◌, ◌-◌, ◌%◌, ◌≤◌, ◌<◌, ◌≡◌, refl, sym, Option, none, some, min, leb, ltb, get_or,
  arith, Bool-cases, inl, inr,
}
use mathlib.Core.Path.{subst}
use clean.Subscriptions.{
  Frequency, weekly, biweekly, monthly, CreateRequest, unless_zero, first_monthly, first_by_weekday,
  first_by, resolve_first_run_date, next_date,
}
use clean.Subscriptions.Dates.{
  Date, days_in_month, ordinal, weekday, IsDate, next_day, add_days, next_month, next_month-follows,
  next_day-last, date_of, days_in_month-bounds,
}

-- A day of the next month.
in_next_month :
    (d : Date) (day : ℕ)
    → IsDate d
    → 1 ≤ day
    → let (y, m) = next_month d in
      day ≤ days_in_month y m
      → IsDate (date_of day (y, m))
        × (ordinal (date_of day (y, m)) + d.day ≡ ordinal d + days_in_month d.year d.month + day)
unfolding ordinal
in_next_month d day v low high =
    let (y1, m1, m12, follows) = next_month-follows d v in
    (
      record { has_year = y1; from_month = m1; to_month = m12; from_day = low; to_day = high },
      omega (arith, follows),
    )

next_day-ordinal :
    (d : Date) → IsDate d → IsDate (next_day d) × (ordinal (next_day d) ≡ ordinal d + 1)
unfolding next_day ordinal
next_day-ordinal d v = elim (Bool-cases (ltb d.day (days_in_month d.year d.month))) [
  | inl inside ↦
      let less : d.day + 1 ≤ days_in_month d.year d.month = ground arith in
      rw inside (
        record {
          has_year = v.has_year;
          from_month = v.from_month;
          to_month = v.to_month;
          from_day = omega arith;
          to_day = less;
        },
        omega arith,
      )
  | inr last ↦
      let is_last : d.day ≡ days_in_month d.year d.month = let t = v.to_day in ground arith in
      let (y, m) = next_month d in
      let long : 1 ≤ days_in_month y m =
        let (t, _) = days_in_month-bounds y m in omega (arith, t) in
      let (w, o) = in_next_month d 1 v (omega arith) long in
      subst (λ e. IsDate e × (ordinal e ≡ ordinal d + 1)) (sym (next_day-last d v.to_month last))
        (w, omega (arith, o, is_last))
]

pub add_days-ordinal :
    (n : ℕ) (d : Date) → IsDate d → IsDate (add_days n d) × (ordinal (add_days n d) ≡ ordinal d + n)
unfolding add_days
add_days-ordinal zero d v = (v, omega arith)
add_days-ordinal (suc n) d v =
    let (w, o) = next_day-ordinal d v in
    let (x, p) = add_days-ordinal n (next_day d) w in (x, omega (arith, o, p))

-- How the next date lies after a date.
pub Follows : Frequency → Option ℕ → Date → Date → Type 0
Follows weekly preferred d d' = ordinal d' ≡ ordinal d + 7
Follows biweekly preferred d d' = ordinal d' ≡ ordinal d + 14
Follows monthly preferred d d' =
    ((d'.year, d'.month) ≡ next_month d)
    × (d'.day ≡ min (unless_zero preferred d.day) (days_in_month d'.year d'.month))

unless_zero-le : (o : Option ℕ) (n : ℕ) → 1 ≤ n → 1 ≤ unless_zero o n
unless_zero-le none n h = h
unless_zero-le (some m) n h = ground arith

-- The next date of a date is a date, later than it by no more than two months: seven days later for a
-- weekly subscription, fourteen for one of two weeks, and for a monthly one it is in the next month, on
-- the preferred day, which is the date's own where none is preferred, or on the last day of a month
-- that is too short.
pub next_date-Follows :
    (f : Frequency) (preferred : Option ℕ) (d : Date)
    → IsDate d
    → let d' = next_date f preferred d in
      IsDate d'
      × (ordinal d < ordinal d')
      × (ordinal d' ≤ ordinal d + 61)
      × Follows f preferred d d'
unfolding next_date Follows
next_date-Follows weekly preferred d v =
    let (w, o) = add_days-ordinal 7 d v in (w, omega (arith, o), omega (arith, o), o)
next_date-Follows biweekly preferred d v =
    let (w, o) = add_days-ordinal 14 d v in (w, omega (arith, o), omega (arith, o), o)
next_date-Follows monthly preferred d v =
    let (y, m) = next_month d in
    let some_day = unless_zero-le preferred d.day v.from_day in
    let (long, short) = days_in_month-bounds y m in
    let (_, short') = days_in_month-bounds d.year d.month in
    let (w, o) =
      in_next_month d (min (unless_zero preferred d.day) (days_in_month y m)) v
        (omega (arith, some_day, long)) (omega arith) in
    (
      w,
      omega (arith, o, v.to_day, some_day, long),
      omega (arith, o, v.from_day, short, short'),
      (refl, refl),
    )

-- How the first date lies after the start.
pub StartsBy : Frequency → CreateRequest → Date → Type 0
StartsBy monthly q d =
    d.day
    ≡ min (unless_zero q.preferred_day_of_month q.start_date.day) (days_in_month d.year d.month)
StartsBy weekly q d =
    (weekday d ≡ get_or q.preferred_weekday (weekday q.start_date))
    × (ordinal d < ordinal q.start_date + 7)
StartsBy biweekly q d =
    (weekday d ≡ get_or q.preferred_weekday (weekday q.start_date))
    × (ordinal d < ordinal q.start_date + 7)

first_by_weekday-Starts :
    (q : CreateRequest)
    → IsDate q.start_date
    → get_or q.preferred_weekday (weekday q.start_date) < 7
    → let d = first_by_weekday q in
      IsDate d
      × (ordinal q.start_date ≤ ordinal d)
      × (weekday d ≡ get_or q.preferred_weekday (weekday q.start_date))
      × (ordinal d < ordinal q.start_date + 7)
unfolding first_by_weekday weekday
first_by_weekday-Starts q v target =
    let n = (get_or q.preferred_weekday (weekday q.start_date) + 7 - weekday q.start_date) % 7 in
    let (w, o) = add_days-ordinal n q.start_date v in
    (w, omega (arith, o), omega (arith, o, target), omega (arith, o))

first_monthly-Starts :
    (q : CreateRequest)
    → IsDate q.start_date
    → let d = first_monthly q in
      IsDate d
      × (ordinal q.start_date ≤ ordinal d)
      × (d.day
          ≡ min
              (unless_zero q.preferred_day_of_month q.start_date.day)
              (days_in_month d.year d.month))
unfolding first_monthly ordinal
first_monthly-Starts q v =
    let start = q.start_date in
    let day = unless_zero q.preferred_day_of_month start.day in
    elim (Bool-cases (leb start.day day)) [
      | inl here ↦
          let late : start.day ≤ day = ground arith in
          rw here (
            record {
              has_year = v.has_year;
              from_month = v.from_month;
              to_month = v.to_month;
              from_day = omega (arith, late, v.from_day, v.to_day);
              to_day = omega arith;
            },
            omega (arith, late, v.to_day),
            refl,
          )
      | inr passed ↦
          let (y, m) = next_month start in
          let some_day = unless_zero-le q.preferred_day_of_month start.day v.from_day in
          let (long, _) = days_in_month-bounds y m in
          let (w, o) =
            in_next_month start (min day (days_in_month y m)) v (omega (arith, some_day, long))
              (omega arith) in
          rw passed (w, omega (arith, o, v.to_day), refl)
    ]

target_weekday : (o : Option ℕ) (d : Date) → get_or o 0 < 7 → get_or o (weekday d) < 7
unfolding weekday
target_weekday none d h = omega arith
target_weekday (some w) d h = h

first_by-StartsBy :
    (f : Frequency) (q : CreateRequest)
    → IsDate q.start_date
    → get_or q.preferred_weekday 0 < 7
    → IsDate (first_by f q)
      × (ordinal q.start_date ≤ ordinal (first_by f q))
      × StartsBy f q (first_by f q)
unfolding first_by StartsBy
first_by-StartsBy monthly q v h = first_monthly-Starts q v
first_by-StartsBy weekly q v h =
    let (w, o, on, near) =
      first_by_weekday-Starts q v (target_weekday q.preferred_weekday q.start_date h) in
    (w, o, (on, near))
first_by-StartsBy biweekly q v h =
    let (w, o, on, near) =
      first_by_weekday-Starts q v (target_weekday q.preferred_weekday q.start_date h) in
    (w, o, (on, near))

-- The first date of a subscription is a date, and not before its start: on the preferred weekday
-- within a week from the start, and for a monthly subscription on the preferred day of a month, or on
-- the last of a month that is too short. Where nothing is preferred, these are the start's own.
pub resolve_first_run_date-StartsBy :
    (q : CreateRequest)
    → IsDate q.start_date
    → get_or q.preferred_weekday 0 < 7
    → let d = resolve_first_run_date q in
      IsDate d × (ordinal q.start_date ≤ ordinal d) × StartsBy q.frequency q d
unfolding resolve_first_run_date
resolve_first_run_date-StartsBy q v h = first_by-StartsBy q.frequency q v h
