-- ===== src/Subscriptions/Schedule.antt =====
-- The dates of a subscription: `_resolve_first_run_date`, `_next_date`, and what creates and changes
-- a subscription, in app/domain/subscriptions/service.py.
use clean.Base.{
  ℕ, ◌+◌, ◌-◌, ◌%◌, Option, none, some, min, ◌==◌, leb, if◌then◌else◌, get_or, ◌or_else◌,
}
use clean.Subscriptions.Dates.{Date, days_in_month, weekday, add_days, next_month}

-- The statuses and frequencies of app/domain/subscriptions/statuses.py.
pub data Status : Type 0 where
  active paused canceled trial incomplete : Status

pub data Frequency : Type 0 where
  weekly biweekly monthly : Frequency

-- `SubscriptionCreateRequest`, as its fields allow it: a weekday is from 0 to 6, a day from 1 to 28.
pub record CreateRequest : Type 0 where
  pub frequency : Frequency
  pub start_date : Date
  pub preferred_weekday : Option ℕ
  pub preferred_day_of_month : Option ℕ
  pub base_price : ℕ

-- `Subscription`
pub record Subscription : Type 0 where
  pub subscription_id : ℕ
  pub client_id : ℕ
  pub status : Status
  pub status_reason : Option ℕ
  pub frequency : Frequency
  pub start_date : Date
  pub next_run_at : ℕ
  pub preferred_weekday : Option ℕ
  pub preferred_day_of_month : Option ℕ
  pub base_price : ℕ

-- Python's truth of a number: `n or m`.
abbrev pub unless_zero : Option ℕ → ℕ → ℕ
unless_zero none m = m
unless_zero (some n) m = if n == 0 then m else n

abbrev clamped : ℕ → ℕ × ℕ → Date
clamped day (y, m) = record { year = y; month = m; day = min day (days_in_month y m) }

-- `_resolve_first_run_date`, by the frequency.
unfoldable pub first_monthly : CreateRequest → Date
first_monthly q =
    let day = unless_zero q.preferred_day_of_month q.start_date.day in
    if leb q.start_date.day day
    then clamped day (q.start_date.year, q.start_date.month)
    else clamped day (next_month q.start_date)

unfoldable pub first_by_weekday : CreateRequest → Date
first_by_weekday q =
    let target = get_or q.preferred_weekday (weekday q.start_date) in
    add_days ((target + 7 - weekday q.start_date) % 7) q.start_date

unfoldable pub first_by : Frequency → CreateRequest → Date
first_by monthly q = first_monthly q
first_by weekly q = first_by_weekday q
first_by biweekly q = first_by_weekday q

unfoldable pub resolve_first_run_date : CreateRequest → Date
resolve_first_run_date q = first_by q.frequency q

-- `_next_date`
unfoldable pub next_date : Frequency → Option ℕ → Date → Date
next_date weekly preferred current = add_days 7 current
next_date biweekly preferred current = add_days 14 current
next_date monthly preferred current =
    clamped (unless_zero preferred current.day) (next_month current)

abbrev default_day : Frequency → Option ℕ → ℕ → Option ℕ
default_day monthly preferred day = preferred or_else some day
default_day _ preferred day = preferred

-- `create_subscription`, given when a working day starts.
unfoldable pub create_subscription : (Date → ℕ) → ℕ → ℕ → CreateRequest → Subscription
create_subscription start_of_day id client q = record {
  subscription_id = id;
  client_id = client;
  status = active;
  status_reason = none;
  frequency = q.frequency;
  start_date = q.start_date;
  next_run_at = start_of_day (resolve_first_run_date q);
  preferred_weekday = q.preferred_weekday;
  preferred_day_of_month = default_day q.frequency q.preferred_day_of_month q.start_date.day;
  base_price = q.base_price;
}

-- `update_subscription_status`
unfoldable pub update_subscription_status : Status → Option ℕ → Subscription → Subscription
update_subscription_status status reason s = record s { status = status; status_reason = reason }

-- `AdminSubscriptionUpdateRequest`
pub record UpdateRequest : Type 0 where
  pub status : Option Status
  pub status_reason : Option ℕ
  pub frequency : Option Frequency
  pub preferred_weekday : Option ℕ
  pub preferred_day_of_month : Option ℕ
  pub next_run_at : Option ℕ

abbrev with_status : Option Status → Option ℕ → Subscription → Subscription
with_status (some status) reason s = update_subscription_status status reason s
with_status none (some reason) s = record s { status_reason = some reason }
with_status none none s = s

abbrev with_weekday : Option ℕ → Subscription → Subscription
with_weekday none s = s
with_weekday (some w) s = record s { preferred_weekday = some w; preferred_day_of_month = none }

abbrev with_day : Option ℕ → Subscription → Subscription
with_day none s = s
with_day (some d) s = record s { preferred_day_of_month = some d; preferred_weekday = none }

-- `update_subscription`
unfoldable pub update_subscription : UpdateRequest → Subscription → Subscription
update_subscription q s =
    let s1 = with_status q.status q.status_reason s in
    let s2 = record s1 { frequency = get_or q.frequency s1.frequency } in
    let s3 = with_day q.preferred_day_of_month (with_weekday q.preferred_weekday s2) in
    record s3 { next_run_at = get_or q.next_run_at s3.next_run_at }
