-- ===== src/Subscriptions/Scenarios.antt =====
-- Two weekly subscriptions whose orders would start at nine o'clock of the same day, with one team.
use clean.Base.{
  ℕ, ◌+◌, ◌*◌, ◌/◌, ◌≤◌, ◌<◌, ◌≡◌, ◌⊎◌, refl, ap, true, false, List, [], ◌∷◌, none, some, put,
  empty, any, keep, length, All, Result, ok, err, ◌==◌, arith,
}
use clean.Bookings.{
  Calendar, minutes, create_booking, insert, new_booking, is_slot_available, generate_slots,
  slots_in, slots_from, blocked_windows, day_window, window_of, in_window, is_excluded, touches,
  blocked_by, blacked_out, conflicts, slot_taken,
}
use clean.Invoices.{
  create_invoice_from_order, generate_invoice_number, add_items, add_line, calculate_tax,
  is_taxable_rate, rate_basis, new_invoice, charge_order,
}
use clean.Subscriptions.Dates.{Date, IsDate, ordinal, add_days, next_day, days_in_month}
use clean.Subscriptions.{
  active, weekly, monthly, CreateRequest, Subscription, Store, Error, booking_error, Environment,
  GenerationResult, advanced, next_date, is_due, is_due_id, is_order, invoice_items, create_order,
  serve, serve_all, generate_due_orders, resolve_first_run_date,
}
use clean.Subscriptions.Advance.{
  Follows, next_date-Follows, StartsBy, resolve_first_run_date-StartsBy,
}
use clean.Subscriptions.Served.{Unique}
use clean.Subscriptions.Generated.{Distinct, IsMovedOn, generate_due_orders-served}
use clean.Subscriptions.Runs.{Call, create, update, generate, run, run-Unique}
use clean.Subscriptions.Blocked.{IsFirst, runs, blocked_subscription_stops}

-- The end of a month that is followed by a shorter one.
abbrev end_of_january : Date
end_of_january = record { year = 2024; month = 1; day = 31 }

january-IsDate : IsDate end_of_january
unfolding days_in_month
january-IsDate = record {
  has_year = omega arith;
  from_month = omega arith;
  to_month = omega arith;
  from_day = omega arith;
  to_day = omega arith;
}

next_date-Follows_example :
    let d = next_date monthly (some 31) end_of_january in
    IsDate d
    × (ordinal end_of_january < ordinal d)
    × (ordinal d ≤ ordinal end_of_january + 61)
    × Follows monthly (some 31) end_of_january d
next_date-Follows_example = next_date-Follows monthly (some 31) end_of_january january-IsDate

abbrev request : CreateRequest
request = record {
  frequency = weekly;
  start_date = end_of_january;
  preferred_weekday = some 0;
  preferred_day_of_month = none;
  base_price = 12_000;
}

resolve_first_run_date-StartsBy_example :
    let d = resolve_first_run_date request in
    IsDate d × (ordinal end_of_january ≤ ordinal d) × StartsBy weekly request d
resolve_first_run_date-StartsBy_example =
    resolve_first_run_date-StartsBy request january-IsDate (omega arith)

-- Times of one month, whose days begin at midnight.
abbrev calendar : Calendar
calendar = record {
  local_date = λ t. t / minutes 1440;
  weekday = λ date. 0;
  at = λ date time. date * minutes 1440 + time;
}

abbrev environment : Environment
environment = record {
  calendar = calendar;
  team = 1;
  decision = λ x d. record { required = false; deposit_cents = none; is_high_risk = false };
  booking_id = λ k d. k * 100 + d.day;
  invoice_id = λ k d. k * 100 + d.day;
  description = λ x. 0;
  addon_items = λ booking. [];
  year = 2024;
  due_date = none;
  currency = 1;
  start_of_day = λ d. d.day * minutes 1440 + minutes 540;
  utc_date = λ t. record { year = 2024; month = 1; day = t / minutes 1440 };
}

abbrev weekly_at : ℕ → ℕ → Subscription
weekly_at k day = record {
  subscription_id = k;
  client_id = k;
  status = active;
  status_reason = none;
  frequency = weekly;
  start_date = record { year = 2024; month = 1; day = 1 };
  next_run_at = day * minutes 1440 + minutes 540;
  preferred_weekday = none;
  preferred_day_of_month = none;
  base_price = 12_000;
}

-- The second subscription is due on a day of one's choice.
abbrev two : ℕ → Store
two day = record {
  ids = 1 ∷ 2 ∷ [];
  subscriptions = put 1 (weekly_at 1 8) (put 2 (weekly_at 2 day) empty);
  orders = [];
  bookings = record {
    bookings = [];
    teams = 1 ∷ [];
    working_hours = λ team day. none;
    blackouts = [];
  };
  invoices = record { invoices = empty; payments = []; last_number = empty };
}

abbrev ninth : ℕ
ninth = 9 * minutes 1440

abbrev after_run : Store
after_run = (generate_due_orders environment ninth (two 9)).0

two-Distinct : Distinct (1 ∷ 2 ∷ [])
unfolding Distinct
two-Distinct = (refl, (refl, tt))

run_counts :
    (generate_due_orders environment ninth (two 9)).1
    ≡ ok (record { processed = 1; created_orders = 1 })
unfolding generate_due_orders serve_all serve create_order create_booking insert new_booking is_due
    invoice_items is_slot_available generate_slots slots_in slots_from blocked_windows day_window
    window_of in_window is_excluded touches blocked_by blacked_out conflicts
    create_invoice_from_order generate_invoice_number add_items add_line calculate_tax
    is_taxable_rate rate_basis new_invoice charge_order
run_counts = refl

abbrev result : GenerationResult
result = record { processed = 1; created_orders = 1 }

eighth-IsDate : IsDate (environment.utc_date (weekly_at 1 8).next_run_at)
unfolding days_in_month
eighth-IsDate = record {
  has_year = omega arith;
  from_month = omega arith;
  to_month = omega arith;
  from_day = omega arith;
  to_day = omega arith;
}

generate_due_orders-served_example :
    ((x' : Subscription) × (after_run.subscriptions 1 ≡ some x')
      × (((is_due ninth (weekly_at 1 8) ≡ true)
            × IsMovedOn environment after_run.orders (weekly_at 1 8) x')
          ⊎ ((is_due ninth (weekly_at 1 8) ≡ false) × (x' ≡ weekly_at 1 8))))
    × (length after_run.orders ≡ 1)
    × (1 ≡ length (keep (is_due_id ninth (two 9).subscriptions) (two 9).ids))
generate_due_orders-served_example =
    generate_due_orders-served environment ninth (two 9) after_run result 1 (weekly_at 1 8)
      two-Distinct refl refl refl eighth-IsDate
      (ap (λ (r : Result Error GenerationResult). (after_run, r)) run_counts)

none_before : Unique []
unfolding Unique
none_before = tt

abbrev history : List Call
history =
    create 3 3 request
    ∷ generate environment ninth
    ∷ update 1 (record {
      status = none;
      status_reason = none;
      frequency = none;
      preferred_weekday = none;
      preferred_day_of_month = none;
      next_run_at = some (8 * minutes 1440);
    })
    ∷ generate environment (ninth + 1)
    ∷ []

run-Unique_example : Unique (run environment.start_of_day history (two 9)).orders
run-Unique_example = run-Unique environment.start_of_day history (two 9) none_before

-- What a run leaves at which both are due: the second is refused, since the first has the team.
abbrev blocked : Store
blocked = (generate_due_orders environment ninth (two 8)).0

blocked_facts :
    (blocked.subscriptions 2 ≡ some (weekly_at 2 8))
    × (any (is_order 2 (environment.utc_date (weekly_at 2 8).next_run_at)) blocked.orders ≡ false)
    × (any (λ t. t == 1) blocked.bookings.teams ≡ true)
    × (is_slot_available calendar
          (environment.start_of_day (environment.utc_date (weekly_at 2 8).next_run_at))
          120
          blocked.bookings
          1
          none
        ≡ false)
    × IsFirst 2 blocked (ninth ∷ (ninth + 1) ∷ [])
unfolding IsFirst generate_due_orders serve_all serve create_order create_booking insert new_booking
    is_due invoice_items is_slot_available generate_slots slots_in slots_from blocked_windows
    day_window window_of in_window is_excluded touches blocked_by blacked_out conflicts
    create_invoice_from_order generate_invoice_number add_items add_line calculate_tax
    is_taxable_rate rate_basis new_invoice charge_order advanced next_date add_days next_day
    days_in_month
blocked_facts = (refl, refl, refl, refl, (([], refl), (([], refl), tt)))

blocked_subscription_stops_example :
    ((runs environment (ninth ∷ (ninth + 1) ∷ []) blocked).0 ≡ blocked)
    × All
        (λ (r : Result Error GenerationResult). r ≡ err (booking_error slot_taken))
        (runs environment (ninth ∷ (ninth + 1) ∷ []) blocked).1
blocked_subscription_stops_example =
    blocked_subscription_stops environment 2 (weekly_at 2 8) blocked (ninth ∷ (ninth + 1) ∷ [])
      blocked_facts.0 blocked_facts.1 blocked_facts.2 blocked_facts.3 blocked_facts.4
