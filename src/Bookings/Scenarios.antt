-- ===== src/Bookings/Scenarios.antt =====
-- A team with one booking at ten o'clock of its first day.
use clean.Base.{
  ℕ, ◌+◌, ◌*◌, ◌≤◌, ◌≡◌, All, inl, refl, true, false, List, [], ◌∷◌, none, some, ◌==◌, arith,
}
use clean.Bookings.{
  Status, pending, confirmed, cancelled, awaiting, Booking, Store, Calendar, minutes, day_window,
  window_of, in_window, is_excluded, touches, blocked_by, blacked_out, blocked_windows, conflicts,
  slots_from, slots_in, generate_slots, is_slot_available, may_become,
  assert_valid_booking_transition, replace, find, write, Decision, new_booking, insert,
  create_booking, reschedule_booking, cancel_unless, cancel_booking, deposit_paid, write_found,
  mark_deposit_paid, is_paid_through, same_key,
}
use clean.Bookings.Available.{IsOutside, IsClear, is_slot_available-IsClear}
use clean.Bookings.Overlaps.{AllApart}
use clean.Bookings.Runs.{
  Call, create_call, reschedule_call, cancel_call, paid_call, run, perform, by_id, on_row,
  is_orderly, all_orderly, IsValid,
}
use clean.Bookings.Apart.{orderly_run-IsValid}
use clean.Bookings.Revival.{Compete, mark_deposit_paid_revives}

-- Local time is the time that is kept, in days of 24 hours.
abbrev calendar : Calendar
calendar = record {
  local_date = λ t. 0;
  weekday = λ date. date;
  at = λ date time. date * minutes 1440 + time;
}

abbrev low_risk : Decision
low_risk = record { required = true; deposit_cents = some 5000; is_high_risk = false }

abbrev at_ten : Booking
at_ten = record {
  booking_id = 1;
  team_id = 1;
  lead_id = none;
  starts_at = minutes 600;
  duration_minutes = 120;
  planned_minutes = some 120;
  status = pending;
  is_high_risk = false;
  deposit_required = true;
  deposit_cents = some 5000;
  deposit_status = some awaiting;
  checkout_session_id = some 31;
  payment_intent_id = none;
  created_at = 0;
  actual_duration_minutes = none;
  actual_seconds = none;
}

abbrev before : Store
before = record {
  bookings = at_ten ∷ [];
  teams = 1 ∷ [];
  working_hours = λ team day. none;
  blackouts = [];
}

abbrev history : List (ℕ × Call)
history =
    (1, create_call 2 1 (minutes 780) 60 none low_risk)
    ∷ (2, create_call 3 1 (minutes 690) 60 none low_risk)
    ∷ (3, paid_call (some 31) none)
    ∷ (4, reschedule_call 2 (minutes 840) 90)
    ∷ (5, cancel_call 1)
    ∷ []

before-IsValid : IsValid before
unfolding AllApart
before-IsValid = record { all_short = (omega arith, tt); all_apart = (tt, tt) }

history_orderly : all_orderly calendar history before ≡ true
unfolding all_orderly is_orderly perform by_id on_row find create_booking insert new_booking
    is_slot_available generate_slots slots_in slots_from blocked_windows day_window window_of
    in_window is_excluded touches blocked_by blacked_out conflicts is_paid_through same_key
    mark_deposit_paid write_found write replace deposit_paid reschedule_booking
history_orderly = refl

orderly_run-IsValid_example : IsValid (run calendar history before)
orderly_run-IsValid_example =
    orderly_run-IsValid calendar history before history_orderly before-IsValid

-- The first slot after the booking, half an hour after its end.
half_past_twelve : is_slot_available calendar (minutes 750) 60 before 1 none ≡ true
unfolding is_slot_available generate_slots slots_in slots_from blocked_windows day_window window_of
    in_window is_excluded touches blocked_by blacked_out conflicts
half_past_twelve = refl

is_slot_available-IsClear_example :
    (minutes 540 ≤ minutes 750)
    × (minutes 750 + minutes 60 ≤ minutes 1080)
    × All (IsOutside 1 (minutes 750) (minutes 750 + minutes 60)) before.blackouts
    × All (IsClear 1 none (minutes 750) (minutes 750 + minutes 60)) before.bookings
is_slot_available-IsClear_example =
    is_slot_available-IsClear calendar (minutes 750) 60 before 1 none half_past_twelve

-- A cancelled booking, whose slot is given to another before its payment is reported.
abbrev was_cancelled : Booking
was_cancelled = record at_ten { status = cancelled }

abbrev given_away : Booking
given_away = new_booking 2 2 1 (minutes 600) 120 none low_risk

abbrev after_cancelling : Store
after_cancelling =
    run calendar ((1, cancel_call 1) ∷ (2, create_call 2 1 (minutes 600) 120 none low_risk) ∷ [])
      before

after_cancelling_facts :
    (find (is_paid_through (some 31) none) after_cancelling.bookings ≡ some was_cancelled)
    × (find (λ x. x.booking_id == 2) after_cancelling.bookings ≡ some given_away)
    × Compete was_cancelled given_away
unfolding run perform by_id on_row find create_booking insert new_booking cancel_booking
    cancel_unless assert_valid_booking_transition may_become is_slot_available generate_slots
    slots_in slots_from blocked_windows day_window window_of in_window is_excluded touches
    blocked_by blacked_out conflicts is_paid_through same_key write replace
after_cancelling_facts = (
  refl,
  refl,
  record {
    different = refl;
    same_team = refl;
    blocks = refl;
    starts_before = omega arith;
    ends_after = omega arith;
  },
)

mark_deposit_paid_revives_example :
    ((x : Status) → may_become cancelled x ≡ false)
    × (find (λ x. x.booking_id == 1) (mark_deposit_paid (some 31) none after_cancelling).0.bookings
        ≡ some (deposit_paid none was_cancelled))
    × ((deposit_paid none was_cancelled).status ≡ confirmed)
    × (¬ (AllApart (mark_deposit_paid (some 31) none after_cancelling).0.bookings))
unfolding new_booking
mark_deposit_paid_revives_example =
    mark_deposit_paid_revives (some 31) none after_cancelling was_cancelled given_away
      after_cancelling_facts.0 refl (inl refl) after_cancelling_facts.1 after_cancelling_facts.2
