-- ===== src/TimeTracking/Scenarios.antt =====
-- A job of an hour with a break.
use clean.Base.{ℕ, ◌≡◌, refl, true, false, List, [], ◌∷◌, none, some, empty, put, arith, ok}
use clean.TimeTracking.{
  finished, Entry, Booking, Store, Ratio, start_time_tracking, pause_time_tracking,
  resume_time_tracking, finish_time_tracking, elapsed, active_segment, close_active_segment,
  effective_total_seconds, planned_seconds, adopt, minutes_up, new_entry, paused_entry,
  resumed_entry, threshold_value, exceeds, stop, finished_entry, finish_with, needs_reason,
  planned_of, finish_booking, rewrite, close_from, running_seconds, minutes_to_seconds, start_with,
  start_booked, start_first, commit_start, start_committed, pause_with, pause_booking, resume_with,
}
use clean.TimeTracking.Calls.{Call, start_call, pause_call, resume_call, finish_call, run, perform}
use clean.TimeTracking.Periods.{run_periods}
use clean.TimeTracking.Runs.{run-AllValid, AllValid}
use clean.TimeTracking.Overrun.{finish_within_plan, BookedAs}
use clean.TimeTracking.Final.{IsSameWork, finished_is_final}

abbrev booking : Booking
booking = record {
  is_done = false;
  starts_at = 0;
  planned_minutes = some 60;
  duration_minutes = some 60;
  actual_seconds = none;
  actual_duration_minutes = none;
}

abbrev before : Store
before = record { entries = empty; bookings = put 1 booking empty }

abbrev default : Ratio
default = record { numerator = 12; denominator = 10 }

-- Start at 0, a break from 1000 to 1600 seconds, the end at 3700.
abbrev history : List (ℕ × Call)
history =
    (0, start_call 1 (some 9) none)
    ∷ (1_000_000_000, pause_call 1 none)
    ∷ (1_600_000_000, resume_call 1 none)
    ∷ (3_700_000_000, finish_call 1 false none default none)
    ∷ []

run-AllValid_example :
    AllValid 3_700_000_000 (run_periods history before (λ k. [])) (run history before)
run-AllValid_example = run-AllValid history before (omega arith) (λ k. refl)

-- The entry once it is ended.
abbrev ended : Entry
ended = record {
  worker_id = some 9;
  state = finished;
  started_at = 0;
  paused_at = none;
  finished_at = some 3_700_000_000;
  total_seconds = 3100;
  segments = record { start = 0; end = none } ∷ record { start = 1_600_000_000; end = none } ∷ [];
}

abbrev almost : List (ℕ × Call)
almost =
    (0, start_call 1 (some 9) none)
    ∷ (1_000_000_000, pause_call 1 none)
    ∷ (1_600_000_000, resume_call 1 none)
    ∷ []

history_ends : (run history before).entries 1 ≡ some ended
unfolding run perform start_time_tracking pause_time_tracking resume_time_tracking
    finish_time_tracking elapsed active_segment close_active_segment effective_total_seconds
    planned_seconds adopt minutes_up new_entry paused_entry resumed_entry threshold_value exceeds
    stop finished_entry finish_with needs_reason planned_of finish_booking rewrite close_from
    running_seconds minutes_to_seconds start_with start_booked start_first commit_start
    start_committed pause_with pause_booking resume_with
history_ends = refl

almost_ends :
    (finish_time_tracking 1 3_700_000_000 false none default none (run almost before)).1
    ≡ ok (some ended)
unfolding run perform start_time_tracking pause_time_tracking resume_time_tracking
    finish_time_tracking elapsed active_segment close_active_segment effective_total_seconds
    planned_seconds adopt minutes_up new_entry paused_entry resumed_entry threshold_value exceeds
    stop finished_entry finish_with needs_reason planned_of finish_booking rewrite close_from
    running_seconds minutes_to_seconds start_with start_booked start_first commit_start
    start_committed pause_with pause_booking resume_with
almost_ends = refl

-- The booking once the break is over.
abbrev in_progress : Booking
in_progress = record booking { actual_seconds = some 1000; actual_duration_minutes = some 17 }

almost_booked : (run almost before).bookings 1 ≡ some in_progress
unfolding run perform start_time_tracking pause_time_tracking resume_time_tracking elapsed
    active_segment close_active_segment adopt minutes_up new_entry paused_entry resumed_entry
    rewrite close_from start_with start_booked start_first commit_start start_committed pause_with
    pause_booking resume_with
almost_booked = refl

in_progress_planned : planned_seconds in_progress ≡ some 3600
unfolding planned_seconds minutes_to_seconds
in_progress_planned = refl

finish_within_plan_example :
    (ended.state ≡ finished)
    × (exceeds ended.total_seconds 3600 (threshold_value none default) ≡ false)
    × (b' : Booking) × ((finish_time_tracking 1 3_700_000_000 false none default none
            (run almost before)).0.bookings
          1
        ≡ some b')
    × BookedAs ended b'
finish_within_plan_example =
    finish_within_plan 1 3_700_000_000 none default none (run almost before) in_progress 3600 ended
      almost_booked in_progress_planned almost_ends

-- The entry stays as it is through all calls that could change it.
abbrev after : Store
after = record before { entries = put 1 ended empty }

abbrev more_calls : List (ℕ × Call)
more_calls =
    (4_000_000_000, start_call 1 (some 7) none)
    ∷ (4_000_000_001, pause_call 1 none)
    ∷ (4_000_000_002, resume_call 1 none)
    ∷ (4_000_000_003, finish_call 1 true none default none)
    ∷ []

finished_is_final_example :
    (e' : Entry) × ((run more_calls after).entries 1 ≡ some e')
    × (e'.state ≡ finished)
    × IsSameWork ended e'
finished_is_final_example = finished_is_final more_calls after 1 ended refl refl
