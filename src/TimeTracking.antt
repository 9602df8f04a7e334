-- ===== src/TimeTracking.antt =====
-- app/domain/time_tracking/service.py
mod Rows
pub mod Segments
pub mod Totals
pub mod Calls
pub mod Periods
pub mod Runs
pub mod Overrun
pub mod Final
mod Scenarios
pub use Rows.*
use clean.Base.{
  ℕ, ◌+◌, ◌-◌, ◌*◌, ◌/◌, Bool, true, false, not, ◌&&◌, ◌||◌, List, [], ◌∷◌, ◌++◌, Option, none,
  some, ltb, leb, ◌==◌, is_some, is_empty, if◌then◌else◌, put, Result, ok, err, ◌or_else◌, get_or,
}
use clean.Base.Int.{ℤ, pos, ◌-ℤ◌}

-- `max(0, int((now - start).total_seconds()))`
pub elapsed : ℕ → ℕ → ℕ
elapsed start now = (now - start) / 1_000_000

-- `_active_segment`: the last one, if it has no end.
pub active_segment : List Segment → Option Segment
active_segment [] = none
active_segment (x ∷ []) = if is_some x.end then none else some x
active_segment (x ∷ y ∷ xs) = active_segment (y ∷ xs)

-- What is stored of closing a segment: its seconds in the total. The code sets the end in the object
-- of the loaded list and assigns a copy of this list, which the column then equals already, so that the
-- segments are not written and keep no end.
close_from : Option Segment → ℕ → Entry → Entry
close_from none now e = e
close_from (some x) now e = record e { total_seconds = e.total_seconds + elapsed x.start now }

-- `_close_active_segment`
pub close_active_segment : ℕ → Entry → Entry
unfolding close_from
close_active_segment now e = close_from (active_segment e.segments) now e

abbrev pub is_running : State → Bool
is_running running = true
is_running _ = false

abbrev pub is_paused : State → Bool
is_paused paused = true
is_paused _ = false

running_seconds : Option Segment → ℕ → ℕ
running_seconds none now = 0
running_seconds (some x) now = elapsed x.start now

-- `_effective_total_seconds`
pub effective_total_seconds : ℕ → Entry → ℕ
unfolding running_seconds
effective_total_seconds now e =
    e.total_seconds
    + (if is_running e.state then running_seconds (active_segment e.segments) now else 0)

minutes_to_seconds : Option ℕ → Option ℕ
minutes_to_seconds none = none
minutes_to_seconds (some m) = some (m * 60)

-- `_planned_seconds`
pub planned_seconds : Booking → Option ℕ
unfolding minutes_to_seconds
planned_seconds b = minutes_to_seconds (b.planned_minutes or_else b.duration_minutes)

-- `if worker_id and not entry.worker_id: entry.worker_id = worker_id`
pub adopt : Option ℕ → Entry → Entry
adopt worker e = record e { worker_id = e.worker_id or_else worker }

-- `math.ceil(total_seconds / 60)`
pub minutes_up : ℕ → ℕ
minutes_up s = (s + 59) / 60

-- The new entry of `start_time_tracking`.
pub new_entry : ℕ → Option ℕ → Entry
new_entry now worker = record {
  worker_id = worker;
  state = running;
  started_at = now;
  paused_at = none;
  finished_at = none;
  total_seconds = 0;
  segments = record { start = now; end = none } ∷ [];
}

-- A call gives back the database, and an entry, `None` or an error. The worker of an entry that is
-- already there is stored also where the call then raises.
start_again : State → Entry → Store → Store × Result Error (Option Entry)
start_again running e s = (s, ok (some e))
start_again paused e s = (s, err paused_resume_instead)
start_again finished e s = (s, err already_finished)

-- What a first start commits.
start_committed : ℕ → Option ℕ → ℕ → Booking → Store → Store
unfolding new_entry
start_committed id worker now b s = record s {
  entries = put id (new_entry now worker) s.entries;
  bookings = put id (record b { actual_seconds = some 0 }) s.bookings;
}

commit_start :
    ℕ → Option ℕ → ℕ → Option (ℕ × Option ℕ) → Booking → Store → Store × Result Error (Option Entry)
unfolding start_committed
commit_start id worker now none b s =
    (start_committed id worker now b s, ok (some (new_entry now worker)))
commit_start id worker now (some (other_now, other)) b s =
    (start_committed id other other_now b s, ok (some (new_entry other_now other)))

-- The first start. `raced` is the time and the worker of another request that has committed its
-- first start in the meantime: then this insert fails, is rolled back, and that entry is the answer.
start_first :
    ℕ → Option ℕ → ℕ → Option (ℕ × Option ℕ) → Booking → Store → Store × Result Error (Option Entry)
unfolding commit_start
start_first id worker now raced b s =
    if b.is_done || is_some b.actual_duration_minutes
    then (s, err order_completed)
    else commit_start id worker now raced b s

pub start_booked :
    ℕ
    → Option ℕ
    → ℕ
    → Option (ℕ × Option ℕ)
    → Option Booking
    → Store
    → Store × Result Error (Option Entry)
unfolding start_first
start_booked id worker now raced none s = (s, ok none)
start_booked id worker now raced (some b) s = start_first id worker now raced b s

pub start_with :
    ℕ
    → Option ℕ
    → ℕ
    → Option (ℕ × Option ℕ)
    → Option Entry
    → Store
    → Store × Result Error (Option Entry)
unfolding start_again start_booked
start_with id worker now raced none s = start_booked id worker now raced (s.bookings id) s
start_with id worker now raced (some e) s =
    start_again e.state (adopt worker e) (record s { entries = put id (adopt worker e) s.entries })

-- `start_time_tracking`; `raced` is what another request has committed before this one's commit.
pub start_time_tracking :
    ℕ → Option ℕ → ℕ → Option (ℕ × Option ℕ) → Store → Store × Result Error (Option Entry)
unfolding start_with
start_time_tracking id worker now raced s = start_with id worker now raced (s.entries id) s

-- The booking after a pause: its minutes are set only if none, or 0, are there.
pause_booking : ℕ → Booking → Booking
pause_booking total b = record b {
  actual_seconds = some total;
  actual_duration_minutes =
      if not (total == 0) && (get_or b.actual_duration_minutes 0 == 0)
      then some (minutes_up total)
      else b.actual_duration_minutes;
}

finish_booking : ℕ → Booking → Booking
finish_booking total b = record b {
  actual_seconds = some total;
  actual_duration_minutes =
      if total == 0 then b.actual_duration_minutes else some (minutes_up total);
}

-- The booking of an entry rewritten, if there is one.
rewrite : (Booking → Booking) → ℕ → Option Booking → Store → Store
rewrite f id none s = s
rewrite f id (some b) s = record s { bookings = put id (f b) s.bookings }

-- The entry after a pause.
pub paused_entry : Option ℕ → ℕ → Entry → Entry
paused_entry worker now e =
    adopt worker (record (close_active_segment now e) { paused_at = some now; state = paused })

pub pause_with : ℕ → ℕ → Option ℕ → Option Entry → Store → Store × Result Error (Option Entry)
unfolding paused_entry pause_booking rewrite
pause_with id now worker none s = (s, ok none)
pause_with id now worker (some e) s =
    if is_running e.state
    then (let e' = paused_entry worker now e in
        (
          rewrite (pause_booking e'.total_seconds) id (s.bookings id)
              (record s { entries = put id e' s.entries }),
          ok (some e'),
        ))
    else (s, err not_running)

-- `pause_time_tracking`
pub pause_time_tracking : ℕ → ℕ → Option ℕ → Store → Store × Result Error (Option Entry)
unfolding pause_with
pause_time_tracking id now worker s = pause_with id now worker (s.entries id) s

pub resumed_entry : Option ℕ → ℕ → Entry → Entry
resumed_entry worker now e = adopt worker (record e {
  segments = e.segments ++ record { start = now; end = none } ∷ [];
  state = running;
  paused_at = none;
})

pub resume_with : ℕ → ℕ → Option ℕ → Option Entry → Store → Store × Result Error (Option Entry)
unfolding resumed_entry
resume_with id now worker none s = (s, ok none)
resume_with id now worker (some e) s =
    if is_paused e.state
    then (
      record s { entries = put id (resumed_entry worker now e) s.entries },
      ok (some (resumed_entry worker now e)),
    )
    else (s, err not_paused)

-- `resume_time_tracking`
pub resume_time_tracking : ℕ → ℕ → Option ℕ → Store → Store × Result Error (Option Entry)
unfolding resume_with
resume_time_tracking id now worker s = resume_with id now worker (s.entries id) s

-- `threshold or settings.time_overrun_reason_threshold`
pub threshold_value : Option Ratio → Ratio → Ratio
threshold_value none default = default
threshold_value (some r) default = if r.numerator == 0 then default else r

-- `seconds > planned_seconds * threshold`
pub exceeds : ℕ → ℕ → Ratio → Bool
exceeds seconds planned r = ltb (planned * r.numerator) (seconds * r.denominator)

pub needs_reason : Option ℕ → ℕ → Ratio → Bool
unfolding exceeds
needs_reason none predicted r = false
needs_reason (some planned) predicted r = exceeds predicted planned r

pub planned_of : Option Booking → Option ℕ
planned_of none = none
planned_of (some b) = planned_seconds b

-- `if entry.state == RUNNING: _close_active_segment(entry, timestamp)`
pub stop : State → ℕ → Entry → Entry
stop running now e = close_active_segment now e
stop _ now e = e

-- The entry after the end.
pub finished_entry : Option ℕ → ℕ → Entry → Entry
unfolding stop
finished_entry worker now e =
    adopt worker
      (record (stop e.state now e) { finished_at = some now; state = finished; paused_at = none })

pub finish_with :
    ℕ → ℕ → Bool → Ratio → Option ℕ → Option Entry → Store → Store × Result Error (Option Entry)
unfolding finished_entry finish_booking rewrite needs_reason planned_of
finish_with id now reason_provided threshold worker none s = (s, ok none)
finish_with id now reason_provided threshold worker (some e) s =
    if is_running e.state || is_paused e.state
    then (if needs_reason (planned_of (s.bookings id)) (effective_total_seconds now e) threshold
          && not reason_provided
        then (s, err overrun_reason_required)
        else (let e' = finished_entry worker now e in
            (
              rewrite (finish_booking e'.total_seconds) id (s.bookings id)
                  (record s { entries = put id e' s.entries }),
              ok (some e'),
            )))
    else (s, err already_finished)

-- `finish_time_tracking`; `default` is the setting.
pub finish_time_tracking :
    ℕ → ℕ → Bool → Option Ratio → Ratio → Option ℕ → Store → Store × Result Error (Option Entry)
unfolding finish_with threshold_value
finish_time_tracking id now reason_provided threshold default worker s =
    finish_with id now reason_provided (threshold_value threshold default) worker (s.entries id) s
