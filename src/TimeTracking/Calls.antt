-- ===== src/TimeTracking/Calls.antt =====
-- The calls of the service over histories, and which entry each of them writes.
use clean.Base.{
  ℕ, ◌≡◌, refl, Bool, false, List, [], ◌∷◌, Option, none, some, put, arith, if◌then◌else◌, Result,
  ◌&&◌, ◌||◌, not, is_some,
}
use clean.TimeTracking.{
  Entry, Booking, Store, Ratio, Error, new_entry, adopt, paused_entry, resumed_entry,
  finished_entry, start_time_tracking, pause_time_tracking, resume_time_tracking,
  finish_time_tracking, rewrite, is_running, start_with, start_booked, pause_with, resume_with,
  pause_booking, finish_booking, is_paused, needs_reason, planned_of, effective_total_seconds,
  finish_with,
}

-- The calls of the service, each with its time.
pub data Call : Type 0 where
  start_call : ℕ → Option ℕ → Option (ℕ × Option ℕ) → Call
  pause_call resume_call : ℕ → Option ℕ → Call
  finish_call : ℕ → Bool → Option Ratio → Ratio → Option ℕ → Call

unfoldable pub perform : ℕ → Call → Store → Store × Result Error (Option Entry)
perform now (start_call id worker raced) s = start_time_tracking id worker now raced s
perform now (pause_call id worker) s = pause_time_tracking id now worker s
perform now (resume_call id worker) s = resume_time_tracking id now worker s
perform now (finish_call id reason threshold default worker) s =
    finish_time_tracking id now reason threshold default worker s

-- The store after some calls.
unfoldable pub run : List (ℕ × Call) → Store → Store
run [] s = s
run ((now, c) ∷ cs) s = run cs (perform now c s).0

rewrite-entries :
    (f : Booking → Booking) (id : ℕ) (b : Option Booking) (s : Store)
    → (rewrite f id b s).entries ≡ s.entries
unfolding rewrite
rewrite-entries f id none s = refl
rewrite-entries f id (some b) s = refl

pub pause_with-entries :
    (id now : ℕ) (w : Option ℕ) (y : Entry) (s : Store)
    → (pause_with id now w (some y) s).0.entries
      ≡ (if is_running y.state then put id (paused_entry w now y) s.entries else s.entries)
unfolding pause_with
pause_with-entries id now w y s = ground (
  arith,
  rewrite-entries (pause_booking (paused_entry w now y).total_seconds) id (s.bookings id)
      (record s { entries = put id (paused_entry w now y) s.entries }),
)

pub resume_with-entries :
    (id now : ℕ) (w : Option ℕ) (y : Entry) (s : Store)
    → (resume_with id now w (some y) s).0.entries
      ≡ (if is_paused y.state then put id (resumed_entry w now y) s.entries else s.entries)
unfolding resume_with
resume_with-entries id now w y s = ground arith

-- Whether an end is accepted.
abbrev pub accepted : ℕ → ℕ → Bool → Ratio → Entry → Store → Bool
accepted id now reason r y s =
    (is_running y.state || is_paused y.state)
    && not
        (needs_reason (planned_of (s.bookings id)) (effective_total_seconds now y) r && not reason)

pub finish_with-entries :
    (id now : ℕ) (reason : Bool) (r : Ratio) (w : Option ℕ) (y : Entry) (s : Store)
    → (finish_with id now reason r w (some y) s).0.entries ≡ (
        if accepted id now reason r y s
        then put id (finished_entry w now y) s.entries
        else s.entries)
unfolding finish_with
finish_with-entries id now reason r w y s = ground (
  arith,
  rewrite-entries (finish_booking (finished_entry w now y).total_seconds) id (s.bookings id)
      (record s { entries = put id (finished_entry w now y) s.entries }),
)

-- The entry that a first start leaves: its own, or the one that was faster.
abbrev pub first_entry : ℕ → Option ℕ → Option (ℕ × Option ℕ) → Entry
first_entry now w none = new_entry now w
first_entry now w (some (t, other)) = new_entry t other

-- Whether a first start is made.
abbrev pub starts : Option Booking → Bool
starts none = false
starts (some b) = not (b.is_done || is_some b.actual_duration_minutes)

pub start_booked-entries :
    (id now : ℕ) (w : Option ℕ) (raced : Option (ℕ × Option ℕ)) (b : Option Booking) (s : Store)
    → (start_booked id w now raced b s).0.entries
      ≡ (if starts b then put id (first_entry now w raced) s.entries else s.entries)
unfolding start_booked
start_booked-entries id now w raced none s = refl
start_booked-entries id now w none (some b) s = ground arith
start_booked-entries id now w (some r) (some b) s = ground arith

pub start_with-entries :
    (id now : ℕ) (w : Option ℕ) (raced : Option (ℕ × Option ℕ)) (y : Entry) (s : Store)
    → (start_with id w now raced (some y) s).0.entries ≡ put id (adopt w y) s.entries
unfolding start_with
start_with-entries id now w raced y s = ground arith
