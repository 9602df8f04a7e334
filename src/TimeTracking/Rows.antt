-- ===== src/TimeTracking/Rows.antt =====
-- The rows of app/domain/time_tracking and the columns of a booking that the service uses. Times
-- are whole microseconds, identifiers are numbers.
use clean.Base.{ℕ, Option, List, Bool}

pub data State : Type 0 where
  running paused finished : State

-- A segment's `start` and `end`.
pub record Segment : Type 0 where
  pub start : ℕ
  pub end : Option ℕ

-- `WorkTimeEntry`
pub record Entry : Type 0 where
  pub worker_id : Option ℕ
  pub state : State
  pub started_at : ℕ
  pub paused_at : Option ℕ
  pub finished_at : Option ℕ
  pub total_seconds : ℕ
  pub segments : List Segment

pub record Booking : Type 0 where
  pub is_done : Bool  -- `status == "DONE"`
  pub starts_at : ℕ
  pub planned_minutes : Option ℕ
  pub duration_minutes : Option ℕ
  pub actual_seconds : Option ℕ
  pub actual_duration_minutes : Option ℕ

pub record Store : Type 0 where
  pub entries : ℕ → Option Entry  -- by booking, which is unique
  pub bookings : ℕ → Option Booking

-- The positive float of a threshold, as a fraction.
pub record Ratio : Type 0 where
  pub numerator : ℕ
  pub denominator : ℕ

-- The messages of the `ValueError`s.
pub data Error : Type 0 where
  paused_resume_instead already_finished order_completed not_running not_paused : Error
  overrun_reason_required : Error
