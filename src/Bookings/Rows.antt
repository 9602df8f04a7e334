-- ===== src/Bookings/Rows.antt =====
-- The rows of app/domain/bookings that slots and the life of a booking depend on. Times are whole
-- microseconds, identifiers and strings are numbers.
use clean.Base.{ℕ, ◌*◌, Bool, Option, List}

pub data Status : Type 0 where
  pending confirmed done cancelled : Status

pub data DepositStatus : Type 0 where
  awaiting paid expired failed : DepositStatus

pub record Booking : Type 0 where
  pub booking_id : ℕ
  pub team_id : ℕ
  pub lead_id : Option ℕ
  pub starts_at : ℕ
  pub duration_minutes : ℕ
  pub planned_minutes : Option ℕ
  pub status : Status
  pub is_high_risk : Bool  -- `risk_band == "HIGH"`
  pub deposit_required : Bool
  pub deposit_cents : Option ℕ
  pub deposit_status : Option DepositStatus
  pub checkout_session_id : Option ℕ
  pub payment_intent_id : Option ℕ
  pub created_at : ℕ
  pub actual_duration_minutes : Option ℕ
  pub actual_seconds : Option ℕ

-- `TeamWorkingHours`, as times of the day.
pub record WorkingHours : Type 0 where
  pub start_time : ℕ
  pub end_time : ℕ

-- `TeamBlackout`
pub record Blackout : Type 0 where
  pub team_id : ℕ
  pub starts_at : ℕ
  pub ends_at : ℕ

pub record Store : Type 0 where
  pub bookings : List Booking
  pub teams : List ℕ
  pub working_hours : ℕ → ℕ → Option WorkingHours  -- by team and weekday
  pub blackouts : List Blackout

-- The calendar of the local time zone: the date of a time, the weekday of a date, and the time at
-- which a date has a time of the day.
pub record Calendar : Type 0 where
  pub local_date : ℕ → ℕ
  pub weekday : ℕ → ℕ
  pub at : ℕ → ℕ → ℕ

pub data Error : Type 0 where
  team_not_found slot_taken reschedule_cancelled terminal_status bad_transition : Error
  not_positive already_completed : Error

abbrev pub minutes : ℕ → ℕ
minutes m = m * 60_000_000
