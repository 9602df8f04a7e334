-- ===== src/Bookings/Policies.antt =====
-- Deposits and cancellation terms of app/domain/bookings/service.py, with the snapshots of
-- app/domain/bookings/policy.py. Notice is in hundredths of an hour, to which the source rounds it;
-- a share of a deposit is in ten-thousandths, and is multiplied exactly where the source multiplies
-- floats. The constants that a snapshot repeats are left out.
pub mod Refunds
pub mod Deposits
pub mod Risk
mod Scenarios
use clean.Base.{
  ℕ, ◌+◌, ◌*◌, ◌/◌, min, max, Bool, true, false, not, ◌&&◌, ◌||◌, List, [], ◌∷◌, ◌++◌, Option, none,
  some, ltb, leb, ◌==◌, if◌then◌else◌, is_empty, any, is_some,
}

pub data Service : Type 0 where
  standard deep move_out_empty move_in_empty : Service
  other_service : ℕ → Service

-- `DurationRule`
pub record DurationRule : Type 0 where
  pub min_minutes : ℕ
  pub max_minutes : ℕ

-- `SERVICE_DURATION_RULES`, with `DEFAULT_DURATION_RULE`.
pub duration_rule : Option Service → DurationRule
duration_rule (some standard) = record { min_minutes = 60; max_minutes = 240 }
duration_rule (some deep) = record { min_minutes = 90; max_minutes = 360 }
duration_rule (some move_out_empty) = record { min_minutes = 150; max_minutes = 420 }
duration_rule (some move_in_empty) = record { min_minutes = 150; max_minutes = 420 }
duration_rule _ = record { min_minutes = 30; max_minutes = 540 }

-- `apply_duration_constraints`
pub apply_duration_constraints : ℕ → Option Service → ℕ
unfolding duration_rule
apply_duration_constraints duration service =
    let rule = duration_rule service in
    min (min (max (max duration rule.min_minutes) 30) rule.max_minutes) 540

-- `service_type in HEAVY_SERVICES`
abbrev pub is_heavy : Option Service → Bool
is_heavy (some deep) = true
is_heavy (some move_out_empty) = true
is_heavy (some move_in_empty) = true
is_heavy _ = false

abbrev pub hours : ℕ → ℕ
hours h = h * 100

-- `total_cents is not None and total_cents >= HIGH_VALUE_THRESHOLD_CENTS`
abbrev pub is_high_value : Option ℕ → Bool
is_high_value none = false
is_high_value (some cents) = leb 30000 cents

pub data Label : Type 0 where
  free partial late : Label

-- `CancellationWindow`, in hours.
pub record Window : Type 0 where
  pub label : Label
  pub start_hours_before : ℕ
  pub end_hours_before : Option ℕ
  pub refund_percent : ℕ

pub data Rule : Type 0 where
  heavy_service first_time_client high_value_booking late_booking short_notice : Rule

pub record CancellationPolicy : Type 0 where
  pub rules : List Rule
  pub windows : List Window

abbrev if_rule : Bool → Rule → List Rule
if_rule c r = if c then r ∷ [] else []

abbrev capped : Bool → ℕ → ℕ → ℕ
capped c percent cap = if c then min percent cap else percent

-- The share that a partial refund gives back.
pub partial_refund : ℕ → Option ℕ → Bool → ℕ
partial_refund lead_time total first_time =
    capped (ltb lead_time (hours 24)) (capped (is_high_value total) (capped first_time 50 40) 25) 25

-- `_build_cancellation_policy`
pub build_cancellation_policy : Option Service → ℕ → Option ℕ → Bool → CancellationPolicy
unfolding partial_refund
build_cancellation_policy service lead_time total first_time =
    let free_cutoff = if is_heavy service then 72 else 48 in
    let partial_start = min (if is_heavy service then 48 else 24) free_cutoff in
    record {
      rules =
          if_rule (is_heavy service) heavy_service
          ++ if_rule first_time first_time_client
          ++ if_rule (is_high_value total) high_value_booking
          ++ if_rule (ltb lead_time (hours 48)) late_booking
          ++ if_rule (ltb lead_time (hours 24)) short_notice;
      windows =
          record {
            label = free;
            start_hours_before = free_cutoff;
            end_hours_before = none;
            refund_percent = 100;
          }
          ∷ record {
            label = partial;
            start_hours_before = partial_start;
            end_hours_before = some free_cutoff;
            refund_percent = partial_refund lead_time total first_time;
          }
          ∷ record {
            label = late;
            start_hours_before = 0;
            end_hours_before = some partial_start;
            refund_percent = 0;
          }
          ∷ [];
    }

pub data Basis : Type 0 where
  percent_clamped fixed_minimum no_basis disabled : Basis

pub data Reason : Type 0 where
  because_first_time because_short because_late because_high_value because_of_risk : Reason
  because_heavy : Option Service → Reason
  extra_reason : ℕ → Reason

-- `DepositSnapshot`
pub record DepositSnapshot : Type 0 where
  pub required : Bool
  pub amount_cents : Option ℕ
  pub percent_applied : Option ℕ
  pub reasons : List Reason
  pub basis : Basis

abbrev raised_to : Bool → ℕ → ℕ → ℕ
raised_to c percent least = if c then max percent least else percent

-- The share after the rules on the service, the notice and the value.
pub deposit_share : ℕ → Option Service → Option ℕ → ℕ → ℕ
deposit_share percent service total lead_time =
    let for_service = raised_to (is_heavy service) percent 3500 in
    let for_notice =
      if ltb lead_time (hours 24)
      then max for_service 5000
      else raised_to (ltb lead_time (hours 48)) for_service 4000 in
    raised_to (is_high_value total) for_notice 3000

-- The amount for a share: at least `MIN_DEPOSIT_CENTS`, at most `MAX_DEPOSIT_CENTS`.
pub deposit_amount : Option ℕ → ℕ → ℕ
deposit_amount none share = min 20000 (max 5000 ((5000 * share + 9999) / 10000))
deposit_amount (some cents) share = min 20000 (max 5000 ((cents * share + 9999) / 10000))

-- `_build_deposit_snapshot`
pub build_deposit_snapshot : List Reason → ℕ → Option Service → Option ℕ → ℕ → DepositSnapshot
unfolding deposit_share deposit_amount
build_deposit_snapshot reasons percent service total lead_time =
    let share = deposit_share percent service total lead_time in
    if is_empty reasons
    then record {
      required = false;
      amount_cents = none;
      percent_applied = none;
      reasons = reasons;
      basis = no_basis;
    }
    else record {
      required = true;
      amount_cents = some (deposit_amount total share);
      percent_applied = some share;
      reasons = reasons;
      basis = if is_some total then percent_clamped else fixed_minimum;
    }

abbrev if_reason : Bool → Reason → List Reason
if_reason c r = if c then r ∷ [] else []

-- The reasons of `evaluate_deposit_policy`.
pub deposit_reasons : Bool → Option Service → ℕ → Option ℕ → Bool → List Reason → List Reason
deposit_reasons first_time service lead_time total force extra =
    let found =
      if_reason first_time because_first_time
      ++ if_reason (is_heavy service) (because_heavy service)
      ++ (if ltb lead_time (hours 24)
          then because_short ∷ []
          else if_reason (ltb lead_time (hours 48)) because_late)
      ++ if_reason (is_high_value total) because_high_value
      ++ extra in
    found ++ if_reason (force && is_empty found) because_of_risk

-- `evaluate_deposit_policy`, with the cancellation terms.
pub evaluate_deposit_policy :
    Bool
    → Bool
    → Bool
    → ℕ
    → Option Service
    → ℕ
    → Option ℕ
    → List Reason
    → DepositSnapshot × CancellationPolicy
unfolding deposit_reasons
evaluate_deposit_policy enabled force first_time percent service lead_time total extra =
    if not enabled && not force
    then (
      record {
        required = false;
        amount_cents = none;
        percent_applied = none;
        reasons = [];
        basis = disabled;
      },
      build_cancellation_policy none lead_time none false,
    )
    else (
      build_deposit_snapshot (deposit_reasons first_time service lead_time total force extra)
          percent service total lead_time,
      build_cancellation_policy service lead_time total first_time,
    )
