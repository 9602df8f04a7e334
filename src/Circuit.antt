-- ===== src/Circuit.antt =====
-- app/shared/circuit_breaker.py: the state of a `CircuitBreaker` and its three locked sections.
-- Times are whole microseconds of the monotonic clock, so a test such as
-- `now - opened_at >= recovery_time` is written without the subtraction.
pub mod Window
pub mod Runs
pub mod Wedge
mod Scenarios
use clean.Base.{
  ℕ, ◌+◌, Bool, true, false, List, [], ◌∷◌, ◌++◌, Option, none, some, max, ltb, leb, if◌then◌else◌,
  length,
}

pub data State : Type 0 where
  closed opened half_open : State

pub record Breaker : Type 0 where
  pub failure_threshold : ℕ
  pub recovery_time : ℕ
  pub window : ℕ
  pub half_open_max_calls : ℕ
  pub state : State
  pub opened_at : ℕ
  pub failures : List ℕ  -- the deque, oldest first
  pub half_open_calls : ℕ

-- `__init__`; 0.01 seconds are 10000 microseconds.
pub make : ℕ → ℕ → ℕ → ℕ → Breaker
make failure_threshold recovery_time window half_open_max_calls = record {
  failure_threshold = max 1 failure_threshold;
  recovery_time = max 10000 recovery_time;
  window = max 10000 window;
  half_open_max_calls = max 1 half_open_max_calls;
  state = closed;
  opened_at = 0;
  failures = [];
  half_open_calls = 0;
}

-- The two messages of `CircuitBreakerOpenError`.
pub data Refusal : Type 0 where
  circuit_open half_open_limit : Refusal

-- The second `if` of `_ensure_available`.
admit_half_open : State → Breaker → Breaker × Option Refusal
admit_half_open half_open b =
    if leb b.half_open_max_calls b.half_open_calls
    then (b, some half_open_limit)
    else (record b { half_open_calls = b.half_open_calls + 1 }, none)
admit_half_open _ b = (b, none)

ensure_from : State → ℕ → Breaker → Breaker × Option Refusal
unfolding admit_half_open
ensure_from opened now b =
    if leb (b.opened_at + b.recovery_time) now
    then admit_half_open half_open (record b { state = half_open; half_open_calls = 0 })
    else (b, some circuit_open)
ensure_from s _ b = admit_half_open s b

-- `none` means that the call may go ahead.
pub ensure_available : ℕ → Breaker → Breaker × Option Refusal
unfolding ensure_from
ensure_available now b = ensure_from b.state now b

-- The loop that pops the failures older than the window from the left.
pub drop_stale : ℕ → ℕ → List ℕ → List ℕ
drop_stale window now [] = []
drop_stale window now (t ∷ ts) =
    let rest = drop_stale window now ts in if ltb (t + window) now then rest else t ∷ ts

pub record_failure : ℕ → Breaker → Breaker
record_failure now b =
    let failures = drop_stale b.window now (b.failures ++ now ∷ []) in
    if leb b.failure_threshold (length failures)
    then record b { failures = failures; state = opened; opened_at = now; half_open_calls = 0 }
    else record b { failures = failures }

pub record_success : Breaker → Breaker
record_success b = record b { failures = []; state = closed; half_open_calls = 0 }

-- What `call` gives its caller: a refusal, or the outcome of `fn`.
pub data Answer : Type 0 where
  refused : Refusal → Answer
  returned raised : Answer

settle : Bool → ℕ → Breaker → Breaker × Answer
settle true now b = (record_success b, returned)
settle false now b = (record_failure now b, raised)

after_admission : Bool → ℕ → Breaker × Option Refusal → Breaker × Answer
unfolding settle
after_admission succeeds ended (b, some r) = (b, refused r)
after_admission succeeds ended (b, none) = settle succeeds ended b

-- `call`, with nothing else in between: `fn` is tried at `began`, and ends at `ended`.
pub call : Bool → ℕ → ℕ → Breaker → Breaker × Answer
unfolding after_admission
call succeeds began ended b = after_admission succeeds ended (ensure_available began b)
