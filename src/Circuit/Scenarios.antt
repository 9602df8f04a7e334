-- ===== src/Circuit/Scenarios.antt =====
-- The theorems of the circuit breaker at concrete breakers.
use clean.Base.{◌≤◌, ◌≡◌, ◌↔◌, ◌⊎◌, refl, true, false, List, [], ◌∷◌, ◌++◌, length, arith}
use clean.Circuit.{
  opened, Breaker, make, record_failure, refused, raised, half_open_limit, call, drop_stale,
}
use clean.Circuit.Window.{recent, record_failure_opens}
use clean.Circuit.Runs.{begin, succeed, fail, handle, run, IsValid, make-IsValid, run-IsValid}
use clean.Circuit.Wedge.{Attempt, calls, failed_trial_wedges}

abbrev fresh : Breaker
fresh = make 2 30_000_000 60_000_000 1

-- Two failures at once open the circuit.
abbrev crowded : Breaker
crowded = run ((1, fail) ∷ (2, fail) ∷ []) fresh

crowded_opens : crowded.state ≡ opened
unfolding run handle make record_failure drop_stale
crowded_opens = refl

record_failure_opens_example : ((record_failure 2 (record_failure 1 fresh)).state ≡ opened) ↔ (
    ((record_failure 1 fresh).state ≡ opened)
    ⊎ (2 ≤ length (recent 60_000_000 2 ((record_failure 1 fresh).failures ++ 2 ∷ []))))
unfolding make record_failure drop_stale
record_failure_opens_example =
    record_failure_opens 2 (record_failure 1 fresh) (omega arith) (omega arith)

run-IsValid_example : IsValid 7 (run ((1, begin) ∷ (4, fail) ∷ (7, succeed) ∷ []) fresh)
run-IsValid_example =
    run-IsValid 0 ((1, begin) ∷ (4, fail) ∷ (7, succeed) ∷ []) fresh (omega arith)
      (make-IsValid 2 30_000_000 60_000_000 1)

-- The trial call comes more than a minute after the two failures, and fails too.
abbrev stale : Breaker
stale = record {
  failure_threshold = 2;
  recovery_time = 30_000_000;
  window = 60_000_000;
  half_open_max_calls = 1;
  state = opened;
  opened_at = 2;
  failures = 1 ∷ 2 ∷ [];
  half_open_calls = 0;
}

abbrev later_calls : List Attempt
later_calls =
    record { succeeds = true; began = 10; ended = 20 }
    ∷ record { succeeds = true; began = 9_000_000_000; ended = 9_000_000_001 }
    ∷ []

failed_trial_wedges_example :
    ((call false 90_000_000 90_000_005 stale).1 ≡ raised)
    × ((calls later_calls (call false 90_000_000 90_000_005 stale).0).1
        ≡ refused half_open_limit ∷ refused half_open_limit ∷ [])
failed_trial_wedges_example =
    failed_trial_wedges 90_000_000 90_000_005 stale later_calls refl refl (omega arith)
      (omega arith) (omega arith) (omega arith)
