-- ===== src/RateLimit/Scenarios.antt =====
-- The theorems of the rate limiters at concrete requests.
use clean.Base.{ℕ, ◌≡◌, refl, Bool, true, false, List, [], ◌∷◌, ◌+◌, none, some, arith}
use clean.RateLimit.Memory
use clean.RateLimit.Memory.{Memory, minute}
use clean.RateLimit.Memory.Admits
use clean.RateLimit.Memory.Admits.{run-eq-spec_run, spec_run}
use clean.RateLimit.Fallback.{failed, World, Limiter, make, allow, eval_script}
use clean.RateLimit.Fallback.Total.{allow_total}
use clean.RateLimit.Fallback.Outage
use clean.RateLimit.Fallback.Outage.{on_wall, outage-eq-memory}

-- Two requests a minute: the third of key 7 is refused, another key is not, a minute later it passes.
abbrev requests : List (ℕ × ℕ)
requests = (1, 7) ∷ (2, 7) ∷ (3, 7) ∷ (4, 8) ∷ (60_000_002, 7) ∷ []

requests_answers :
    (Admits.run requests (Memory.make 2 10)).1 ≡ true ∷ true ∷ false ∷ true ∷ true ∷ []
unfolding Admits.run Memory.make Memory.allow Memory.maybe_prune Memory.drop_old
requests_answers = refl

run-eq-spec_run_example : (Admits.run requests (Memory.make 2 10)).1 ≡ (spec_run 2 requests []).1
run-eq-spec_run_example = run-eq-spec_run 2 10 requests (omega arith) (omega arith)

-- A Redis that fails every call.
abbrev broken : World
broken = record {
  script_load = λ _. false;
  evalsha = λ _ _. failed;
  eval = λ _ _. none;
  ping = λ _. false;
  wall_clock = λ t. t + 5;
  next_reading = λ t. t;
}

abbrev limiter : Limiter
limiter = make 2 10 300_000_000 5_000_000

allow_total_example : (r : Limiter × Bool) × (allow broken 2 1 7 limiter ≡ some r)
unfolding make
allow_total_example = allow_total broken 0 1 7 limiter (omega arith)

outage-eq-memory_example :
    (l' : Limiter) × (Outage.run broken ((1, 7) ∷ (2, 7) ∷ (6_000_000, 7) ∷ []) limiter
      ≡ some (
        l',
        (Admits.run
            (on_wall broken ((1, 7) ∷ (2, 7) ∷ (6_000_000, 7) ∷ []))
            (Memory.reset limiter.fallback)).1,
      ))
unfolding make eval_script
outage-eq-memory_example =
    outage-eq-memory broken 1 7 ((2, 7) ∷ (6_000_000, 7) ∷ []) limiter (omega arith) (omega arith)
      refl (omega arith, refl, (omega arith, refl, tt))
