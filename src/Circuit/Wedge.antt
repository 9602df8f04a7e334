-- ===== src/Circuit/Wedge.antt =====
-- A half-open breaker whose trial call has failed without reaching the threshold.
use clean.Base.{
  ℕ, ◌+◌, ◌≤◌, ◌<◌, ◌≡◌, refl, ap, Bool, false, List, [], ◌∷◌, ◌++◌, map, length, All, arith,
}
use clean.Circuit.{
  opened, half_open, Breaker, half_open_limit, Answer, refused, raised, ensure_available,
  record_failure, call,
}
use clean.Circuit.Window.{IsAscending, recent, append-IsAscending, drop_stale-eq-recent}

pub record Attempt : Type 0 where
  pub succeeds : Bool
  pub began : ℕ
  pub ended : ℕ

-- Calls one after another, with their answers.
pub calls : List Attempt → Breaker → Breaker × List Answer
calls [] b = (b, [])
calls (a ∷ as') b =
    let (b', answer) = call a.succeeds a.began a.ended b in
    let (b'', answers) = calls as' b' in (b'', answer ∷ answers)

abbrev pub IsWedged : Breaker → Type 0
IsWedged b = (b.state ≡ half_open) × (b.half_open_max_calls ≤ b.half_open_calls)

call-IsWedged :
    (succeeds : Bool) (began ended : ℕ) (b : Breaker)
    → IsWedged b
    → call succeeds began ended b ≡ (b, refused half_open_limit)
unfolding call ensure_available
call-IsWedged succeeds began ended b h = ground arith

-- A half-open breaker that has used up its trial calls refuses every later call, at any time and
-- whatever the call would have done, and never changes again.
pub calls-IsWedged :
    (attempts : List Attempt) (b : Breaker)
    → IsWedged b
    → calls attempts b ≡ (b, map (λ _. refused half_open_limit) attempts)
unfolding calls
calls-IsWedged [] b h = refl
calls-IsWedged (a ∷ as') b h =
    ground (arith, call-IsWedged a.succeeds a.began a.ended b h, calls-IsWedged as' b h)

-- A breaker that allows one trial call is open, and that trial is made and fails when the failures
-- of the last `window` no longer reach the threshold: the circuit is wedged from then on.
pub failed_trial_wedges :
    (began ended : ℕ) (b : Breaker) (attempts : List Attempt)
    → b.state ≡ opened
    → b.half_open_max_calls ≡ 1
    → b.opened_at + b.recovery_time ≤ began
    → IsAscending b.failures
    → All (λ t. t ≤ ended) b.failures
    → length (recent b.window ended (b.failures ++ ended ∷ [])) < b.failure_threshold
    → ((call false began ended b).1 ≡ raised)
      × ((calls attempts (call false began ended b).0).1
          ≡ map (λ _. refused half_open_limit) attempts)
unfolding call ensure_available record_failure
failed_trial_wedges began ended b attempts o one due asc past few =
    let e =
      drop_stale-eq-recent b.window ended (b.failures ++ ended ∷ [])
        (append-IsAscending b.failures ended asc past) in
    (
      ground arith,
      ap (λ (p : Breaker × List Answer). p.1)
          (calls-IsWedged attempts (call false began ended b).0
            (ground (arith, e), ground (arith, e))),
    )
