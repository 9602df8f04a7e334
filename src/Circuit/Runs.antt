-- ===== src/Circuit/Runs.antt =====
-- Interleavings of the calls that share one breaker: each locked section is one event.
use clean.Base.{ℕ, ◌≤◌, ◌<◌, ◌≡◌, List, [], ◌∷◌, ◌++◌, length, All, arith}
use clean.Circuit.{closed, Breaker, make, ensure_available, record_failure, record_success}
use clean.Circuit.Window.{
  IsAscending, append-IsAscending, append-All, drop_stale-IsAscending, drop_stale-All,
}

pub data Event : Type 0 where
  begin succeed fail : Event

unfoldable pub handle : ℕ → Event → Breaker → Breaker
handle now begin b = (ensure_available now b).0
handle now succeed b = record_success b
handle now fail b = record_failure now b

unfoldable pub run : List (ℕ × Event) → Breaker → Breaker
run [] b = b
run ((now, e) ∷ es) b = run es (handle now e b)

-- The lock is taken in the order of the clock.
abbrev pub FollowsClock : ℕ → List (ℕ × Event) → Type 0
FollowsClock clock [] = Unit
FollowsClock clock ((now, e) ∷ es) = (clock ≤ now) × FollowsClock now es

abbrev pub last_time : ℕ → List (ℕ × Event) → ℕ
last_time clock [] = clock
last_time clock ((now, e) ∷ es) = last_time now es

pub record IsValid (clock : ℕ) (b : Breaker) : Type 0 where
  pub positive_threshold : 0 < b.failure_threshold
  pub positive_calls : 0 < b.half_open_max_calls
  pub ascending : IsAscending b.failures
  pub past : All (λ t. t ≤ clock) b.failures
  pub opened_past : b.opened_at ≤ clock
  pub trials_capped : b.half_open_calls ≤ b.half_open_max_calls
  pub closed_below : b.state ≡ closed → length b.failures < b.failure_threshold

-- A new breaker satisfies the invariant, whatever its settings.
pub make-IsValid : (n r w c : ℕ) → IsValid 0 (make n r w c)
unfolding make
make-IsValid n r w c = ground arith

later : (m n : ℕ) (ts : List ℕ) → m ≤ n → All (λ t. t ≤ m) ts → All (λ t. t ≤ n) ts
later m n [] h a = tt
later m n (t ∷ ts) h a = (omega arith, later m n ts h a.1)

ensure_available-IsValid :
    (clock now : ℕ) (b : Breaker)
    → clock ≤ now
    → IsValid clock b
    → IsValid now (ensure_available now b).0
unfolding ensure_available
ensure_available-IsValid clock now b h v = ground (arith, later clock now b.failures h v.past)

record_failure-IsValid :
    (clock now : ℕ) (b : Breaker)
    → clock ≤ now
    → IsValid clock b
    → IsValid now (record_failure now b)
unfolding record_failure
record_failure-IsValid clock now b h v =
    let early = later clock now b.failures h v.past in
    let kept =
      drop_stale-IsAscending b.window now (b.failures ++ now ∷ [])
        (append-IsAscending b.failures now v.ascending early) in
    let bounded =
      drop_stale-All b.window now now (b.failures ++ now ∷ []) (append-All b.failures now early) in
    ground arith

record_success-IsValid :
    (clock now : ℕ) (b : Breaker) → clock ≤ now → IsValid clock b → IsValid now (record_success b)
unfolding record_success
record_success-IsValid clock now b h v = ground arith

handle-IsValid :
    (clock now : ℕ) (e : Event) (b : Breaker)
    → clock ≤ now
    → IsValid clock b
    → IsValid now (handle now e b)
unfolding handle
handle-IsValid clock now begin b h v = ensure_available-IsValid clock now b h v
handle-IsValid clock now succeed b h v = record_success-IsValid clock now b h v
handle-IsValid clock now fail b h v = record_failure-IsValid clock now b h v

-- Whatever calls share the breaker and however their sections interleave along the clock, the
-- invariant stays: the deque ascends and lies in the past, no more trial calls are counted than
-- allowed, and a closed breaker holds fewer failures than its threshold.
pub run-IsValid :
    (clock : ℕ) (es : List (ℕ × Event)) (b : Breaker)
    → FollowsClock clock es
    → IsValid clock b
    → IsValid (last_time clock es) (run es b)
unfolding run
run-IsValid clock [] b f v = v
run-IsValid clock ((now, e) ∷ es) b f v =
    run-IsValid now es (handle now e b) f.1 (handle-IsValid clock now e b f.0 v)
