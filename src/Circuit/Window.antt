-- ===== src/Circuit/Window.antt =====
-- The sliding window of `_record_failure`: what stays in the deque, and when the circuit opens.
use clean.Base.{
  ℕ, ◌+◌, ◌≤◌, ◌≡◌, refl, false, not, List, [], ◌∷◌, ◌++◌, ltb, ◌↔◌, ◌⊎◌, length, keep, All, arith,
  Bool-cases, inl, inr,
}
use clean.Circuit.{opened, Breaker, drop_stale, record_failure}

-- Timestamps come from a monotonic clock and are appended, so the deque ascends.
abbrev pub IsAscending : List ℕ → Type 0
IsAscending [] = Unit
IsAscending (x ∷ []) = Unit
IsAscending (x ∷ y ∷ xs) = (x ≤ y) × IsAscending (y ∷ xs)

-- The failures of the last `window` microseconds, wherever they stand in the list.
abbrev pub recent : ℕ → ℕ → List ℕ → List ℕ
recent window now = keep (λ t. not (ltb (t + window) now))

recent_all :
    (w now t : ℕ) (ts : List ℕ)
    → IsAscending (t ∷ ts)
    → ltb (t + w) now ≡ false
    → recent w now (t ∷ ts) ≡ t ∷ ts
recent_all w now t [] a h = ground arith
recent_all w now t (u ∷ ts) a h = ground (arith, recent_all w now u ts a.1)

tail-IsAscending : (t : ℕ) (ts : List ℕ) → IsAscending (t ∷ ts) → IsAscending ts
tail-IsAscending t [] a = tt
tail-IsAscending t (u ∷ ts) a = a.1

-- On an ascending deque, popping from the left keeps exactly the failures inside the window.
pub drop_stale-eq-recent :
    (w now : ℕ) (ts : List ℕ) → IsAscending ts → drop_stale w now ts ≡ recent w now ts
unfolding drop_stale
drop_stale-eq-recent w now [] a = refl
drop_stale-eq-recent w now (t ∷ ts) a =
    ground (arith, drop_stale-eq-recent w now ts (tail-IsAscending t ts a), recent_all w now t ts a)

pub append-IsAscending :
    (ts : List ℕ) (now : ℕ) → IsAscending ts → All (λ t. t ≤ now) ts → IsAscending (ts ++ now ∷ [])
append-IsAscending [] now a h = tt
append-IsAscending (t ∷ []) now a h = (h.0, tt)
append-IsAscending (t ∷ u ∷ ts) now a h = (a.0, append-IsAscending (u ∷ ts) now a.1 h.1)

pub append-All :
    (ts : List ℕ) (now : ℕ) → All (λ t. t ≤ now) ts → All (λ t. t ≤ now) (ts ++ now ∷ [])
append-All [] now h = (omega arith, tt)
append-All (t ∷ ts) now h = (h.0, append-All ts now h.1)

pub drop_stale-IsAscending :
    (w now : ℕ) (ts : List ℕ) → IsAscending ts → IsAscending (drop_stale w now ts)
unfolding drop_stale
drop_stale-IsAscending w now [] a = tt
drop_stale-IsAscending w now (t ∷ ts) a = elim (Bool-cases (ltb (t + w) now)) [
  | inl e ↦ rw e (drop_stale-IsAscending w now ts (tail-IsAscending t ts a))
  | inr e ↦ rw e a
]

pub drop_stale-All :
    (w now n : ℕ) (ts : List ℕ) → All (λ t. t ≤ n) ts → All (λ t. t ≤ n) (drop_stale w now ts)
unfolding drop_stale
drop_stale-All w now n [] h = tt
drop_stale-All w now n (t ∷ ts) h = elim (Bool-cases (ltb (t + w) now)) [
  | inl e ↦ rw e (drop_stale-All w now n ts h.1)
  | inr e ↦ rw e h
]

-- With a deque that ascends up to `now`, a failure opens the circuit exactly when it was open
-- already or the failures of the last `window`, this one counted, reach the threshold.
pub record_failure_opens :
    (now : ℕ) (b : Breaker)
    → IsAscending b.failures
    → All (λ t. t ≤ now) b.failures
    → ((record_failure now b).state ≡ opened) ↔ (
        (b.state ≡ opened)
        ⊎ (b.failure_threshold ≤ length (recent b.window now (b.failures ++ now ∷ []))))
unfolding record_failure
record_failure_opens now b a h =
    let e =
      drop_stale-eq-recent b.window now (b.failures ++ now ∷ [])
        (append-IsAscending b.failures now a h) in
    ground (arith, e)
