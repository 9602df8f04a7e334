-- ===== src/RateLimit/Memory/Window.antt =====
-- The deque of one key: what is dropped from its left, and what is inside the last minute.
use clean.Base.{
  ℕ, ◌+◌, ◌≤◌, ◌<◌, ◌≡◌, refl, List, [], ◌∷◌, ◌++◌, ltb, leb, if◌then◌else◌, length, All,
  Bool-cases, inl, inr, arith,
}

abbrev pub minute : ℕ
minute = 60_000_000

-- `while timestamps and timestamps[0] < window_start: timestamps.popleft()`
unfoldable pub drop_old : ℕ → List ℕ → List ℕ
drop_old now [] = []
drop_old now (t ∷ ts) = let rest = drop_old now ts in if ltb (t + minute) now then rest else t ∷ ts

-- How many times of a list lie in the last minute before `now`.
abbrev pub recent : ℕ → List ℕ → ℕ
recent now [] = 0
recent now (t ∷ ts) = (if leb now (t + minute) then 1 else 0) + recent now ts

pub recent-append :
    (now : ℕ) (xs ys : List ℕ) → recent now (xs ++ ys) ≡ recent now xs + recent now ys
recent-append now [] ys = omega arith
recent-append now (x ∷ xs) ys = omega (arith, recent-append now xs ys)

pub recent-le-length : (now : ℕ) (ts : List ℕ) → recent now ts ≤ length ts
recent-le-length now [] = omega arith
recent-le-length now (t ∷ ts) = ground (arith, recent-le-length now ts)

-- What is dropped is outside of every later window.
pub recent-drop_old :
    (now then' : ℕ) (ts : List ℕ) → now ≤ then' → recent then' (drop_old now ts) ≡ recent then' ts
unfolding drop_old
recent-drop_old now then' [] h = refl
recent-drop_old now then' (t ∷ ts) h = ground (arith, recent-drop_old now then' ts h)

pub recent-old :
    (now bound : ℕ) (ts : List ℕ)
    → All (λ t. t ≤ bound) ts
    → bound + minute < now
    → recent now ts ≡ 0
recent-old now bound [] a h = refl
recent-old now bound (t ∷ ts) a h = ground (arith, recent-old now bound ts a.1 h)

pub drop_old-All :
    (now bound : ℕ) (ts : List ℕ) → All (λ t. t ≤ bound) ts → All (λ t. t ≤ bound) (drop_old now ts)
unfolding drop_old
drop_old-All now bound [] a = tt
drop_old-All now bound (t ∷ ts) a = elim (Bool-cases (ltb (t + minute) now)) [
  | inl e ↦ rw e (drop_old-All now bound ts a.1)
  | inr e ↦ rw e a
]

pub append-All :
    (now : ℕ) (ts : List ℕ) → All (λ t. t ≤ now) ts → All (λ t. t ≤ now) (ts ++ now ∷ [])
append-All now [] a = (omega arith, tt)
append-All now (t ∷ ts) a = (a.0, append-All now ts a.1)

pub All-later : (m n : ℕ) (ts : List ℕ) → m ≤ n → All (λ t. t ≤ m) ts → All (λ t. t ≤ n) ts
All-later m n [] h a = tt
All-later m n (t ∷ ts) h a = (omega arith, All-later m n ts h a.1)

abbrev pub IsAscending : List ℕ → Type 0
IsAscending [] = Unit
IsAscending (x ∷ []) = Unit
IsAscending (x ∷ y ∷ xs) = (x ≤ y) × IsAscending (y ∷ xs)

recent_whole :
    (now t : ℕ) (ts : List ℕ)
    → IsAscending (t ∷ ts)
    → now ≤ t + minute
    → recent now (t ∷ ts) ≡ length (t ∷ ts)
recent_whole now t [] a h = ground arith
recent_whole now t (u ∷ ts) a h = ground (arith, recent_whole now u ts a.1)

pub tail-IsAscending : (t : ℕ) (ts : List ℕ) → IsAscending (t ∷ ts) → IsAscending ts
tail-IsAscending t [] a = tt
tail-IsAscending t (u ∷ ts) a = a.1

-- On an ascending deque, what is left after the dropping is the last minute.
pub length-drop_old :
    (now : ℕ) (ts : List ℕ) → IsAscending ts → length (drop_old now ts) ≡ recent now ts
unfolding drop_old
length-drop_old now [] a = refl
length-drop_old now (t ∷ ts) a =
    ground (arith, length-drop_old now ts (tail-IsAscending t ts a), recent_whole now t ts a)

pub drop_old-IsAscending : (now : ℕ) (ts : List ℕ) → IsAscending ts → IsAscending (drop_old now ts)
unfolding drop_old
drop_old-IsAscending now [] a = tt
drop_old-IsAscending now (t ∷ ts) a = elim (Bool-cases (ltb (t + minute) now)) [
  | inl e ↦ rw e (drop_old-IsAscending now ts (tail-IsAscending t ts a))
  | inr e ↦ rw e a
]

pub append-IsAscending :
    (now : ℕ) (ts : List ℕ) → IsAscending ts → All (λ t. t ≤ now) ts → IsAscending (ts ++ now ∷ [])
append-IsAscending now [] a h = tt
append-IsAscending now (t ∷ []) a h = (h.0, tt)
append-IsAscending now (t ∷ u ∷ ts) a h = (a.0, append-IsAscending now (u ∷ ts) a.1 h.1)
