-- ===== src/RateLimit/Memory/Bound.antt =====
-- The limit of a key: first of the specification, then of the limiter.
use mathlib.Core.List.{append-nil, append_assoc}
use clean.Base.{
  ℕ, ◌≤◌, ◌<◌, ◌≡◌, Bool, List, [], ◌∷◌, ◌++◌, ltb, ◌==◌, if◌then◌else◌, Bool-cases, inl, inr,
  arith, sym, ap, ◌∙◌,
}
use clean.RateLimit.Memory.{make}
use clean.RateLimit.Memory.Window.{recent, recent-append}
use clean.RateLimit.Memory.Sliding.{History, times_of, spec_allow, times_of-append}
use clean.RateLimit.Memory.Admits.{FollowsClock, last_time, run, spec_run, run-eq-spec_run}

recent_antitone : (m n : ℕ) (ts : List ℕ) → m ≤ n → recent n ts ≤ recent m ts
recent_antitone m n [] h = omega arith
recent_antitone m n (t ∷ ts) h = ground (arith, recent_antitone m n ts h)

spec_allow-bound :
    (limit clock now key k n : ℕ) (h : History)
    → ((j i : ℕ) → clock ≤ i → recent i (times_of j h) ≤ limit)
    → clock ≤ now
    → now ≤ n
    → recent n (times_of k (spec_allow limit now key h).0) ≤ limit
unfolding spec_allow
spec_allow-bound limit clock now key k n h old late hn =
    elim (Bool-cases (ltb (recent now (times_of key h)) limit)) [
      | inl room ↦
          rw (room, times_of-append k now key h)
            (elim (Bool-cases (k == key)) [
              | inl e ↦
                  let same : key ≡ k = ground arith in
                  rw (e, recent-append n (times_of k h) (now ∷ []))
                    (ground (
                      arith,
                      recent_antitone now n (times_of k h) hn,
                      ap (λ i. recent now (times_of i h)) same,
                    ))
              | inr e ↦ rw (e, append-nil) (old k n (omega arith))
            ])
      | inr full ↦ rw full (old k n (omega arith))
    ]

spec_run-bound :
    (limit clock k n : ℕ) (rs : List (ℕ × ℕ)) (h : History)
    → ((j i : ℕ) → clock ≤ i → recent i (times_of j h) ≤ limit)
    → FollowsClock clock rs
    → last_time clock rs ≤ n
    → recent n (times_of k (spec_run limit rs h).0) ≤ limit
unfolding spec_run
spec_run-bound limit clock k n [] h old f hn = old k n hn
spec_run-bound limit clock k n ((now, key) ∷ rs) h old f hn =
    spec_run-bound limit now k n rs (spec_allow limit now key h).0
      (λ j i hi. spec_allow-bound limit clock now key j i h old f.0 hi) f.1 hn

-- The requests that a list of answers let through.
abbrev pub passed : List (ℕ × ℕ) → List Bool → History
passed [] answers = []
passed (r ∷ rs) [] = []
passed (r ∷ rs) (answer ∷ answers) =
    let rest = passed rs answers in if answer then r ∷ rest else rest

spec_run-passed :
    (limit : ℕ) (rs : List (ℕ × ℕ)) (h : History)
    → (spec_run limit rs h).0 ≡ h ++ passed rs (spec_run limit rs h).1
unfolding spec_run spec_allow
spec_run-passed limit [] h = sym (append-nil h)
spec_run-passed limit ((now, key) ∷ rs) h =
    elim (Bool-cases (ltb (recent now (times_of key h)) limit)) [
      | inl e ↦ rw e (
          spec_run-passed limit rs (h ++ (now, key) ∷ [])
          ∙ append_assoc h ((now, key) ∷ [])
              (passed rs (spec_run limit rs (h ++ (now, key) ∷ [])).1))
      | inr e ↦ rw e (spec_run-passed limit rs h)
    ]

-- Under the same conditions no key ever has more than `limit` requests let through in the minute
-- before any time `n` from the last request on.
pub run_limit :
    (limit cleanup : ℕ) (rs : List (ℕ × ℕ)) (k n : ℕ)
    → 0 < cleanup
    → FollowsClock 0 rs
    → last_time 0 rs ≤ n
    → recent n (times_of k (passed rs (run rs (make limit cleanup)).1)) ≤ limit
run_limit limit cleanup rs k n c f hn =
    rw (run-eq-spec_run limit cleanup rs c f, ← spec_run-passed limit rs [])
      (spec_run-bound limit 0 k n rs [] (λ j i hi. omega arith) f hn)
