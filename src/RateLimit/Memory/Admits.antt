-- ===== src/RateLimit/Memory/Admits.antt =====
-- The relation of `Sliding` carried through whole sequences of requests.
use clean.Base.{
  ℕ, ◌≤◌, ◌<◌, ◌≡◌, refl, Bool, true, false, not, List, [], ◌∷◌, ◌++◌, ltb, leb, ◌==◌, length, put,
  Bool-cases, inl, inr, arith, some, ◌∙◌, ◌≢◌,
}
use clean.RateLimit.Memory.{Memory, make, drop_old, maybe_prune, timestamps, admit, allow}
use mathlib.Core.Path.{subst}
use mathlib.Core.List.{append-nil}
use clean.RateLimit.Memory.Window.{recent, length-drop_old}
use clean.RateLimit.Memory.Sliding.{
  History, times_of, spec_allow, Tracks, Refines, maybe_prune-Refines, times_of-append,
  Tracks-refused, Tracks-passed, admit_answer,
}

-- The entry of one key after `admit` has written the deque and the time of the requested key.
Tracks-put :
    (now key k : ℕ) (ts : List ℕ) (m : Memory) (p : List ℕ)
    → Tracks now (some ts) (some now) p
    → (k ≢ key → Tracks now (m.requests k) (m.last_seen k) p)
    → Tracks now (put key ts m.requests k) (put key now m.last_seen k) p
Tracks-put now key k ts m p v w = elim (Bool-cases (key == k)) [
  | inl e ↦ rw e v
  | inr e ↦ rw e (w (ground arith))
]

admit-Refines :
    (now key : ℕ) (h : History) (m : Memory)
    → Refines now h m
    → Refines now (spec_allow m.requests_per_minute now key h).0 (admit now key m).0
unfolding admit spec_allow
admit-Refines now key h m r =
    elim (Bool-cases (leb m.requests_per_minute (length (drop_old now (timestamps key m))))) [
      | inl full ↦
          rw (full, spec_test true full)
            (record { keeps_minute = r.keeps_minute; tracks = λ k. refused k })
      | inr room ↦
          rw (room, spec_test false room)
            (record { keeps_minute = r.keeps_minute; tracks = λ k. passed k })
    ]
  where
    spec_test :
        (full : Bool)
        → leb m.requests_per_minute (length (drop_old now (timestamps key m))) ≡ full
        → ltb (recent now (times_of key h)) m.requests_per_minute ≡ not full
    spec_test full e =
        let v = r.tracks key in
        ground (arith, v.same now, length-drop_old now (timestamps key m) v.ascending)

    refused :
        (k : ℕ)
        → Tracks now
            (put key (drop_old now (timestamps key m)) m.requests k)
            (put key now m.last_seen k)
            (times_of k h)
    refused k = elim (Bool-cases (key == k)) [
      | inl e ↦
          let same : key ≡ k = ground arith in
          rw e (
            rw (← same) (
              Tracks-refused now (m.requests key) (m.last_seen key) (times_of key h)
                (r.tracks key)))
      | inr e ↦ rw e (r.tracks k)
    ]

    passed :
        (k : ℕ)
        → Tracks now
            (put key (drop_old now (timestamps key m) ++ now ∷ []) m.requests k)
            (put key now m.last_seen k)
            (times_of k (h ++ (now, key) ∷ []))
    passed k = elim (Bool-cases (key == k)) [
      | inl e ↦
          let same : key ≡ k = ground arith in
          let both : (k == key) ≡ true = ground arith in
          rw (times_of-append k now key h, both)
            (rw e (
              rw (← same) (
                Tracks-passed now (m.requests key) (m.last_seen key) (times_of key h)
                  (r.tracks key))))
      | inr e ↦
          let both : (k == key) ≡ false = ground arith in
          rw (times_of-append k now key h, both) (rw e (rw append-nil (r.tracks k)))
    ]

maybe_prune-limit :
    (now : ℕ) (m : Memory) → (maybe_prune now m).requests_per_minute ≡ m.requests_per_minute
unfolding maybe_prune
maybe_prune-limit now m = ground arith

-- One request: the same answer as the specification's, and the relation goes on.
allow-Refines :
    (limit clock now key : ℕ) (h : History) (m : Memory)
    → m.requests_per_minute ≡ limit
    → clock ≤ now
    → Refines clock h m
    → ((allow now key m).1 ≡ (spec_allow limit now key h).1)
      × Refines now (spec_allow limit now key h).0 (allow now key m).0
unfolding allow
allow-Refines limit clock now key h m e late r =
    let pruned = maybe_prune-Refines clock now h m late r in
    subst
      (λ l.
        ((admit now key (maybe_prune now m)).1 ≡ (spec_allow l now key h).1)
        × Refines now (spec_allow l now key h).0 (admit now key (maybe_prune now m)).0)
      (maybe_prune-limit now m ∙ e)
      (
        admit_answer now key h (maybe_prune now m) pruned,
        admit-Refines now key h (maybe_prune now m) pruned,
      )

allow-limit :
    (now key : ℕ) (m : Memory) → (allow now key m).0.requests_per_minute ≡ m.requests_per_minute
unfolding allow admit
allow-limit now key m = ground (arith, maybe_prune-limit now m)

-- A sequence of requests, each a time and a key, with the answers.
unfoldable pub run : List (ℕ × ℕ) → Memory → Memory × List Bool
run [] m = (m, [])
run ((now, key) ∷ rs) m =
    let (m', answer) = allow now key m in let (m'', answers) = run rs m' in (m'', answer ∷ answers)

unfoldable pub spec_run : ℕ → List (ℕ × ℕ) → History → History × List Bool
spec_run limit [] h = (h, [])
spec_run limit ((now, key) ∷ rs) h =
    let (h', answer) = spec_allow limit now key h in
    let (h'', answers) = spec_run limit rs h' in (h'', answer ∷ answers)

abbrev pub FollowsClock : ℕ → List (ℕ × ℕ) → Type 0
FollowsClock clock [] = Unit
FollowsClock clock ((now, key) ∷ rs) = (clock ≤ now) × FollowsClock now rs

abbrev pub last_time : ℕ → List (ℕ × ℕ) → ℕ
last_time clock [] = clock
last_time clock ((now, key) ∷ rs) = last_time now rs

run_answers :
    (limit clock : ℕ) (rs : List (ℕ × ℕ)) (h : History) (m : Memory)
    → m.requests_per_minute ≡ limit
    → FollowsClock clock rs
    → Refines clock h m
    → (run rs m).1 ≡ (spec_run limit rs h).1
unfolding run spec_run
run_answers limit clock [] h m e f r = refl
run_answers limit clock ((now, key) ∷ rs) h m e f r =
    let step = allow-Refines limit clock now key h m e f.0 r in
    cc (
      step.0,
      run_answers limit now rs (spec_allow limit now key h).0 (allow now key m).0
          (allow-limit now key m ∙ e) f.1 step.1,
    )

make-Refines : (limit cleanup : ℕ) → 0 < cleanup → Refines 0 [] (make limit cleanup)
unfolding make
make-Refines limit cleanup c = record {
  keeps_minute = c;
  tracks =
      λ k. record { same = λ n hn. refl; ascending = tt; bounded = tt; seen_past = omega arith };
}

-- With requests that follow the clock, and entries kept for at least a minute, the limiter answers
-- every request as the specification does, which remembers all that ever passed: a request passes
-- exactly if fewer than `limit` of its key passed in the minute before.
pub run-eq-spec_run :
    (limit cleanup : ℕ) (rs : List (ℕ × ℕ))
    → 0 < cleanup
    → FollowsClock 0 rs
    → (run rs (make limit cleanup)).1 ≡ (spec_run limit rs []).1
unfolding make
run-eq-spec_run limit cleanup rs c f =
    run_answers limit 0 rs [] (make limit cleanup) refl f (make-Refines limit cleanup c)
