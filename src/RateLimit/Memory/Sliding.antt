-- ===== src/RateLimit/Memory/Sliding.antt =====
-- The in-memory limiter against a limiter that keeps the whole history of what it let through.
use clean.Base.{
  ℕ, ◌+◌, ◌≤◌, ◌<◌, ◌≡◌, refl, Bool, true, false, List, [], ◌∷◌, ◌++◌, Option, none, some, ltb,
  ◌==◌, if◌then◌else◌, All, get_or, Bool-cases, inl, inr, arith, ◌∙◌, sym,
}
use clean.RateLimit.Memory.{Memory, minute, drop_old, expired, maybe_prune, timestamps, admit}
use clean.RateLimit.Memory.Window.{
  recent, recent-append, recent-drop_old, recent-old, drop_old-All, append-All, All-later,
  IsAscending, length-drop_old, drop_old-IsAscending, append-IsAscending,
}

-- The requests let through so far, oldest first: time and key.
abbrev pub History : Type 0
History = List (ℕ × ℕ)

abbrev pub times_of : ℕ → History → List ℕ
times_of k [] = []
times_of k ((t, j) ∷ h) = let rest = times_of k h in if k == j then t ∷ rest else rest

-- The specification: a request passes while fewer than `limit` of its key passed in the last minute.
unfoldable pub spec_allow : ℕ → ℕ → ℕ → History → History × Bool
spec_allow limit now key h =
    if ltb (recent now (times_of key h)) limit then (h ++ (now, key) ∷ [], true) else (h, false)

-- What links the entry of one key to the times at which that key was let through.
pub record Tracks (clock : ℕ) (requests : Option (List ℕ)) (seen : Option ℕ) (passed : List ℕ)
    : Type 0 where
  pub same : (n : ℕ) → clock ≤ n → recent n (get_or requests []) ≡ recent n passed
  pub ascending : IsAscending (get_or requests [])
  pub bounded : All (λ t. t ≤ get_or seen 0) (get_or requests [])
  pub seen_past : get_or seen 0 ≤ clock

pub record Refines (clock : ℕ) (h : History) (m : Memory) : Type 0 where
  pub keeps_minute : 0 < m.cleanup_minutes
  pub tracks : (k : ℕ) → Tracks clock (m.requests k) (m.last_seen k) (times_of k h)

Tracks-later :
    {clock now : ℕ} {r : Option (List ℕ)} {s : Option ℕ} {p : List ℕ}
    → clock ≤ now
    → Tracks clock r s p
    → Tracks now r s p
Tracks-later h v = record {
  same = λ n hn. v.same n (omega arith);
  ascending = v.ascending;
  bounded = v.bounded;
  seen_past = omega arith;
}

-- Nothing that a later window could still count is pruned.
Tracks-expired :
    (now cleanup : ℕ) (r : Option (List ℕ)) (s : Option ℕ) (p : List ℕ)
    → 0 < cleanup
    → Tracks now r s p
    → expired now cleanup r s ≡ true
    → Tracks now none none p
unfolding expired
Tracks-expired now cleanup none s p c v e = cc
Tracks-expired now cleanup (some []) s p c v e = record {
  same = v.same;
  ascending = tt;
  bounded = tt;
  seen_past = omega arith;
}
Tracks-expired now cleanup (some (t ∷ ts)) s p c v e =
    let old : get_or s 0 + minute < now = ground arith in
    record {
      same = λ n hn. sym (recent-old n (get_or s 0) (t ∷ ts) v.bounded (omega arith)) ∙ v.same n hn;
      ascending = tt;
      bounded = tt;
      seen_past = omega arith;
    }

pub maybe_prune-Refines :
    (clock now : ℕ) (h : History) (m : Memory)
    → clock ≤ now
    → Refines clock h m
    → Refines now h (maybe_prune now m)
unfolding maybe_prune
maybe_prune-Refines clock now h m late r = elim (Bool-cases (ltb now (m.last_prune + minute))) [
  | inl e ↦
      rw e (record { keeps_minute = r.keeps_minute; tracks = λ k. Tracks-later late (r.tracks k) })
  | inr e ↦ rw e (record { keeps_minute = r.keeps_minute; tracks = λ k. pruned k })
]
  where
    pruned :
        (k : ℕ)
        → let gone = expired now m.cleanup_minutes (m.requests k) (m.last_seen k) in
          Tracks now
            (if gone then none else m.requests k)
            (if gone then none else m.last_seen k)
            (times_of k h)
    pruned k =
        let v = Tracks-later late (r.tracks k) in
        elim (Bool-cases (expired now m.cleanup_minutes (m.requests k) (m.last_seen k))) [
          | inl e ↦ rw e (
              Tracks-expired now m.cleanup_minutes (m.requests k) (m.last_seen k) (times_of k h)
                r.keeps_minute v e)
          | inr e ↦ rw e v
        ]

pub times_of-append :
    (k t j : ℕ) (h : History)
    → times_of k (h ++ (t, j) ∷ []) ≡ times_of k h ++ (if k == j then t ∷ [] else [])
times_of-append k t j [] = refl
times_of-append k t j ((u, i) ∷ h) = ground (arith, times_of-append k t j h)

pub Tracks-refused :
    (now : ℕ) (r : Option (List ℕ)) (s : Option ℕ) (p : List ℕ)
    → Tracks now r s p
    → Tracks now (some (drop_old now (get_or r []))) (some now) p
Tracks-refused now r s p v = record {
  same = λ n hn. recent-drop_old now n (get_or r []) hn ∙ v.same n hn;
  ascending = drop_old-IsAscending now (get_or r []) v.ascending;
  bounded =
      drop_old-All now now (get_or r [])
        (All-later (get_or s 0) now (get_or r []) v.seen_past v.bounded);
  seen_past = omega arith;
}

pub Tracks-passed :
    (now : ℕ) (r : Option (List ℕ)) (s : Option ℕ) (p : List ℕ)
    → Tracks now r s p
    → Tracks now (some (drop_old now (get_or r []) ++ now ∷ [])) (some now) (p ++ now ∷ [])
Tracks-passed now r s p v =
    let w = Tracks-refused now r s p v in
    record {
      same = λ n hn. omega (
        arith,
        w.same n hn,
        recent-append n (drop_old now (get_or r [])) (now ∷ []),
        recent-append n p (now ∷ []),
      );
      ascending = append-IsAscending now (drop_old now (get_or r [])) w.ascending w.bounded;
      bounded = append-All now (drop_old now (get_or r [])) w.bounded;
      seen_past = omega arith;
    }

pub admit_answer :
    (now key : ℕ) (h : History) (m : Memory)
    → Refines now h m
    → (admit now key m).1 ≡ (spec_allow m.requests_per_minute now key h).1
unfolding admit spec_allow
admit_answer now key h m r =
    let v = r.tracks key in
    ground (arith, v.same now, length-drop_old now (timestamps key m) v.ascending)
