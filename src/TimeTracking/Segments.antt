-- ===== src/TimeTracking/Segments.antt =====
-- Periods of work as segments with their ends: what they count, how they lie on the clock, and what is
-- stored of them.
use clean.Base.{
  ℕ, ◌+◌, ◌*◌, ◌≤◌, ◌≡◌, refl, ap, Option-cases, inl, inr, List, [], ◌∷◌, ◌++◌, Option, none, some,
  is_some, true, false, arith, Bool, is_empty, false,
}
use clean.TimeTracking.{Segment, elapsed, active_segment}

-- The periods of work with the last one ended.
abbrev pub close_last : ℕ → List Segment → List Segment
close_last now [] = []
close_last now (x ∷ []) = record x { end = some now } ∷ []
close_last now (x ∷ y ∷ xs) = x ∷ close_last now (y ∷ xs)

-- The segments that are stored of periods of work: their starts.
abbrev pub stored : List Segment → List Segment
stored [] = []
stored (x ∷ xs) = record x { end = none } ∷ stored xs

abbrev pub seconds_of : ℕ → Option ℕ → ℕ
seconds_of start none = 0
seconds_of start (some t) = elapsed start t

-- The whole seconds of the segments that have ended.
abbrev pub closed_seconds : List Segment → ℕ
closed_seconds [] = 0
closed_seconds (x ∷ xs) = seconds_of x.start x.end + closed_seconds xs

abbrev pub AllClosed : List Segment → Type 0
AllClosed [] = Unit
AllClosed (x ∷ xs) = (is_some x.end ≡ true) × AllClosed xs

-- The last segment, and no other, is open.
abbrev pub OpensLast : List Segment → Type 0
OpensLast [] = ⊥
OpensLast (x ∷ []) = x.end ≡ none
OpensLast (x ∷ y ∷ xs) = (is_some x.end ≡ true) × OpensLast (y ∷ xs)

abbrev pub Link : ℕ → ℕ → Option ℕ → Bool → (ℕ → Type 0) → Type 0
Link clock start none is_last rest = (start ≤ clock) × (is_last ≡ true)
Link clock start (some t) is_last rest = (start ≤ t) × rest t

-- From `lo` up to `clock` the segments follow one another without overlap.
abbrev pub Chain : ℕ → ℕ → List Segment → Type 0
Chain clock lo [] = lo ≤ clock
Chain clock lo (x ∷ xs) =
    (lo ≤ x.start) × Link clock x.start x.end (is_empty xs) (λ t. Chain clock t xs)

pub active-OpensLast :
    (xs : List Segment) → OpensLast xs → (x : Segment) × (active_segment xs ≡ some x)
unfolding active_segment
active-OpensLast [] o = absurd o
active-OpensLast (x ∷ []) o = (x, ground arith)
active-OpensLast (x ∷ y ∷ xs) o = active-OpensLast (y ∷ xs) o.1

pub stored-close_last : (now : ℕ) (xs : List Segment) → stored (close_last now xs) ≡ stored xs
stored-close_last now [] = refl
stored-close_last now (x ∷ []) = refl
stored-close_last now (x ∷ y ∷ xs) =
    ap (λ (ys : List Segment). record x { end = none } ∷ ys) (stored-close_last now (y ∷ xs))

pub stored-append :
    (now : ℕ) (xs : List Segment)
    → stored (xs ++ record { start = now; end = none } ∷ [])
      ≡ stored xs ++ record { start = now; end = none } ∷ []
stored-append now [] = refl
stored-append now (x ∷ xs) =
    ap (λ (ys : List Segment). record x { end = none } ∷ ys) (stored-append now xs)

-- The period that is not ended is the last segment that is stored.
pub active_segment-stored :
    (xs : List Segment) (x : Segment)
    → active_segment xs ≡ some x
    → active_segment (stored xs) ≡ some x
unfolding active_segment
active_segment-stored [] x a = cc
active_segment-stored (y ∷ []) x a = elim (Option-cases y.end) [
  | inl running ↦ rw running at a
  | inr (t, ended) ↦ let clash : none ≡ some x = rw ended at a in cc clash
]
active_segment-stored (y ∷ z ∷ xs) x a = active_segment-stored (z ∷ xs) x a

pub close_last-seconds :
    (now : ℕ) (xs : List Segment) (x : Segment)
    → active_segment xs ≡ some x
    → closed_seconds (close_last now xs) ≡ closed_seconds xs + elapsed x.start now
unfolding active_segment
close_last-seconds now [] x a = cc
close_last-seconds now (y ∷ []) x a = ground arith
close_last-seconds now (y ∷ z ∷ xs) x a = omega (arith, close_last-seconds now (z ∷ xs) x a)

pub close_last-AllClosed :
    (now : ℕ) (xs : List Segment) → OpensLast xs → AllClosed (close_last now xs)
close_last-AllClosed now [] o = tt
close_last-AllClosed now (x ∷ []) o = (refl, tt)
close_last-AllClosed now (x ∷ y ∷ xs) o = (o.0, close_last-AllClosed now (y ∷ xs) o.1)

pub append-OpensLast :
    (now : ℕ) (xs : List Segment)
    → AllClosed xs
    → OpensLast (xs ++ record { start = now; end = none } ∷ [])
append-OpensLast now [] c = refl
append-OpensLast now (x ∷ []) c = (c.0, refl)
append-OpensLast now (x ∷ y ∷ xs) c = (c.0, append-OpensLast now (y ∷ xs) c.1)

pub append-closed_seconds :
    (now : ℕ) (xs : List Segment)
    → closed_seconds (xs ++ record { start = now; end = none } ∷ []) ≡ closed_seconds xs
append-closed_seconds now [] = refl
append-closed_seconds now (x ∷ xs) = omega (arith, append-closed_seconds now xs)

Link-later :
    (clock now start : ℕ) (o : Option ℕ) (is_last : Bool) (P Q : ℕ → Type 0)
    → clock ≤ now
    → ((t : ℕ) → P t → Q t)
    → Link clock start o is_last P
    → Link now start o is_last Q
Link-later clock now start none is_last P Q h f l = (omega arith, l.1)
Link-later clock now start (some t) is_last P Q h f l = (l.0, f t l.1)

pub Chain-later :
    (clock now lo : ℕ) (xs : List Segment) → clock ≤ now → Chain clock lo xs → Chain now lo xs
Chain-later clock now lo [] h c = omega arith
Chain-later clock now lo (x ∷ xs) h c = (
  c.0,
  Link-later clock now x.start x.end (is_empty xs) (λ t. Chain clock t xs) (λ t. Chain now t xs) h
      (λ t. Chain-later clock now t xs h) c.1,
)

Link-start :
    (clock start : ℕ) (o : Option ℕ) (is_last : Bool)
    → Link clock start o is_last (λ t. t ≤ clock)
    → start ≤ clock
Link-start clock start none is_last l = l.0
Link-start clock start (some t) is_last l = omega arith

Link-inner :
    (clock now start : ℕ) (o : Option ℕ) (is_last : Bool) (P Q : ℕ → Type 0)
    → ((t : ℕ) → P t → Q t)
    → Link clock start o false P
    → Link now start o is_last Q
Link-inner clock now start none is_last P Q f l = cc
Link-inner clock now start (some t) is_last P Q f l = (l.0, f t l.1)

pub close_last-Chain :
    (clock now lo : ℕ) (xs : List Segment)
    → clock ≤ now
    → Chain clock lo xs
    → Chain now lo (close_last now xs)
close_last-Chain clock now lo [] h c = omega arith
close_last-Chain clock now lo (x ∷ []) h c =
    let l = Link-start clock x.start x.end true c.1 in (c.0, (omega arith, omega arith))
close_last-Chain clock now lo (x ∷ y ∷ xs) h c = (
  c.0,
  Link-inner clock now x.start x.end (is_empty (close_last now (y ∷ xs)))
      (λ t. Chain clock t (y ∷ xs)) _ (λ t. close_last-Chain clock now t (y ∷ xs) h) c.1,
)

Link-closed :
    (clock now start : ℕ) (o : Option ℕ) (is_last is_last' : Bool) (P Q : ℕ → Type 0)
    → is_some o ≡ true
    → ((t : ℕ) → P t → Q t)
    → Link clock start o is_last P
    → Link now start o is_last' Q
Link-closed clock now start none is_last is_last' P Q s f l = cc
Link-closed clock now start (some t) is_last is_last' P Q s f l = (l.0, f t l.1)

pub append-Chain :
    (clock now lo : ℕ) (xs : List Segment)
    → clock ≤ now
    → AllClosed xs
    → Chain clock lo xs
    → Chain now lo (xs ++ record { start = now; end = none } ∷ [])
append-Chain clock now lo [] h a c = (omega arith, (omega arith, refl))
append-Chain clock now lo (x ∷ xs) h a c = (
  c.0,
  Link-closed clock now x.start x.end (is_empty xs) _ (λ t. Chain clock t xs) _ a.0
      (λ t. append-Chain clock now t xs h a.1) c.1,
)

Link-bound :
    (clock lo start : ℕ) (o : Option ℕ) (xs : List Segment)
    → lo ≤ start
    → ((t : ℕ) → Chain clock t xs → closed_seconds xs * 1_000_000 + t ≤ clock)
    → Link clock start o (is_empty xs) (λ t. Chain clock t xs)
    → (seconds_of start o + closed_seconds xs) * 1_000_000 + lo ≤ clock
unfolding elapsed
Link-bound clock lo start none [] h ih l = omega arith
Link-bound clock lo start none (x ∷ xs) h ih l = cc
Link-bound clock lo start (some t) xs h ih l = omega (arith, ih t l.1)

-- The seconds counted fit in the time from the first start to now.
pub closed_seconds-le :
    (clock lo : ℕ) (xs : List Segment)
    → Chain clock lo xs
    → closed_seconds xs * 1_000_000 + lo ≤ clock
closed_seconds-le clock lo [] c = omega arith
closed_seconds-le clock lo (x ∷ xs) c =
    Link-bound clock lo x.start x.end xs c.0 (λ t. closed_seconds-le clock t xs) c.1
