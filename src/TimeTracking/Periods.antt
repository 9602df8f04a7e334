-- ===== src/TimeTracking/Periods.antt =====
-- The periods of work of bookings over histories, and what one written entry makes of them.
use clean.Base.{
  ℕ, ◌≤◌, ◌≡◌, refl, sym, ap, ◌∙◌, Bool, true, false, List, [], ◌∷◌, Option, none, some, put, ◌==◌,
  Bool-cases, inl, inr, arith, if◌then◌else◌,
}
use mathlib.Core.Path.{subst}
use mathlib.Core.Option.{some-injective}
use clean.TimeTracking.{
  Segment, State, running, paused, finished, Entry, Store, adopt, paused_entry, resumed_entry,
  finished_entry, is_running, is_paused,
}
use clean.TimeTracking.Totals.{
  moved, IsValid, IsValid-later, adopt-IsValid, paused_entry-IsValid, resumed_entry-IsValid,
  finished_entry-IsValid,
}
use clean.TimeTracking.Calls.{Call, perform}

-- The periods of work of a booking after a call at the time `now`, by its entry before and after.
unfoldable pub followed : ℕ → Option Entry → Option Entry → List Segment → List Segment
followed now none (some e) periods = record { start = e.started_at; end = none } ∷ []
followed now (some old) (some new) periods = moved now old.state new.state periods
followed now _ none periods = periods

-- The periods of work of all bookings after some calls.
unfoldable pub run_periods : List (ℕ × Call) → Store → (ℕ → List Segment) → ℕ → List Segment
run_periods [] s periods = periods
run_periods ((now, c) ∷ cs) s periods =
    let s' = (perform now c s).0 in
    run_periods cs s' (λ k. followed now (s.entries k) (s'.entries k) (periods k))

abbrev pub AllEntries : ℕ → (ℕ → List Segment) → (ℕ → Option Entry) → Type 0
AllEntries clock periods d = (k : ℕ) (e : Entry) → d k ≡ some e → IsValid clock (periods k) e

moved_same : (now : ℕ) (a : State) (ps : List Segment) → moved now a a ps ≡ ps
unfolding moved
moved_same now running ps = refl
moved_same now paused ps = refl
moved_same now finished ps = refl

unchanged-IsValid :
    (clock now : ℕ) (ps : List Segment) (o o' : Option Entry) (x : Entry)
    → clock ≤ now
    → o ≡ some x
    → o' ≡ some x
    → IsValid clock ps x
    → IsValid now (followed now o o' ps) x
unfolding followed
unchanged-IsValid clock now ps o o' x h e e' v =
    rw (e, e', moved_same now x.state ps) (IsValid-later clock now ps x h v)

-- A call that writes one entry if `c` holds, and else none.
pub written-AllEntries :
    (clock now id : ℕ) (o : Option Entry) (e : Entry) (c : Bool) (periods : ℕ → List Segment)
    (d d' : ℕ → Option Entry)
    → clock ≤ now
    → d id ≡ o
    → AllEntries clock periods d
    → (c ≡ true → IsValid now (followed now o (some e) (periods id)) e)
    → d' ≡ (if c then put id e d else d)
    → AllEntries now (λ k. followed now (d k) (d' k) (periods k)) d'
written-AllEntries clock now id o e true periods d d' h stored w v q k x p =
    elim (Bool-cases (id == k)) [
      | inl here ↦
          let same : id ≡ k = ground arith in
          let at' : put id e d k ≡ some x = ap (λ (f : ℕ → Option Entry). f k) (sym q) ∙ p in
          let ex = some-injective e x (rw here at at') in
          subst (λ u. IsValid now (followed now (d k) u (periods k)) x) (sym p)
            (subst (λ j. IsValid now (followed now (d j) (some x) (periods j)) x) same
              (subst (λ (y : Entry). IsValid now (followed now (d id) (some y) (periods id)) y) ex
                (subst (λ u. IsValid now (followed now u (some e) (periods id)) e) (sym stored)
                  (v refl))))
      | inr other ↦
          let at' : put id e d k ≡ some x = ap (λ (f : ℕ → Option Entry). f k) (sym q) ∙ p in
          let was : d k ≡ some x = rw other at at' in
          unchanged-IsValid clock now (periods k) (d k) (d' k) x h was p (w k x was)
    ]
written-AllEntries clock now id o e false periods d d' h stored w v q k x p =
    let was : d k ≡ some x = ap (λ (f : ℕ → Option Entry). f k) (sym q) ∙ p in
    unchanged-IsValid clock now (periods k) (d k) (d' k) x h was p (w k x was)

-- What each call makes of an entry that is there, by the change of its state.
pub paused-Followed :
    (clock now : ℕ) (w : Option ℕ) (y : Entry) (ps : List Segment)
    → clock ≤ now
    → IsValid clock ps y
    → is_running y.state ≡ true
    → IsValid now (followed now (some y) (some (paused_entry w now y)) ps) (paused_entry w now y)
unfolding followed moved paused_entry adopt
paused-Followed clock now w y ps h v r =
    let was : y.state ≡ running = ground arith in
    subst (λ a. IsValid now (moved now a paused ps) (paused_entry w now y)) (sym was)
      (paused_entry-IsValid clock now w ps y h v was)

pub resumed-Followed :
    (clock now : ℕ) (w : Option ℕ) (y : Entry) (ps : List Segment)
    → clock ≤ now
    → IsValid clock ps y
    → is_paused y.state ≡ true
    → IsValid now (followed now (some y) (some (resumed_entry w now y)) ps) (resumed_entry w now y)
unfolding followed moved resumed_entry adopt
resumed-Followed clock now w y ps h v r =
    let was : y.state ≡ paused = ground arith in
    rw was (resumed_entry-IsValid clock now w ps y h v was)

pub finished-Followed :
    (clock now : ℕ) (w : Option ℕ) (y : Entry) (ps : List Segment)
    → clock ≤ now
    → IsValid clock ps y
    → IsValid now
        (followed now (some y) (some (finished_entry w now y)) ps)
        (finished_entry w now y)
unfolding followed finished_entry adopt
finished-Followed clock now w y ps h v = finished_entry-IsValid clock now w ps y h v

pub adopted-Followed :
    (clock now : ℕ) (w : Option ℕ) (y : Entry) (ps : List Segment)
    → clock ≤ now
    → IsValid clock ps y
    → IsValid now (followed now (some y) (some (adopt w y)) ps) (adopt w y)
unfolding followed adopt
adopted-Followed clock now w y ps h v =
    rw (moved_same now y.state ps) (adopt-IsValid now w ps y (IsValid-later clock now ps y h v))
