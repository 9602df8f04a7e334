-- ===== src/TimeTracking/Runs.antt =====
-- The invariant of `Totals` over whole histories of calls.
use clean.Base.{
  ℕ, ◌+◌, ◌*◌, ◌≤◌, ◌≡◌, refl, Bool, true, false, List, [], ◌∷◌, Option, none, some, arith,
}
use clean.TimeTracking.{
  Segment, Entry, Store, Ratio, new_entry, adopt, paused_entry, resumed_entry, finished_entry,
  start_time_tracking, pause_time_tracking, resume_time_tracking, finish_time_tracking, is_running,
  threshold_value, start_with, pause_with, resume_with, is_paused, finish_with,
}
use clean.TimeTracking.Segments.{closed_seconds-le}
use clean.TimeTracking.Totals.{IsValid, new_entry-IsValid}
use clean.TimeTracking.Calls.{
  Call, start_call, pause_call, resume_call, finish_call, perform, run, accepted, starts,
  first_entry, pause_with-entries, resume_with-entries, finish_with-entries, start_with-entries,
  start_booked-entries,
}
use clean.TimeTracking.Periods.{
  followed, run_periods, AllEntries, written-AllEntries, paused-Followed, resumed-Followed,
  finished-Followed, adopted-Followed,
}

abbrev raced_of : Call → Option (ℕ × Option ℕ)
raced_of (start_call id worker raced) = raced
raced_of c = none

abbrev pub AllValid : ℕ → (ℕ → List Segment) → Store → Type 0
AllValid clock periods s = (k : ℕ) (e : Entry) → s.entries k ≡ some e → IsValid clock (periods k) e

pause-AllValid :
    (clock now id : ℕ) (w : Option ℕ) (o : Option Entry) (ps : ℕ → List Segment) (s : Store)
    → clock ≤ now
    → s.entries id ≡ o
    → AllValid clock ps s
    → AllEntries now
        (λ k. followed now (s.entries k) ((pause_with id now w o s).0.entries k) (ps k))
        (pause_with id now w o s).0.entries
pause-AllValid clock now id w none ps s h e v =
    written-AllEntries clock now id none (new_entry 0 none) false ps s.entries _ h e v (λ q. cc)
      (unfold pause_with in refl)
pause-AllValid clock now id w (some y) ps s h e v =
    written-AllEntries clock now id (some y) (paused_entry w now y) (is_running y.state) ps
      s.entries _ h e v (λ r. paused-Followed clock now w y (ps id) h (v id y e) r)
      (pause_with-entries id now w y s)

resume-AllValid :
    (clock now id : ℕ) (w : Option ℕ) (o : Option Entry) (ps : ℕ → List Segment) (s : Store)
    → clock ≤ now
    → s.entries id ≡ o
    → AllValid clock ps s
    → AllEntries now
        (λ k. followed now (s.entries k) ((resume_with id now w o s).0.entries k) (ps k))
        (resume_with id now w o s).0.entries
resume-AllValid clock now id w none ps s h e v =
    written-AllEntries clock now id none (new_entry 0 none) false ps s.entries _ h e v (λ q. cc)
      (unfold resume_with in refl)
resume-AllValid clock now id w (some y) ps s h e v =
    written-AllEntries clock now id (some y) (resumed_entry w now y) (is_paused y.state) ps
      s.entries _ h e v (λ r. resumed-Followed clock now w y (ps id) h (v id y e) r)
      (resume_with-entries id now w y s)

finish-AllValid :
    (clock now id : ℕ) (reason : Bool) (r : Ratio) (w : Option ℕ) (o : Option Entry)
    (ps : ℕ → List Segment) (s : Store)
    → clock ≤ now
    → s.entries id ≡ o
    → AllValid clock ps s
    → AllEntries now
        (λ k. followed now (s.entries k) ((finish_with id now reason r w o s).0.entries k) (ps k))
        (finish_with id now reason r w o s).0.entries
finish-AllValid clock now id reason r w none ps s h e v =
    written-AllEntries clock now id none (new_entry 0 none) false ps s.entries _ h e v (λ q. cc)
      (unfold finish_with in refl)
finish-AllValid clock now id reason r w (some y) ps s h e v =
    written-AllEntries clock now id (some y) (finished_entry w now y) (accepted id now reason r y s)
      ps s.entries _ h e v (λ _. finished-Followed clock now w y (ps id) h (v id y e))
      (finish_with-entries id now reason r w y s)

abbrev pub IsRacedBefore : ℕ → Option (ℕ × Option ℕ) → Type 0
IsRacedBefore now none = Unit
IsRacedBefore now (some (t, other)) = t ≤ now

first_entry-IsValid :
    (now : ℕ) (w : Option ℕ) (raced : Option (ℕ × Option ℕ)) (ps : List Segment)
    → IsRacedBefore now raced
    → IsValid now (followed now none (some (first_entry now w raced)) ps) (first_entry now w raced)
unfolding followed new_entry
first_entry-IsValid now w none ps h = new_entry-IsValid now now w (omega arith)
first_entry-IsValid now w (some (t, other)) ps h = new_entry-IsValid t now other h

start-AllValid :
    (clock now id : ℕ) (w : Option ℕ) (raced : Option (ℕ × Option ℕ)) (o : Option Entry)
    (ps : ℕ → List Segment) (s : Store)
    → clock ≤ now
    → IsRacedBefore now raced
    → s.entries id ≡ o
    → AllValid clock ps s
    → AllEntries now
        (λ k. followed now (s.entries k) ((start_with id w now raced o s).0.entries k) (ps k))
        (start_with id w now raced o s).0.entries
unfolding start_with
start-AllValid clock now id w raced (some y) ps s h q e v =
    written-AllEntries clock now id (some y) (adopt w y) true ps s.entries _ h e v
      (λ _. adopted-Followed clock now w y (ps id) h (v id y e))
      (start_with-entries id now w raced y s)
start-AllValid clock now id w raced none ps s h q e v =
    written-AllEntries clock now id none (first_entry now w raced) (starts (s.bookings id)) ps
      s.entries _ h e v (λ _. first_entry-IsValid now w raced (ps id) q)
      (start_booked-entries id now w raced (s.bookings id) s)

abbrev pub FollowsClock : ℕ → List (ℕ × Call) → Type 0
FollowsClock clock [] = Unit
FollowsClock clock ((now, c) ∷ cs) =
    (clock ≤ now) × IsRacedBefore now (raced_of c) × FollowsClock now cs

abbrev pub last_time : ℕ → List (ℕ × Call) → ℕ
last_time clock [] = clock
last_time clock ((now, c) ∷ cs) = last_time now cs

perform-AllValid :
    (clock now : ℕ) (c : Call) (ps : ℕ → List Segment) (s : Store)
    → clock ≤ now
    → IsRacedBefore now (raced_of c)
    → AllValid clock ps s
    → AllValid now
        (λ k. followed now (s.entries k) ((perform now c s).0.entries k) (ps k))
        (perform now c s).0
unfolding perform start_time_tracking pause_time_tracking resume_time_tracking finish_time_tracking
perform-AllValid clock now (start_call id w raced) ps s h q v =
    start-AllValid clock now id w raced (s.entries id) ps s h q refl v
perform-AllValid clock now (pause_call id w) ps s h q v =
    pause-AllValid clock now id w (s.entries id) ps s h refl v
perform-AllValid clock now (resume_call id w) ps s h q v =
    resume-AllValid clock now id w (s.entries id) ps s h refl v
perform-AllValid clock now (finish_call id reason r default w) ps s h q v =
    finish-AllValid clock now id reason (threshold_value r default) w (s.entries id) ps s h refl v

run-AllValid_from :
    (clock : ℕ) (cs : List (ℕ × Call)) (ps : ℕ → List Segment) (s : Store)
    → FollowsClock clock cs
    → AllValid clock ps s
    → AllValid (last_time clock cs) (run_periods cs s ps) (run cs s)
unfolding run run_periods
run-AllValid_from clock [] ps s f v = v
run-AllValid_from clock ((now, c) ∷ cs) ps s f v =
    run-AllValid_from now cs _ (perform now c s).0 f.2 (perform-AllValid clock now c ps s f.0 f.1 v)

-- After any calls that follow the clock, on any bookings, every entry is valid by its periods of work,
-- from each call that sets it running to the next that sets it paused or finished: they follow one
-- another without overlap from its start up to now; exactly a running entry has a period that is not
-- ended, the last; its total is the whole seconds of the ended ones; and the segments stored are their
-- starts, all without an end.
pub run-AllValid :
    (cs : List (ℕ × Call)) (s : Store)
    → FollowsClock 0 cs
    → ((k : ℕ) → s.entries k ≡ none)
    → AllValid (last_time 0 cs) (run_periods cs s (λ k. [])) (run cs s)
run-AllValid cs s f empty_yet =
    run-AllValid_from 0 cs (λ k. []) s f (λ k e p. absurd (ground (arith, empty_yet k)))

-- Under the same conditions no entry counts more seconds than have passed since it was started.
pub total_seconds-le :
    (cs : List (ℕ × Call)) (s : Store) (k : ℕ) (e : Entry)
    → FollowsClock 0 cs
    → ((k : ℕ) → s.entries k ≡ none)
    → (run cs s).entries k ≡ some e
    → e.total_seconds * 1_000_000 + e.started_at ≤ last_time 0 cs
total_seconds-le cs s k e f empty_yet p =
    let v = run-AllValid cs s f empty_yet k e p in
    omega (arith, v.accounted, closed_seconds-le (last_time 0 cs) e.started_at _ v.chained)
