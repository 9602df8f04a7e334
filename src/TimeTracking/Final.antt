-- ===== src/TimeTracking/Final.antt =====
-- What later calls leave of an entry that is finished.
use clean.Base.{
  ℕ, ◌≡◌, refl, ap, ◌∙◌, Bool, true, false, List, [], ◌∷◌, Option, none, some, put, put-follows,
  put-untaken, if◌then◌else◌, arith,
}
use clean.TimeTracking.{
  finished, Entry, Store, adopt, paused_entry, resumed_entry, finished_entry, is_running, is_paused,
  start_time_tracking, pause_time_tracking, resume_time_tracking, finish_time_tracking, start_with,
  pause_with, resume_with, finish_with, threshold_value,
}
use clean.TimeTracking.Calls.{
  Call, start_call, pause_call, resume_call, finish_call, perform, run, accepted, starts,
  first_entry, pause_with-entries, resume_with-entries, finish_with-entries, start_with-entries,
  start_booked-entries,
}

-- An entry as another was, but for the worker.
abbrev pub IsSameWork : Entry → Entry → Type 0
IsSameWork e e' = e' ≡ record e { worker_id = e'.worker_id }

abbrev Step : Entry → Entry → Type 0
Step e e' = e.state ≡ finished → IsSameWork e e'

-- Every entry is still there, and a finished one as it was.
abbrev Later : (ℕ → Option Entry) → (ℕ → Option Entry) → Type 0
Later d d' = (j : ℕ) (u : Entry) → d j ≡ some u → (u' : Entry) × (d' j ≡ some u') × Step u u'

-- A call that writes over one entry if `c` holds, and else nothing.
written-Later :
    (id : ℕ) (old new : Entry) (c : Bool) (d d' : ℕ → Option Entry)
    → d id ≡ some old
    → (c ≡ true → Step old new)
    → d' ≡ (if c then put id new d else d)
    → Later d d'
written-Later id old new true d d' there step q j u e =
    let (u', at', kept) = put-follows Step id old new d (λ v _. refl) there (step refl) j u e in
    (u', ap (λ (f : ℕ → Option Entry). f j) q ∙ at', kept)
written-Later id old new false d d' there step q j u e =
    (u, ap (λ (f : ℕ → Option Entry). f j) q ∙ e, λ _. refl)

inserted-Later :
    (id : ℕ) (new : Entry) (c : Bool) (d d' : ℕ → Option Entry)
    → d id ≡ none
    → d' ≡ (if c then put id new d else d)
    → Later d d'
inserted-Later id new true d d' free q j u e =
    (u, ap (λ (f : ℕ → Option Entry). f j) q ∙ put-untaken id new d free j u e, λ _. refl)
inserted-Later id new false d d' free q j u e =
    (u, ap (λ (f : ℕ → Option Entry). f j) q ∙ e, λ _. refl)

start-Later :
    (id now : ℕ) (w : Option ℕ) (raced : Option (ℕ × Option ℕ)) (o : Option Entry) (s : Store)
    → s.entries id ≡ o
    → Later s.entries (start_with id w now raced o s).0.entries
unfolding start_with adopt
start-Later id now w raced none s e =
    inserted-Later id (first_entry now w raced) (starts (s.bookings id)) s.entries _ e
      (start_booked-entries id now w raced (s.bookings id) s)
start-Later id now w raced (some y) s e =
    written-Later id y (adopt w y) true s.entries _ e (λ _ _. refl)
      (start_with-entries id now w raced y s)

pause-Later :
    (id now : ℕ) (w : Option ℕ) (o : Option Entry) (s : Store)
    → s.entries id ≡ o
    → Later s.entries (pause_with id now w o s).0.entries
unfolding pause_with
pause-Later id now w none s e = λ j u at'. (u, at', λ _. refl)
pause-Later id now w (some y) s e =
    written-Later id y (paused_entry w now y) (is_running y.state) s.entries _ e
      (λ r final. absurd (ground arith)) (pause_with-entries id now w y s)

resume-Later :
    (id now : ℕ) (w : Option ℕ) (o : Option Entry) (s : Store)
    → s.entries id ≡ o
    → Later s.entries (resume_with id now w o s).0.entries
unfolding resume_with
resume-Later id now w none s e = λ j u at'. (u, at', λ _. refl)
resume-Later id now w (some y) s e =
    written-Later id y (resumed_entry w now y) (is_paused y.state) s.entries _ e
      (λ r final. absurd (ground arith)) (resume_with-entries id now w y s)

perform-Later : (now : ℕ) (c : Call) (s : Store) → Later s.entries (perform now c s).0.entries
unfolding perform start_time_tracking pause_time_tracking resume_time_tracking finish_time_tracking
perform-Later now (start_call id w raced) s = start-Later id now w raced (s.entries id) s refl
perform-Later now (pause_call id w) s = pause-Later id now w (s.entries id) s refl
perform-Later now (resume_call id w) s = resume-Later id now w (s.entries id) s refl
perform-Later now (finish_call id reason r default w) s = finish-Later id now (s.entries id) refl
  where
    finish-Later :
        (id now : ℕ) (o : Option Entry)
        → s.entries id ≡ o
        → Later s.entries (finish_with id now reason (threshold_value r default) w o s).0.entries
    finish-Later id now none e = unfold finish_with in (λ j u at'. (u, at', λ _. refl))
    finish-Later id now (some y) e =
        written-Later id y (finished_entry w now y)
          (accepted id now reason (threshold_value r default) y s) s.entries _ e
          (λ q final. absurd (ground arith))
          (finish_with-entries id now reason (threshold_value r default) w y s)

-- Whatever calls are made after an entry is finished, at whatever times, starts, pauses, resumptions
-- and ends of its booking among them: the entry is still there and finished, and its total, its times
-- and its segments are what they were. Only the worker may differ.
pub finished_is_final :
    (cs : List (ℕ × Call)) (s : Store) (k : ℕ) (e : Entry)
    → s.entries k ≡ some e
    → e.state ≡ finished
    → (e' : Entry) × ((run cs s).entries k ≡ some e') × (e'.state ≡ finished) × IsSameWork e e'
unfolding run
finished_is_final [] s k e there final = (e, there, final, refl)
finished_is_final ((now, c) ∷ cs) s k e there final =
    let (e1, there1, step) = perform-Later now c s k e there in
    let same = step final in
    let final1 : e1.state ≡ finished = ap (λ (x : Entry). x.state) same ∙ final in
    let (e2, there2, final2, same2) = finished_is_final cs (perform now c s).0 k e1 there1 final1 in
    (e2, there2, final2, same2 ∙ ap (λ (x : Entry). record x { worker_id = e2.worker_id }) same)
