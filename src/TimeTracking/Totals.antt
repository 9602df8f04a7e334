-- ===== src/TimeTracking/Totals.antt =====
-- The stored total of an entry against its periods of work and the clock.
use clean.Base.{
  ℕ, ◌≤◌, ◌≡◌, ◌≢◌, refl, sym, ap, ◌∙◌, ◌++◌, List, [], ◌∷◌, Option, none, some, arith,
}
use clean.TimeTracking.{
  Segment, active_segment, State, running, paused, finished, Entry, close_active_segment, new_entry,
  adopt, paused_entry, resumed_entry, finished_entry, stop,
}
use clean.TimeTracking.Segments.{
  stored, close_last, stored-close_last, stored-append, active_segment-stored, closed_seconds,
  AllClosed, OpensLast, Chain, active-OpensLast, close_last-seconds, close_last-AllClosed,
  close_last-Chain, append-OpensLast, append-closed_seconds, append-Chain, Chain-later,
}

-- How a change of state at the time `now` changes the periods of work: what leaves `running` ends the
-- last one, what enters it begins one.
unfoldable pub moved : ℕ → State → State → List Segment → List Segment
moved now running running periods = periods
moved now running _ periods = close_last now periods
moved now paused running periods = periods ++ record { start = now; end = none } ∷ []
moved now _ _ periods = periods

-- An entry at the time `clock`, with its periods of work, of which only the starts are stored.
pub record IsValid (clock : ℕ) (periods : List Segment) (e : Entry) : Type 0 where
  pub segments_stored : e.segments ≡ stored periods
  pub accounted : e.total_seconds ≡ closed_seconds periods
  pub chained : Chain clock e.started_at periods
  pub open_running : e.state ≡ running → OpensLast periods
  pub closed_else : e.state ≢ running → AllClosed periods

pub new_entry-IsValid :
    (t now : ℕ) (w : Option ℕ)
    → t ≤ now
    → IsValid now (record { start = t; end = none } ∷ []) (new_entry t w)
unfolding new_entry
new_entry-IsValid t now w h = record {
  segments_stored = refl;
  accounted = refl;
  chained = (omega arith, (omega arith, refl));
  open_running = λ _. refl;
  closed_else = λ r. absurd (r refl);
}

pub IsValid-later :
    (clock now : ℕ) (ps : List Segment) (e : Entry)
    → clock ≤ now
    → IsValid clock ps e
    → IsValid now ps e
IsValid-later clock now ps e h v = record {
  segments_stored = v.segments_stored;
  accounted = v.accounted;
  chained = Chain-later clock now e.started_at ps h v.chained;
  open_running = v.open_running;
  closed_else = v.closed_else;
}

pub adopt-IsValid :
    (clock : ℕ) (w : Option ℕ) (ps : List Segment) (e : Entry)
    → IsValid clock ps e
    → IsValid clock ps (adopt w e)
unfolding adopt
adopt-IsValid clock w ps e v = record {
  segments_stored = v.segments_stored;
  accounted = v.accounted;
  chained = v.chained;
  open_running = v.open_running;
  closed_else = v.closed_else;
}

-- Closing the running segment ends the last period, and moves its seconds into the total.
pub record WasClosed (clock : ℕ) (periods : List Segment) (e e' : Entry) : Type 0 where
  pub segments_stored : e'.segments ≡ stored periods
  pub accounted : e'.total_seconds ≡ closed_seconds periods
  pub chained : Chain clock e.started_at periods
  pub all_closed : AllClosed periods
  pub same_start : e'.started_at ≡ e.started_at

close_active_segment-closes :
    (clock now : ℕ) (ps : List Segment) (e : Entry)
    → clock ≤ now
    → IsValid clock ps e
    → e.state ≡ running
    → WasClosed now (close_last now ps) e (close_active_segment now e)
unfolding close_active_segment
close_active_segment-closes clock now ps e h v r =
    let (x, a) = active-OpensLast ps (v.open_running r) in
    let last : active_segment e.segments ≡ some x =
      ap active_segment v.segments_stored ∙ active_segment-stored ps x a in
    rw last (record {
      segments_stored = v.segments_stored ∙ sym (stored-close_last now ps);
      accounted = omega (arith, v.accounted, close_last-seconds now ps x a);
      chained = close_last-Chain clock now e.started_at ps h v.chained;
      all_closed = close_last-AllClosed now ps (v.open_running r);
      same_start = refl;
    })

pub paused_entry-IsValid :
    (clock now : ℕ) (w : Option ℕ) (ps : List Segment) (e : Entry)
    → clock ≤ now
    → IsValid clock ps e
    → e.state ≡ running
    → IsValid now (close_last now ps) (paused_entry w now e)
unfolding paused_entry adopt
paused_entry-IsValid clock now w ps e h v r =
    let c = close_active_segment-closes clock now ps e h v r in
    record {
      segments_stored = c.segments_stored;
      accounted = c.accounted;
      chained = rw c.same_start c.chained;
      open_running = λ p. cc;
      closed_else = λ _. c.all_closed;
    }

pub resumed_entry-IsValid :
    (clock now : ℕ) (w : Option ℕ) (ps : List Segment) (e : Entry)
    → clock ≤ now
    → IsValid clock ps e
    → e.state ≡ paused
    → IsValid now (ps ++ record { start = now; end = none } ∷ []) (resumed_entry w now e)
unfolding resumed_entry adopt
resumed_entry-IsValid clock now w ps e h v p =
    let closed = v.closed_else (λ r. ground arith) in
    record {
      segments_stored =
          ap (λ (xs : List Segment). xs ++ record { start = now; end = none } ∷ [])
            v.segments_stored
          ∙ sym (stored-append now ps);
      accounted = v.accounted ∙ sym (append-closed_seconds now ps);
      chained = append-Chain clock now e.started_at ps h closed v.chained;
      open_running = λ _. append-OpensLast now ps closed;
      closed_else = λ r. absurd (r refl);
    }

stop-closes :
    (clock now : ℕ) (ps : List Segment) (e : Entry) (a : State)
    → clock ≤ now
    → IsValid clock ps e
    → e.state ≡ a
    → WasClosed now (moved now a finished ps) e (stop a now e)
unfolding stop moved
stop-closes clock now ps e running h v r = close_active_segment-closes clock now ps e h v r
stop-closes clock now ps e a h v r = record {
  segments_stored = v.segments_stored;
  accounted = v.accounted;
  chained = Chain-later clock now e.started_at ps h v.chained;
  all_closed = v.closed_else (λ q. ground arith);
  same_start = refl;
}

pub finished_entry-IsValid :
    (clock now : ℕ) (w : Option ℕ) (ps : List Segment) (e : Entry)
    → clock ≤ now
    → IsValid clock ps e
    → IsValid now (moved now e.state finished ps) (finished_entry w now e)
unfolding finished_entry adopt
finished_entry-IsValid clock now w ps e h v =
    let c = stop-closes clock now ps e e.state h v refl in
    record {
      segments_stored = c.segments_stored;
      accounted = c.accounted;
      chained = rw c.same_start c.chained;
      open_running = λ p. cc;
      closed_else = λ _. c.all_closed;
    }
