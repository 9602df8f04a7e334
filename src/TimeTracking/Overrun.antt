-- ===== src/TimeTracking/Overrun.antt =====
-- The check of an overrun against what is then stored, and the end of an entry's life.
use clean.Base.{
  ℕ, ◌+◌, ◌*◌, ◌≤◌, ◌<◌, ◌≡◌, ◌⊎◌, refl, false, Option, none, some, ok, ◌==◌, arith, ap, ◌/◌,
  Bool-cases, inl, inr,
}
use clean.TimeTracking.{
  finished, Entry, Booking, Store, Ratio, effective_total_seconds, close_active_segment, adopt,
  finished_entry, planned_seconds, exceeds, threshold_value, finish_with, finish_booking,
  minutes_up, finish_time_tracking,
}

-- What the check predicts is what the end stores.
finished_entry-total :
    (w : Option ℕ) (now : ℕ) (e : Entry)
    → (finished_entry w now e).total_seconds ≡ effective_total_seconds now e
unfolding finished_entry adopt effective_total_seconds close_active_segment
finished_entry-total w now e = ground arith

finish_some :
    (id now : ℕ) (r : Ratio) (w : Option ℕ) (s : Store) (b : Booking) (planned : ℕ) (x e : Entry)
    → s.bookings id ≡ some b
    → planned_seconds b ≡ some planned
    → (finish_with id now false r w (some x) s).1 ≡ ok (some e)
    → (e ≡ finished_entry w now x)
      × (exceeds (effective_total_seconds now x) planned r ≡ false)
      × ((finish_with id now false r w (some x) s).0.bookings id
          ≡ some (finish_booking e.total_seconds b))
unfolding finish_with
finish_some id now r w s b planned x e at' plan done = ground arith

-- How an end that gave `e` has left the booking.
pub record BookedAs (e : Entry) (b' : Booking) : Type 0 where
  pub seconds : b'.actual_seconds ≡ some e.total_seconds
  pub minutes :
      (e.total_seconds ≡ 0)
      ⊎ ((m : ℕ) × (b'.actual_duration_minutes ≡ some m)
          × (e.total_seconds ≤ m * 60)
          × (m * 60 < e.total_seconds + 60))

finish_booking-BookedAs : (e : Entry) (b : Booking) → BookedAs e (finish_booking e.total_seconds b)
unfolding finish_booking minutes_up
finish_booking-BookedAs e b = elim (Bool-cases (e.total_seconds == 0)) [
  | inl zero_total ↦ record { seconds = refl; minutes = inl (ground arith) }
  | inr some_total ↦ record {
    seconds = refl;
    minutes = inr ((e.total_seconds + 59) / 60, rw some_total, omega arith, omega arith);
  }
]

finish_with_within :
    (id now : ℕ) (r : Ratio) (w : Option ℕ) (o : Option Entry) (s : Store) (b : Booking)
    (planned : ℕ) (e : Entry)
    → s.bookings id ≡ some b
    → planned_seconds b ≡ some planned
    → (finish_with id now false r w o s).1 ≡ ok (some e)
    → (e.state ≡ finished)
      × (exceeds e.total_seconds planned r ≡ false)
      × (b' : Booking) × ((finish_with id now false r w o s).0.bookings id ≡ some b')
      × BookedAs e b'
unfolding finished_entry adopt
finish_with_within id now r w none s b planned e at' plan done = unfold finish_with in cc
finish_with_within id now r w (some x) s b planned e at' plan done =
    let (same, fits, stored) = finish_some id now r w s b planned x e at' plan done in
    (
      ap (λ (y : Entry). y.state) same,
      rw (ap (λ (y : Entry). y.total_seconds) same, finished_entry-total w now x) fits,
      finish_booking e.total_seconds b,
      stored,
      finish_booking-BookedAs e b,
    )

-- An end without a reason that goes through has stored a total that does not exceed the planned
-- time by the threshold; the booking's seconds are that total, and its minutes the total rounded up
-- to whole minutes, unless it is 0.
pub finish_within_plan :
    (id now : ℕ) (threshold : Option Ratio) (default : Ratio) (w : Option ℕ) (s : Store)
    (b : Booking) (planned : ℕ) (e : Entry)
    → s.bookings id ≡ some b
    → planned_seconds b ≡ some planned
    → (finish_time_tracking id now false threshold default w s).1 ≡ ok (some e)
    → (e.state ≡ finished)
      × (exceeds e.total_seconds planned (threshold_value threshold default) ≡ false)
      × (b' : Booking) × ((finish_time_tracking id now false threshold default w s).0.bookings id
          ≡ some b')
      × BookedAs e b'
unfolding finish_time_tracking
finish_within_plan id now threshold default w s b planned e =
    finish_with_within id now (threshold_value threshold default) w (s.entries id) s b planned e
