-- ===== src/Bookings/Runs.antt =====
-- The rows of bookings over histories of calls.
use clean.Base.{ℕ, Bool, true, ◌&&◌, List, [], ◌∷◌, Option, none, some, All, leb, ◌==◌}
use clean.Bookings.{
  DepositStatus, Booking, Store, Calendar, is_blocking, find, Decision, create_booking,
  reschedule_booking, cancel_booking, attach_checkout_session, mark_deposit_paid,
  mark_deposit_failed, mark_booking_completed, write, cleanup_stale_bookings, is_paid_through,
}
use clean.Bookings.Overlaps.{IsShort, AllApart}

-- The calls of the service; those on a booking name it, and are made on its row.
pub data Call : Type 0 where
  create_call : ℕ → ℕ → ℕ → ℕ → Option ℕ → Decision → Call
  reschedule_call : ℕ → ℕ → ℕ → Call
  cancel_call : ℕ → Call
  attach_call : ℕ → ℕ → Option ℕ → Call
  paid_call : Option ℕ → Option ℕ → Call
  failed_call : Option ℕ → Option ℕ → DepositStatus → Call
  cleanup_call : ℕ → Call
  complete_call : ℕ → ℕ → Call

unfoldable pub by_id : ℕ → Store → Option Booking
by_id id s = find (λ b. b.booking_id == id) s.bookings

unfoldable pub on_row : (Booking → Store → Store) → Option Booking → Store → Store
on_row f none s = s
on_row f (some b) s = f b s

unfoldable pub perform : Calendar → ℕ → Call → Store → Store
perform c now (create_call id team starts_at duration lead d) s =
    (create_booking c id now team starts_at duration lead d s).0
perform c now (reschedule_call id starts_at duration) s =
    on_row (λ b s. (reschedule_booking c starts_at duration b s).0) (by_id id s) s
perform c now (cancel_call id) s = on_row (λ b s. (cancel_booking b s).0) (by_id id s) s
perform c now (attach_call id checkout intent) s =
    on_row (λ b s. write (attach_checkout_session checkout intent b) s) (by_id id s) s
perform c now (paid_call checkout intent) s = (mark_deposit_paid checkout intent s).0
perform c now (failed_call checkout intent failure) s =
    (mark_deposit_failed checkout intent failure s).0
perform c now (cleanup_call threshold) s = (cleanup_stale_bookings threshold s).0
perform c now (complete_call id actual) s = (mark_booking_completed id actual s).0

unfoldable pub run : Calendar → List (ℕ × Call) → Store → Store
run c [] s = s
run c ((now, call) ∷ calls) s = run c calls (perform c now call s)

abbrev pub blocks : Option Booking → Bool
blocks none = true
blocks (some b) = is_blocking b.status

-- A call for at most twelve hours; a payment, for a booking that still blocks its time.
unfoldable pub is_orderly : Call → Store → Bool
is_orderly (create_call id team starts_at duration lead d) s = leb duration 720
is_orderly (reschedule_call id starts_at duration) s = leb duration 720
is_orderly (paid_call checkout intent) s =
    blocks (find (is_paid_through checkout intent) s.bookings)
is_orderly call s = true

unfoldable pub all_orderly : Calendar → List (ℕ × Call) → Store → Bool
all_orderly c [] s = true
all_orderly c ((now, call) ∷ calls) s =
    is_orderly call s && all_orderly c calls (perform c now call s)

-- Short rows, of which no two compete for the same time.
pub record IsValid (s : Store) : Type 0 where
  pub all_short : All IsShort s.bookings
  pub all_apart : AllApart s.bookings
