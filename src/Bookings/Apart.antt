-- ===== src/Bookings/Apart.antt =====
-- The rows of bookings through each call: how far apart they are.
use clean.Base.{
  ℕ, ◌≡◌, refl, Bool, true, not, List, [], ◌∷◌, Option, none, some, keep, All, ◌==◌, Bool-cases,
  inl, inr, arith, is_some,
}
use clean.Bookings.{
  DepositStatus, Booking, Store, Calendar, find, cancel_booking, attach_checkout_session,
  deposit_paid, deposit_failed, mark_deposit_paid, mark_deposit_failed, mark_booking_completed,
  completed, complete, write_found, cleanup_stale_bookings, is_paid_through, is_stale, is_paid,
}
use clean.Bookings.Overlaps.{are_apart, IsShort, AllApart, found_All}
use clean.Bookings.Runs.{
  Call, create_call, reschedule_call, cancel_call, attach_call, paid_call, failed_call,
  cleanup_call, complete_call, blocks, by_id, on_row, perform, run, is_orderly, all_orderly,
  IsValid,
}
use clean.Bookings.Written.{
  found-IsValid, create-IsValid, reschedule-IsValid, cancel_unless-IsValid,
}

keep_stays {ℓ} :
    (P : Booking → Type ℓ) (p : Booking → Bool) (xs : List Booking) → All P xs → All P (keep p xs)
keep_stays P p [] a = a
keep_stays P p (x ∷ xs) a = elim (Bool-cases (p x)) [
  | inl q ↦ rw q (a.0, keep_stays P p xs a.1)
  | inr q ↦ rw q (keep_stays P p xs a.1)
]

keep_apart : (p : Booking → Bool) (xs : List Booking) → AllApart xs → AllApart (keep p xs)
unfolding AllApart
keep_apart p [] a = a
keep_apart p (x ∷ xs) a = elim (Bool-cases (p x)) [
  | inl q ↦ rw q (keep_stays (λ y. are_apart x y ≡ true) p xs a.0, keep_apart p xs a.1)
  | inr q ↦ rw q (keep_apart p xs a.1)
]

paid-IsValid :
    (p : Booking → Bool) (o : Option Booking) (intent : Option ℕ) (s : Store)
    → find p s.bookings ≡ o
    → blocks o ≡ true
    → IsValid s
    → IsValid (write_found (deposit_paid intent) o s).0
unfolding write_found deposit_paid
paid-IsValid p none intent s h k v = v
paid-IsValid p (some b) intent s h k v = found-IsValid p b _ s h refl refl refl refl (λ _. k) v

failed-IsValid :
    (p : Booking → Bool) (o : Option Booking) (failure : DepositStatus) (s : Store)
    → find p s.bookings ≡ o
    → IsValid s
    → IsValid (write_found (deposit_failed failure) o s).0
unfolding write_found deposit_failed
failed-IsValid p none failure s h v = v
failed-IsValid p (some b) failure s h v = elim (Bool-cases (is_paid b.deposit_status)) [
  | inl q ↦ rw q (found-IsValid p b b s h refl refl refl refl (λ r. r) v)
  | inr q ↦ rw q (found-IsValid p b _ s h refl refl refl refl (λ r. ground arith) v)
]

complete-IsValid :
    (p : Booking → Bool) (o : Option Booking) (actual : ℕ) (s : Store)
    → find p s.bookings ≡ o
    → IsValid s
    → IsValid (complete actual o s).0
unfolding complete completed
complete-IsValid p none actual s h v = v
complete-IsValid p (some b) actual s h v = elim (Bool-cases (is_some b.actual_duration_minutes)) [
  | inl q ↦ rw q v
  | inr q ↦ rw q (found-IsValid p b _ s h refl refl refl refl (λ r. absurd (cc r)) v)
]

on_row-IsValid :
    (f : Booking → Store → Store) (p : Booking → Bool) (o : Option Booking) (s : Store)
    → find p s.bookings ≡ o
    → ((b : Booking) → find p s.bookings ≡ some b → IsValid (f b s))
    → IsValid s
    → IsValid (on_row f o s)
unfolding on_row
on_row-IsValid f p none s h k v = v
on_row-IsValid f p (some b) s h k v = k b h

completed-IsValid :
    (id actual : ℕ) (s : Store) → IsValid s → IsValid (mark_booking_completed id actual s).0
unfolding mark_booking_completed
completed-IsValid id actual s v = elim (Bool-cases (actual == 0)) [
  | inl q ↦ rw q v
  | inr q ↦ rw q (complete-IsValid (λ b. b.booking_id == id) _ actual s refl v)
]

perform-IsValid :
    (c : Calendar) (now : ℕ) (call : Call) (s : Store)
    → is_orderly call s ≡ true
    → IsValid s
    → IsValid (perform c now call s)
unfolding perform is_orderly by_id cancel_booking mark_deposit_paid mark_deposit_failed
    cleanup_stale_bookings attach_checkout_session
perform-IsValid c now (create_call id team starts_at duration lead d) s h v =
    create-IsValid c id now team starts_at duration lead d s (ground arith) v
perform-IsValid c now (reschedule_call id starts_at duration) s h v =
    on_row-IsValid _ (λ b. b.booking_id == id) _ s refl
      (λ b _. reschedule-IsValid c starts_at duration b s (ground arith) v) v
perform-IsValid c now (cancel_call id) s h v =
    on_row-IsValid _ (λ b. b.booking_id == id) _ s refl
      (λ b at'. cancel_unless-IsValid _ b s (found_All IsShort _ s.bookings b at' v.all_short) v) v
perform-IsValid c now (attach_call id checkout intent) s h v =
    on_row-IsValid _ (λ b. b.booking_id == id) _ s refl
      (λ b at'. found-IsValid _ b _ s at' refl refl refl refl (λ r. r) v) v
perform-IsValid c now (paid_call checkout intent) s h v =
    paid-IsValid (is_paid_through checkout intent) _ intent s refl h v
perform-IsValid c now (failed_call checkout intent failure) s h v =
    failed-IsValid (is_paid_through checkout intent) _ failure s refl v
perform-IsValid c now (cleanup_call threshold) s h v = record {
  all_short = keep_stays IsShort (λ b. not (is_stale threshold b)) s.bookings v.all_short;
  all_apart = keep_apart (λ b. not (is_stale threshold b)) s.bookings v.all_apart;
}
perform-IsValid c now (complete_call id actual) s h v = completed-IsValid id actual s v

-- After any orderly calls no two bookings of a team that are pending or confirmed come closer than
-- half an hour to each other, if none did before. Orderly calls book at most twelve hours at a time,
-- and report payments only for bookings that are still pending or confirmed.
pub orderly_run-IsValid :
    (c : Calendar) (calls : List (ℕ × Call)) (s : Store)
    → all_orderly c calls s ≡ true
    → IsValid s
    → IsValid (run c calls s)
unfolding run all_orderly
orderly_run-IsValid c [] s h v = v
orderly_run-IsValid c ((now, call) ∷ calls) s h v =
    orderly_run-IsValid c calls (perform c now call s) (ground arith)
      (perform-IsValid c now call s (ground arith) v)
