-- ===== src/Bookings.antt =====
-- app/domain/bookings/service.py: the life of a booking, from its creation for a team to its end.
-- The row of an operation is the one that its caller has loaded. Events, credits and mails are left
-- out.
mod Rows
mod Slots
pub mod Free
pub mod Available
pub mod Overlaps
pub mod Runs
pub mod Written
pub mod Apart
pub mod Policies
pub mod Revival
mod Scenarios
pub use Rows.*
unfoldable pub use Slots.*
use clean.Base.{
  ℕ, ◌+◌, ◌*◌, Bool, true, false, not, ◌&&◌, ◌||◌, List, [], ◌∷◌, Option, none, some, ltb, leb,
  ◌==◌, if◌then◌else◌, any, keep, ◌or_else◌, is_some, Result, ok, err, length, map,
}

-- `BOOKING_TRANSITIONS`
pub may_become : Status → Status → Bool
may_become pending confirmed = true
may_become pending cancelled = true
may_become confirmed done = true
may_become confirmed cancelled = true
may_become _ _ = false

abbrev is_terminal : Status → Bool
is_terminal done = true
is_terminal cancelled = true
is_terminal _ = false

abbrev pub is_same : Status → Status → Bool
is_same pending pending = true
is_same confirmed confirmed = true
is_same done done = true
is_same cancelled cancelled = true
is_same _ _ = false

-- `assert_valid_booking_transition`: the error that it raises, if any.
pub assert_valid_booking_transition : Status → Status → Option Error
unfolding may_become
assert_valid_booking_transition current target =
    if is_same current target
    then none
    else (if is_terminal current
        then some terminal_status
        else (if may_become current target then none else some bad_transition))

-- The row of a booking written.
pub replace : Booking → List Booking → List Booking
replace b [] = []
replace b (x ∷ xs) =
    let rest = replace b xs in if x.booking_id == b.booking_id then b ∷ rest else x ∷ rest

pub find : (Booking → Bool) → List Booking → Option Booking
find p [] = none
find p (x ∷ xs) = let rest = find p xs in if p x then some x else rest

pub write : Booking → Store → Store
unfolding replace
write b s = record s { bookings = replace b s.bookings }

-- What is decided about a booking before it is created: the deposit and the risk.
pub record Decision : Type 0 where
  pub required : Bool
  pub deposit_cents : Option ℕ
  pub is_high_risk : Bool

unfoldable pub new_booking : ℕ → ℕ → ℕ → ℕ → ℕ → Option ℕ → Decision → Booking
new_booking id now team starts_at duration lead d = record {
  booking_id = id;
  team_id = team;
  lead_id = lead;
  starts_at = starts_at;
  duration_minutes = duration;
  planned_minutes = some duration;
  status = pending;
  is_high_risk = d.is_high_risk;
  deposit_required = d.required;
  deposit_cents = d.deposit_cents;
  deposit_status = if d.required then some awaiting else none;
  checkout_session_id = none;
  payment_intent_id = none;
  created_at = now;
  actual_duration_minutes = none;
  actual_seconds = none;
}

unfoldable pub insert : Calendar → Booking → Store → Store × Result Error Booking
insert c b s =
    if is_slot_available c b.starts_at b.duration_minutes s b.team_id none
    then (record s { bookings = b ∷ s.bookings }, ok b)
    else (s, err slot_taken)

-- `create_booking` for a team, on what was decided.
unfoldable pub create_booking :
    Calendar → ℕ → ℕ → ℕ → ℕ → ℕ → Option ℕ → Decision → Store → Store × Result Error Booking
unfolding insert new_booking
create_booking c id now team starts_at duration lead d s =
    if any (λ t. t == team) s.teams
    then insert c (new_booking id now team starts_at duration lead d) s
    else (s, err team_not_found)

-- `reschedule_booking`
pub reschedule_booking : Calendar → ℕ → ℕ → Booking → Store → Store × Result Error Booking
unfolding write
reschedule_booking c starts_at duration b s =
    let b' = record b { starts_at = starts_at; duration_minutes = duration } in
    if is_same b.status cancelled
    then (s, err reschedule_cancelled)
    else (if is_slot_available c starts_at duration s b.team_id (some b.booking_id)
        then (write b' s, ok b')
        else (s, err slot_taken))

pub cancel_unless : Option Error → Booking → Store → Store × Result Error Booking
unfolding write
cancel_unless (some e) b s = (s, err e)
cancel_unless none b s =
    (write (record b { status = cancelled }) s, ok (record b { status = cancelled }))

-- `cancel_booking`
pub cancel_booking : Booking → Store → Store × Result Error Booking
unfolding assert_valid_booking_transition cancel_unless
cancel_booking b s = cancel_unless (assert_valid_booking_transition b.status cancelled) b s

-- `attach_checkout_session`
pub attach_checkout_session : ℕ → Option ℕ → Booking → Booking
attach_checkout_session checkout intent b = record b {
  checkout_session_id = some checkout;
  payment_intent_id = intent or_else b.payment_intent_id;
  deposit_status =
      if b.deposit_required then b.deposit_status or_else some awaiting else b.deposit_status;
}

same_key : Option ℕ → Option ℕ → Bool
same_key (some a) (some b) = a == b
same_key _ _ = false

-- `or_(*conditions)`; with no condition the callers return at once.
pub is_paid_through : Option ℕ → Option ℕ → Booking → Bool
unfolding same_key
is_paid_through checkout intent b =
    same_key checkout b.checkout_session_id || same_key intent b.payment_intent_id

-- The booking of `mark_deposit_paid`.
pub deposit_paid : Option ℕ → Booking → Booking
deposit_paid intent b = record b {
  deposit_status = some paid;
  status = if b.is_high_risk then b.status else confirmed;
  payment_intent_id = intent or_else b.payment_intent_id;
}

write_found : (Booking → Booking) → Option Booking → Store → Store × Option Booking
unfolding write
write_found f none s = (s, none)
write_found f (some b) s = (write (f b) s, some (f b))

-- `mark_deposit_paid`, without the analytics, the referral credit and the mail.
pub mark_deposit_paid : Option ℕ → Option ℕ → Store → Store × Option Booking
unfolding find write_found deposit_paid
mark_deposit_paid checkout intent s =
    write_found (deposit_paid intent) (find (is_paid_through checkout intent) s.bookings) s

abbrev pub is_paid : Option DepositStatus → Bool
is_paid (some paid) = true
is_paid _ = false

pub deposit_failed : DepositStatus → Booking → Booking
deposit_failed failure b = if is_paid b.deposit_status then b else record b {
  deposit_status = some failure;
  status = if is_same b.status pending then cancelled else b.status;
}

-- `mark_deposit_failed`
pub mark_deposit_failed : Option ℕ → Option ℕ → DepositStatus → Store → Store × Option Booking
unfolding find write_found deposit_failed
mark_deposit_failed checkout intent failure s =
    write_found (deposit_failed failure) (find (is_paid_through checkout intent) s.bookings) s

is_stale : ℕ → Booking → Bool
is_stale threshold b = is_same b.status pending && ltb b.created_at threshold

-- `cleanup_stale_bookings`
pub cleanup_stale_bookings : ℕ → Store → Store × ℕ
unfolding is_stale
cleanup_stale_bookings threshold s = (
  record s { bookings = keep (λ b. not (is_stale threshold b)) s.bookings },
  length (keep (is_stale threshold) s.bookings),
)

pub completed : ℕ → Booking → Booking
completed actual b = record b {
  actual_duration_minutes = some actual;
  actual_seconds = some (actual * 60);
  status = done;
}

complete : ℕ → Option Booking → Store → Store × Result Error (Option Booking)
unfolding write completed
complete actual none s = (s, ok none)
complete actual (some b) s =
    if is_some b.actual_duration_minutes
    then (s, err already_completed)
    else (write (completed actual b) s, ok (some (completed actual b)))

-- `mark_booking_completed`
pub mark_booking_completed : ℕ → ℕ → Store → Store × Result Error (Option Booking)
unfolding find complete
mark_booking_completed id actual s =
    if actual == 0
    then (s, err not_positive)
    else complete actual (find (λ b. b.booking_id == id) s.bookings) s
