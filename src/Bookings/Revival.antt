-- ===== src/Bookings/Revival.antt =====
-- The status of a booking through the calls that change it.
use clean.Base.{
  ℕ, ◌+◌, ◌<◌, ◌≡◌, refl, ap, ◌∙◌, Bool, true, false, List, [], ◌∷◌, Option, none, some, ok, ◌⊎◌,
  ◌==◌, Bool-cases, inl, inr, arith,
}
use mathlib.Core.Option.{some-injective}
use clean.Bookings.Overlaps.{are_apart, AllApart, found_All, found_apart}
use clean.Bookings.{
  find, is_paid_through, mark_deposit_paid, write, write_found, Status, pending, confirmed, done,
  cancelled, DepositStatus, Booking, Store, Error, may_become, assert_valid_booking_transition,
  cancel_booking, cancel_unless, deposit_paid, deposit_failed, replace, buffer, finish, is_blocking,
}

cancel_allowed :
    (a : Status)
    → assert_valid_booking_transition a cancelled ≡ none
    → (a ≡ cancelled) ⊎ (may_become a cancelled ≡ true)
unfolding assert_valid_booking_transition may_become
cancel_allowed pending h = inr refl
cancel_allowed confirmed h = inr refl
cancel_allowed done h = cc
cancel_allowed cancelled h = inl refl

cancel_unless-ok :
    (o : Option Error) (b b' : Booking) (s : Store)
    → (cancel_unless o b s).1 ≡ ok b'
    → (o ≡ none) × (b'.status ≡ cancelled)
unfolding cancel_unless
cancel_unless-ok none b b' s h = (refl, ground arith)
cancel_unless-ok (some e) b b' s h = cc

-- A cancellation that goes through leaves the booking cancelled, from a status that the table of
-- transitions lets become cancelled, or from cancelled itself.
pub cancel_booking-allowed :
    (b b' : Booking) (s : Store)
    → (cancel_booking b s).1 ≡ ok b'
    → (b'.status ≡ cancelled) × ((b.status ≡ cancelled) ⊎ (may_become b.status cancelled ≡ true))
unfolding cancel_booking
cancel_booking-allowed b b' s h =
    let (allowed, becomes) = cancel_unless-ok _ b b' s h in
    (becomes, cancel_allowed b.status allowed)

-- A deposit that fails leaves the status, or changes it as the table of transitions allows.
pub deposit_failed-allowed :
    (failure : DepositStatus) (b : Booking)
    → ((deposit_failed failure b).status ≡ b.status)
      ⊎ (may_become b.status (deposit_failed failure b).status ≡ true)
unfolding deposit_failed may_become
deposit_failed-allowed failure b = ground arith

abbrev by_id : ℕ → Booking → Bool
by_id id x = x.booking_id == id

replace-finds :
    (q : Booking → Bool) (b new : Booking) (xs : List Booking)
    → find q xs ≡ some b
    → new.booking_id ≡ b.booking_id
    → find (by_id new.booking_id) (replace new xs) ≡ some new
unfolding find replace
replace-finds q b new [] h same = cc
replace-finds q b new (x ∷ xs) h same = elim (Bool-cases (x.booking_id == new.booking_id)) [
  | inl here ↦ let own : by_id new.booking_id new ≡ true = ground arith in rw (here, own) refl
  | inr other ↦ elim (Bool-cases (q x)) [
    | inl first ↦
        let e : some x ≡ some b = rw first at h in
        let xb = ap (λ (z : Booking). z.booking_id) (some-injective x b e) in
        absurd (ground (arith, xb))
    | inr later ↦ rw (other, other) (replace-finds q b new xs (rw later at h) same)
  ]
]

replace-finds_other :
    (id : ℕ) (new : Booking) (xs : List Booking)
    → (new.booking_id == id) ≡ false
    → find (by_id id) (replace new xs) ≡ find (by_id id) xs
unfolding find replace
replace-finds_other id new [] h = refl
replace-finds_other id new (x ∷ xs) h = elim (Bool-cases (x.booking_id == new.booking_id)) [
  | inl here ↦
      let out : by_id id x ≡ false = ground arith in
      rw (here, h, out) (replace-finds_other id new xs h)
  | inr other ↦ elim (Bool-cases (by_id id x)) [
    | inl found ↦ rw (other, found) refl
    | inr out ↦ rw (other, out) (replace-finds_other id new xs h)
  ]
]

-- Two bookings of a team, of which the second blocks its time, that come closer than half an hour.
pub record Compete (b y : Booking) : Type 0 where
  pub different : (b.booking_id == y.booking_id) ≡ false
  pub same_team : b.team_id ≡ y.team_id
  pub blocks : is_blocking y.status ≡ true
  pub starts_before : b.starts_at < finish y + buffer
  pub ends_after : y.starts_at < finish b + buffer

-- A payment is reported for a booking that is cancelled or done, and not of high risk, whose time has
-- meanwhile gone to another booking of the team: the payment confirms it, although the table of
-- transitions lets such a booking become nothing, and afterwards two bookings that block the time of
-- one team come closer than half an hour.
pub mark_deposit_paid_revives :
    (checkout intent : Option ℕ) (s : Store) (b y : Booking)
    → find (is_paid_through checkout intent) s.bookings ≡ some b
    → b.is_high_risk ≡ false
    → (b.status ≡ cancelled) ⊎ (b.status ≡ done)
    → find (λ x. x.booking_id == y.booking_id) s.bookings ≡ some y
    → Compete b y
    → ((x : Status) → may_become b.status x ≡ false)
      × (find (λ x. x.booking_id == b.booking_id) (mark_deposit_paid checkout intent s).0.bookings
          ≡ some (deposit_paid intent b))
      × ((deposit_paid intent b).status ≡ confirmed)
      × (¬ (AllApart (mark_deposit_paid checkout intent s).0.bookings))
unfolding mark_deposit_paid write_found write deposit_paid may_become are_apart
mark_deposit_paid_revives checkout intent s b y at' low over there c =
    let new = deposit_paid intent b in
    let revived = replace-finds (is_paid_through checkout intent) b new s.bookings at' refl in
    let other = replace-finds_other y.booking_id new s.bookings c.different ∙ there in
    (
      λ x. ground arith,
      rw at' revived,
      ground arith,
      λ apart.
          let apart' : AllApart (replace new s.bookings) = rw at' at apart in
          let from_all =
            found_apart (by_id b.booking_id) (replace new s.bookings) new revived apart' in
          let clash =
            found_All (λ z. are_apart new z ≡ true) (by_id y.booking_id) (replace new s.bookings) y
              other from_all in
          ground (arith, clash, c.different, c.same_team, c.blocks, c.starts_before, c.ends_after),
    )
