-- ===== src/Disputes/Settled.antt =====
-- What a call that goes through has read and written.
use clean.Base.{
  ℕ, ◌≡◌, not, Option, none, some, ◌⊎◌, put, is_some, ok, arith, >>=-eq-ok, or_raise-eq-ok,
  or_raise, raise_if,
}
use clean.Base.Int.{ℤ}
use clean.Disputes.{
  Store, Booking, Dispute, Facts, Decision, decision_amount, settle, decide_dispute,
  facts_collected, is_facts_collected, dispute_not_found, invalid_transition, booking_not_found,
  no_evidence, open_dispute, attach_facts, close_dispute, new_dispute, duplicate_key,
  snapshot_immutable, is_collecting, is_decided, opened, decided, closed,
}

pub record Settled (id now : ℕ) (d : Decision) (amount : Option ℤ) (notes : Option ℕ) (s s' : Store)
    : Type 0 where
  pub dispute : Dispute
  pub booking : Booking
  pub facts : Facts
  pub amount_cents : ℕ
  pub found : s.disputes id ≡ some dispute
  pub ready : dispute.state ≡ facts_collected
  pub booked : s.bookings dispute.booking_id ≡ some booking
  pub evidence : dispute.facts_snapshot ≡ some facts
  pub allowed : decision_amount booking d amount ≡ ok amount_cents
  pub written : s' ≡ settle id now dispute booking facts d amount_cents notes s

pub decide_dispute-Settled :
    (id now : ℕ) (d : Decision) (amount : Option ℤ) (notes : Option ℕ) (s s' : Store)
    → decide_dispute id now d amount notes s ≡ ok s'
    → Settled id now d amount notes s s'
unfolding decide_dispute
decide_dispute-Settled id now d amount notes s s' e =
    let (x, found, e1) = >>=-eq-ok (or_raise (s.disputes id) dispute_not_found) _ e in
    let (_, ready, e2) =
      >>=-eq-ok (raise_if (not (is_facts_collected x.state)) invalid_transition) _ e1 in
    let (b, booked, e3) = >>=-eq-ok (or_raise (s.bookings x.booking_id) booking_not_found) _ e2 in
    let (f, evidence, e4) = >>=-eq-ok (or_raise x.facts_snapshot no_evidence) _ e3 in
    let (n, allowed, e5) = >>=-eq-ok (decision_amount b d amount) _ e4 in
    record {
      dispute = x;
      booking = b;
      facts = f;
      amount_cents = n;
      found = or_raise-eq-ok (s.disputes id) _ found;
      ready = ground arith;
      booked = or_raise-eq-ok (s.bookings x.booking_id) _ booked;
      evidence = or_raise-eq-ok x.facts_snapshot _ evidence;
      allowed = allowed;
      written = cc;
    }

pub record Opened (fresh booking_id : ℕ) (reason opened_by : Option ℕ) (s s' : Store) : Type 0 where
  pub untaken : s.disputes fresh ≡ none
  pub written :
      s' ≡ record s { disputes = put fresh (new_dispute booking_id reason opened_by) s.disputes }

pub open_dispute-Opened :
    (fresh booking_id : ℕ) (reason opened_by : Option ℕ) (s s' : Store)
    → open_dispute fresh booking_id reason opened_by s ≡ ok s'
    → Opened fresh booking_id reason opened_by s s'
unfolding open_dispute
open_dispute-Opened fresh booking_id reason opened_by s s' e =
    let (_, _, e1) = >>=-eq-ok (or_raise (s.bookings booking_id) booking_not_found) _ e in
    let (_, free, e2) = >>=-eq-ok (raise_if (is_some (s.disputes fresh)) duplicate_key) _ e1 in
    record { untaken = ground arith; written = cc }

pub record Attached (id : ℕ) (f : Facts) (s s' : Store) : Type 0 where
  pub dispute : Dispute
  pub found : s.disputes id ≡ some dispute
  pub unrecorded : dispute.decision_snapshot ≡ none
  pub collecting : (dispute.state ≡ opened) ⊎ (dispute.state ≡ facts_collected)
  pub written : s' ≡ record s {
    disputes =
        put id (record dispute { facts_snapshot = some f; state = facts_collected }) s.disputes;
  }

pub attach_facts-Attached :
    (id : ℕ) (f : Facts) (s s' : Store) → attach_facts id f s ≡ ok s' → Attached id f s s'
unfolding attach_facts
attach_facts-Attached id f s s' e =
    let (x, found, e1) = >>=-eq-ok (or_raise (s.disputes id) dispute_not_found) _ e in
    let (_, fresh, e2) =
      >>=-eq-ok (raise_if (is_some x.decision_snapshot) snapshot_immutable) _ e1 in
    let (_, ready, e3) =
      >>=-eq-ok (raise_if (not (is_collecting x.state)) invalid_transition) _ e2 in
    record {
      dispute = x;
      found = or_raise-eq-ok (s.disputes id) _ found;
      unrecorded = ground arith;
      collecting = ground arith;
      written = cc;
    }

pub record Closed (id now : ℕ) (note : Option ℕ) (s s' : Store) : Type 0 where
  pub dispute : Dispute
  pub found : s.disputes id ≡ some dispute
  pub ready : dispute.state ≡ decided
  pub written : s' ≡ record s {
    disputes =
        put id
          (record dispute { state = closed; closed_at = some now; resolution_note = note })
          s.disputes;
  }

pub close_dispute-Closed :
    (id now : ℕ) (note : Option ℕ) (s s' : Store)
    → close_dispute id now note s ≡ ok s'
    → Closed id now note s s'
unfolding close_dispute
close_dispute-Closed id now _ s s' e =
    let (x, found, e1) = >>=-eq-ok (or_raise (s.disputes id) dispute_not_found) _ e in
    let (_, ready, e2) = >>=-eq-ok (raise_if (not (is_decided x.state)) invalid_transition) _ e1 in
    record {
      dispute = x;
      found = or_raise-eq-ok (s.disputes id) _ found;
      ready = ground arith;
      written = cc;
    }
