-- ===== src/Disputes.antt =====
-- app/domain/disputes/service.py. A function that raises has changed nothing before it does.
mod Rows
pub mod Settled
pub mod Refunds
pub mod Lifecycle
pub mod Ledger
mod Scenarios
pub use Rows.*
use clean.Base.{
  ℕ, ◌+◌, ◌-◌, Bool, true, false, not, ◌&&◌, ◌||◌, List, [], ◌∷◌, Option, none, some, ltb, leb,
  is_some, if◌then◌else◌, put, Result, ok, err, ◌>>=◌, ◌>>◌, raise_if, or_raise,
}
use clean.Base.Int.{ℤ, pos, pos_part, ◌-ℤ◌, leb_ℤ, ltb_ℤ}

-- The last resort of `_derive_effective_base_charge`.
from_policy : Option ℤ → Result Error ℤ
from_policy none = err no_base_charge
from_policy (some total) = if ltb_ℤ (pos 0) total then ok total else err no_base_charge

from_estimate : Estimate → Option ℤ → Result Error ℤ
unfolding from_policy
from_estimate (Estimate.in_cents c) policy = ok c
from_estimate _ policy = from_policy policy

from_invoice : Option ℕ → Estimate → Option ℤ → Result Error ℤ
unfolding from_estimate
from_invoice none estimate policy = from_estimate estimate policy
from_invoice (some subtotal) estimate policy =
    if ltb 0 subtotal then ok (pos subtotal) else from_estimate estimate policy

-- `_derive_effective_base_charge`
unfoldable pub effective_base_charge : Booking → Result Error ℤ
unfolding from_invoice
effective_base_charge b =
    if ltb 0 b.totals.base_charge
    then ok (pos b.totals.base_charge)
    else from_invoice b.invoice_subtotal b.estimate b.policy_total

-- `max(effective_base - booking.refund_total_cents, 0)`
abbrev pub available : ℤ → Booking → ℕ
available base b = pos_part (base -ℤ pos b.totals.refund_total)

-- `_validate_refund_amount`
unfoldable pub validate_refund_amount : Booking → ℤ → Result Error ℕ
validate_refund_amount b amount = do
  base ← effective_base_charge b
  raise_if (leb_ℤ amount (pos 0)) amount_not_positive
  raise_if (ltb_ℤ (pos (available base b)) amount) refund_exceeds_charge
  ok (pos_part amount)

-- `_decision_amount`
unfoldable pub decision_amount : Booking → Decision → Option ℤ → Result Error ℕ
unfolding validate_refund_amount
decision_amount b no_refund amount = ok 0
decision_amount b credit_note none = err amount_not_positive
decision_amount b credit_note (some amount) = do
  raise_if (leb_ℤ amount (pos 0)) amount_not_positive
  ok (pos_part amount)
decision_amount b partial_refund none = err amount_missing
decision_amount b partial_refund (some amount) = validate_refund_amount b amount
decision_amount b full_refund none = do ok (available (← effective_base_charge b) b)
decision_amount b full_refund (some amount) = do
  effective_base_charge b
  validate_refund_amount b amount

-- `_ensure_state` with the two sets of states that it is called with beside single states.
abbrev pub is_collecting : State → Bool
is_collecting opened = true
is_collecting facts_collected = true
is_collecting _ = false

abbrev pub is_facts_collected : State → Bool
is_facts_collected facts_collected = true
is_facts_collected _ = false

abbrev pub is_decided : State → Bool
is_decided decided = true
is_decided _ = false

-- The `Dispute` that `open_dispute` makes.
unfoldable pub new_dispute : ℕ → Option ℕ → Option ℕ → Dispute
new_dispute booking_id reason opened_by = record {
  booking_id = booking_id;
  state = opened;
  reason = reason;
  opened_by = opened_by;
  facts_snapshot = none;
  decision = none;
  decision_cents = none;
  decision_notes = none;
  decision_snapshot = none;
  decided_at = none;
  closed_at = none;
  resolution_note = none;
}

-- `open_dispute`; `fresh` is the random primary key, which the database refuses if it is taken.
unfoldable pub open_dispute : ℕ → ℕ → Option ℕ → Option ℕ → Store → Result Error Store
open_dispute fresh booking_id reason opened_by s = do
  or_raise (s.bookings booking_id) booking_not_found
  raise_if (is_some (s.disputes fresh)) duplicate_key
  ok (record s { disputes = put fresh (new_dispute booking_id reason opened_by) s.disputes })

-- `attach_facts`
unfoldable pub attach_facts : ℕ → Facts → Store → Result Error Store
attach_facts id facts s = do
  d ← or_raise (s.disputes id) dispute_not_found
  raise_if (is_some d.decision_snapshot) snapshot_immutable
  raise_if (not (is_collecting d.state)) invalid_transition
  ok (record s {
    disputes =
        put id (record d { facts_snapshot = some facts; state = facts_collected }) s.disputes;
  })

-- The totals of the booking after the decision.
unfoldable pub adjust : Decision → ℕ → Totals → Totals
adjust no_refund amount t = t
adjust partial_refund amount t = record t { refund_total = t.refund_total + amount }
adjust full_refund amount t = record t { refund_total = t.refund_total + amount }
adjust credit_note amount t = record t { credit_note_total = t.credit_note_total + amount }

-- The `FinancialAdjustmentEvent` of a decision.
unfoldable pub settled_event : ℕ → Decision → Dispute → Booking → ℕ → Adjustment
unfolding adjust
settled_event id decision d b amount = record {
  booking_id = d.booking_id;
  dispute_id = id;
  adjustment_type = decision;
  amount_cents = amount;
  before_totals = b.totals;
  after_totals = adjust decision amount b.totals;
}

-- What `decide_dispute` writes once the amount is known.
unfoldable pub settle : ℕ → ℕ → Dispute → Booking → Facts → Decision → ℕ → Option ℕ → Store → Store
unfolding adjust settled_event
settle id now d b facts decision amount notes s =
    let after = adjust decision amount b.totals in
    record s {
      disputes =
          put id
            (record d {
              state = decided;
              decision = some decision;
              decision_cents = some amount;
              decision_notes = notes;
              decided_at = some now;
              decision_snapshot = some (record {
                facts = facts;
                decision = decision;
                decision_cents = amount;
                recorded_at = now;
                before_totals = b.totals;
                after_totals = after;
              });
            })
            s.disputes;
      bookings = put d.booking_id (record b { totals = after }) s.bookings;
      adjustments = settled_event id decision d b amount ∷ s.adjustments;
    }

-- `decide_dispute`
unfoldable pub decide_dispute : ℕ → ℕ → Decision → Option ℤ → Option ℕ → Store → Result Error Store
unfolding settle
decide_dispute id now decision amount notes s = do
  d ← or_raise (s.disputes id) dispute_not_found
  raise_if (not (is_facts_collected d.state)) invalid_transition
  b ← or_raise (s.bookings d.booking_id) booking_not_found
  facts ← or_raise d.facts_snapshot no_evidence
  cents ← decision_amount b decision amount
  ok (settle id now d b facts decision cents notes s)

-- `close_dispute`
unfoldable pub close_dispute : ℕ → ℕ → Option ℕ → Store → Result Error Store
close_dispute id now note s = do
  d ← or_raise (s.disputes id) dispute_not_found
  raise_if (not (is_decided d.state)) invalid_transition
  ok (record s {
    disputes =
        put id (record d { state = closed; closed_at = some now; resolution_note = note })
          s.disputes;
  })

-- The calls that the routes make, one transaction each: a call that raises is rolled back.
pub data Call : Type 0 where
  open_call : ℕ → ℕ → Option ℕ → Option ℕ → Call
  attach_call : ℕ → Facts → Call
  decide_call : ℕ → ℕ → Decision → Option ℤ → Option ℕ → Call
  close_call : ℕ → ℕ → Option ℕ → Call

unfoldable pub perform : Call → Store → Result Error Store
perform (open_call fresh booking_id reason opened_by) =
    open_dispute fresh booking_id reason opened_by
perform (attach_call id facts) = attach_facts id facts
perform (decide_call id now decision amount notes) = decide_dispute id now decision amount notes
perform (close_call id now note) = close_dispute id now note

abbrev pub committed : Store → Result Error Store → Store
committed s (ok s') = s'
committed s (err _) = s

unfoldable pub run : List Call → Store → Store
run [] s = s
run (c ∷ cs) s = run cs (committed s (perform c s))
