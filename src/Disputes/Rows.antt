-- ===== src/Disputes/Rows.antt =====
-- The rows that the dispute service reads and writes. Identifiers and texts are only stored and
-- compared, so they are numbers; times are numbers of the wall clock.
use clean.Base.{ℕ, Option, List}
use clean.Base.Int.{ℤ}

-- `DisputeState` and `DecisionType` of app/domain/disputes/schemas.py.
pub data State : Type 0 where
  opened facts_collected decided closed : State

pub data Decision : Type 0 where
  no_refund partial_refund full_refund credit_note : Decision

pub record Facts : Type 0 where
  pub photo_refs : List ℕ
  pub checklist_snapshot : Option ℕ
  pub time_log : Option ℕ

-- `before_totals` and `after_totals`, in cents.
pub record Totals : Type 0 where
  pub base_charge : ℕ
  pub refund_total : ℕ
  pub credit_note_total : ℕ

pub record Snapshot : Type 0 where
  pub facts : Facts
  pub decision : Decision
  pub decision_cents : ℕ
  pub recorded_at : ℕ
  pub before_totals : Totals
  pub after_totals : Totals

pub record Dispute : Type 0 where
  pub booking_id : ℕ
  pub state : State
  pub reason : Option ℕ
  pub opened_by : Option ℕ
  pub facts_snapshot : Option Facts  -- `none` is the empty dictionary
  pub decision : Option Decision
  pub decision_cents : Option ℕ
  pub decision_notes : Option ℕ
  pub decision_snapshot : Option Snapshot
  pub decided_at : Option ℕ
  pub closed_at : Option ℕ
  pub resolution_note : Option ℕ

-- `total_before_tax` of a lead's estimate: absent, no number, or in cents after rounding up.
pub data Estimate : Type 0 where
  absent unreadable : Estimate
  in_cents : ℤ → Estimate

-- The columns of a booking that the service uses, with what its queries find: the subtotal of the
-- oldest invoice, the estimate of the lead, the total of the policy snapshot.
pub record Booking : Type 0 where
  pub totals : Totals
  pub invoice_subtotal : Option ℕ
  pub estimate : Estimate
  pub policy_total : Option ℤ

-- `FinancialAdjustmentEvent`
pub record Adjustment : Type 0 where
  pub booking_id : ℕ
  pub dispute_id : ℕ
  pub adjustment_type : Decision
  pub amount_cents : ℕ
  pub before_totals : Totals
  pub after_totals : Totals

pub record Store : Type 0 where
  pub disputes : ℕ → Option Dispute
  pub bookings : ℕ → Option Booking
  pub adjustments : List Adjustment  -- newest first

pub data Error : Type 0 where
  dispute_not_found booking_not_found invalid_transition snapshot_immutable no_evidence : Error
  no_base_charge duplicate_key amount_not_positive refund_exceeds_charge amount_missing : Error
