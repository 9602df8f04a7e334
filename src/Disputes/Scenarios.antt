-- ===== src/Disputes/Scenarios.antt =====
-- One booking of 200.00 with two disputes.
use clean.Base.{ℕ, ◌≡◌, refl, List, [], ◌∷◌, none, some, empty, put, put-keeps, ok, arith}
use clean.Base.Int.{pos, ◌-ℤ◌}
use clean.Disputes.{
  Store, Facts, Booking, Dispute, Estimate, full_refund, partial_refund, facts_collected,
  effective_base_charge, decide_dispute, open_dispute, attach_facts, close_dispute, settle, adjust,
  settled_event, validate_refund_amount, decision_amount, perform, run, Call, open_call,
  attach_call, decide_call, close_call, new_dispute,
}
use clean.Disputes.Refunds.{
  AllWithinCharge, IsWithinCharge, run-AllWithinCharge, full_refund_exhausts,
}
use clean.Disputes.Lifecycle.{
  AllConsistent, IsConsistent, run-AllConsistent, Follows, perform-Follows,
}
use clean.Disputes.Ledger.{Accounts, run-Accounts}

abbrev booking : Booking
booking = record {
  totals = record { base_charge = 20000; refund_total = 0; credit_note_total = 0 };
  invoice_subtotal = none;
  estimate = Estimate.absent;
  policy_total = none;
}

abbrev start : Store
start = record { disputes = empty; bookings = put 1 booking empty; adjustments = [] }

abbrev facts : Facts
facts = record { photo_refs = []; checklist_snapshot = none; time_log = none }

-- 50.00 back for the first dispute; the second asks for 180.00, is refused, and takes what is left.
abbrev history : List Call
history =
    open_call 7 1 none none
    ∷ open_call 8 1 none none
    ∷ attach_call 7 facts
    ∷ attach_call 8 facts
    ∷ decide_call 7 100 partial_refund (some (pos 5000)) none
    ∷ decide_call 8 101 full_refund (some (pos 18000)) none
    ∷ decide_call 8 102 full_refund none none
    ∷ close_call 7 103 none
    ∷ []

history_refunds :
    (run history start).bookings 1
    ≡ some (record booking {
      totals = record { base_charge = 20000; refund_total = 20000; credit_note_total = 0 };
    })
unfolding run perform open_dispute attach_facts decide_dispute close_dispute settle adjust
    settled_event validate_refund_amount decision_amount effective_base_charge new_dispute ◌-ℤ◌
history_refunds = refl

booking-IsWithinCharge : IsWithinCharge booking
booking-IsWithinCharge base e = omega arith

start-AllWithinCharge : AllWithinCharge start
start-AllWithinCharge =
    put-keeps (λ _ b. IsWithinCharge b) 1 booking empty (λ j u e. cc) booking-IsWithinCharge

run-AllWithinCharge_example : AllWithinCharge (run history start)
run-AllWithinCharge_example = run-AllWithinCharge history start start-AllWithinCharge

run-AllConsistent_example : AllConsistent (run history start)
run-AllConsistent_example = run-AllConsistent history start (λ k. refl)

run-Accounts_example : Accounts (put 1 booking.totals empty) (run history start)
run-Accounts_example =
    run-Accounts history start (put 1 booking.totals empty) refl (λ k b e. totals_at k b e)
  where
    totals_at :
        (k : ℕ) (b : Booking)
        → start.bookings k ≡ some b
        → put 1 booking.totals empty k ≡ some b.totals
    totals_at k b e = ground arith

abbrev waiting : Dispute
waiting = record {
  booking_id = 1;
  state = facts_collected;
  reason = none;
  opened_by = none;
  facts_snapshot = some facts;
  decision = none;
  decision_cents = none;
  decision_notes = none;
  decision_snapshot = none;
  decided_at = none;
  closed_at = none;
  resolution_note = none;
}

abbrev ready : Store
ready = record start { disputes = put 7 waiting empty }

ready-AllConsistent : AllConsistent ready
ready-AllConsistent =
    put-keeps (λ _ d. IsConsistent d) 7 waiting empty (λ j u e. cc)
      (record {
        evidence_kept = λ _. refl;
        undecided = λ _. refl;
        recorded = λ r. absurd (ground arith);
      })

full_refund_exhausts_example :
    (s' : Store) × (decide_dispute 7 100 full_refund none none ready ≡ ok s')
    × (b' : Booking) × (s'.bookings 1 ≡ some b')
    × (b'.totals.refund_total ≡ 20000)
unfolding effective_base_charge
full_refund_exhausts_example =
    full_refund_exhausts 7 100 none ready waiting booking facts (pos 20000) refl refl refl refl refl
      (omega arith)

perform-Follows_example :
    (d' : Dispute) × ((settle 7 100 waiting booking facts partial_refund 5000 none ready).disputes 7
      ≡ some d')
    × Follows waiting d'
unfolding perform decide_dispute decision_amount validate_refund_amount effective_base_charge ◌-ℤ◌
perform-Follows_example =
    perform-Follows (decide_call 7 100 partial_refund (some (pos 5000)) none) ready
      (settle 7 100 waiting booking facts partial_refund 5000 none ready) 7 waiting
      ready-AllConsistent refl refl
