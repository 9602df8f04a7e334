-- ===== src/Invoices/Reports.antt =====
-- Reports of payments by Stripe and by hand, and the reconciliation of an invoice, in
-- app/domain/invoices/service.py, and `record_stripe_deposit_payment` of app/domain/bookings/service.py.
use clean.Base.{
  ℕ, ◌-◌, Bool, true, false, not, List, [], ◌∷◌, Option, none, some, ltb, leb, ◌==◌, ◌or_else◌,
  if◌then◌else◌, length, keep, Result, ok, raise_if, or_raise, ◌>>=◌, ◌>>◌,
}
use clean.Base.Int.{ℤ, pos, leb_ℤ}
use clean.Invoices.Rows.{
  Status, sent, paid, partial, overdue, PaymentStatus, succeeded, Method, card, stripe, manual,
  Invoice, Payment, Error, bad_amount, bad_status, bad_currency, bad_method, not_recorded,
}
use clean.Invoices.Payments.{
  counts_for, paid_cents, Receipt, has_deposit_session, given, any_row, update_first, chosen, amend,
  new_payment, Registered, by_ref, register_payment,
}

-- What Stripe reports of a payment; a status that is none of the code's is absent.
pub record StripeReport : Type 0 where
  pub amount_cents : ℤ
  pub currency : ℕ
  pub status : Option PaymentStatus
  pub received_at : ℕ
  pub reference : Option ℕ
  pub provider_ref : Option ℕ
  pub checkout_session_id : Option ℕ
  pub payment_intent_id : Option ℕ

unfoldable pub stripe_receipt : StripeReport → PaymentStatus → Receipt
stripe_receipt e status = record {
  provider = stripe;
  method = card;
  amount_cents = e.amount_cents;
  currency = e.currency;
  status = status;
  received_at = some e.received_at;
  reference = e.reference;
  provider_ref = e.provider_ref;
  checkout_session_id = e.checkout_session_id;
  payment_intent_id = e.payment_intent_id or_else e.provider_ref;
}

-- `record_stripe_payment`
unfoldable pub record_stripe_payment :
    ℕ → StripeReport → List Payment → Invoice → List Payment → Result Error Registered
record_stripe_payment id e raced i ps = do
  status ← or_raise e.status bad_status
  raise_if (not (e.currency == i.currency)) bad_currency
  register_payment id (stripe_receipt e status) raced i ps

unfoldable pub manual_receipt : ℤ → Method → ℕ → Option ℕ → ℕ → Receipt
manual_receipt amount method currency reference received_at = record {
  provider = manual;
  method = method;
  amount_cents = amount;
  currency = currency;
  status = succeeded;
  received_at = some received_at;
  reference = reference;
  provider_ref = none;
  checkout_session_id = none;
  payment_intent_id = none;
}

-- `record_manual_payment`; a method that is none of the code's is absent.
unfoldable pub record_manual_payment :
    ℕ → ℤ → Option Method → Option ℕ → ℕ → Invoice → List Payment → Result Error Registered
record_manual_payment id amount method reference received_at i ps = do
  m ← or_raise method bad_method
  r ← register_payment id (manual_receipt amount m i.currency reference received_at) [] i ps
  raise_if (not r.is_recorded) not_recorded
  ok r

-- `_reconcile_snapshot`
pub record Snapshot : Type 0 where
  pub status : Status
  pub total_cents : ℕ
  pub paid_cents : ℕ
  pub outstanding_cents : ℕ
  pub succeeded_payments_count : ℕ

unfoldable pub reconcile_snapshot : ℕ → Invoice → List Payment → Snapshot
reconcile_snapshot id i ps = record {
  status = i.status;
  total_cents = i.total_cents;
  paid_cents = paid_cents id ps;
  outstanding_cents = i.total_cents - paid_cents id ps;
  succeeded_payments_count = length (keep (counts_for id) ps);
}

abbrev pub is_paid : Status → Bool
is_paid paid = true
is_paid _ = false

abbrev pub is_past : Option ℕ → ℕ → Bool
is_past none today = false
is_past (some d) today = ltb d today

-- The status that `reconcile_invoice` sets.
unfoldable pub reconciled_status : ℕ → ℕ → Invoice → Status
reconciled_status today amount i =
    if leb i.total_cents amount
    then paid
    else (if ltb 0 amount
        then partial
        else (if is_paid i.status
            then (if is_past i.due_date today then overdue else sent)
            else i.status))

-- `reconcile_invoice`, with the snapshots before and after.
unfoldable pub reconcile_invoice : ℕ → ℕ → Invoice → List Payment → Invoice × Snapshot × Snapshot
reconcile_invoice id today i ps =
    let i' = record i { status = reconciled_status today (paid_cents id ps) i } in
    (i', reconcile_snapshot id i ps, reconcile_snapshot id i' ps)

-- `record_stripe_deposit_payment` on the booking `id`; its amendment sets the time of receipt.
unfoldable pub record_stripe_deposit_payment :
    ℕ → Receipt → List Payment → Result Error (List Payment)
record_stripe_deposit_payment id r ps = do
  raise_if (leb_ℤ r.amount_cents (pos 0)) bad_amount
  let test = chosen (by_ref r) (given (has_deposit_session id) r.checkout_session_id) ps
  ok (if any_row test ps then update_first test (amend r) ps else new_payment none (some id) r ∷ ps)
