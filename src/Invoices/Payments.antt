-- ===== src/Invoices/Payments.antt =====
-- The payments of invoices: app/domain/invoices/service.py from `_paid_cents` to `register_payment`. A
-- row of the payments' table is written in place; a new one is the first of the list.
use clean.Base.{
  ℕ, ◌+◌, ◌-◌, Bool, true, false, ◌&&◌, ◌||◌, List, [], ◌∷◌, ◌++◌, Option, none, some, ltb, leb,
  ◌==◌, ◌or_else◌, if◌then◌else◌, Result, ok, raise_if, ◌>>◌,
}
use clean.Base.Int.{ℤ, pos, pos_part, leb_ℤ}
use clean.Invoices.Rows.{
  Status, paid, partial, void, PaymentStatus, Method, Provider, stripe, manual, Invoice, Payment,
  Error, void_invoice, bad_amount, is_succeeded,
}

abbrev pub same_id : Option ℕ → ℕ → Bool
same_id none b = false
same_id (some a) b = a == b

abbrev pub same_provider : Provider → Provider → Bool
same_provider stripe stripe = true
same_provider manual manual = true
same_provider _ _ = false

abbrev pub counts_for : ℕ → Payment → Bool
counts_for id p = same_id p.invoice_id id && is_succeeded p.status

-- `_paid_cents`, and the sum of `_refresh_invoice_payment_status`: what has been paid on the invoice.
unfoldable pub paid_cents : ℕ → List Payment → ℕ
paid_cents id [] = 0
paid_cents id (p ∷ ps) =
    let rest = paid_cents id ps in if counts_for id p then p.amount_cents + rest else rest

-- `outstanding_balance_cents`
unfoldable pub outstanding_balance_cents : ℕ → Invoice → List Payment → ℕ
outstanding_balance_cents id i ps = i.total_cents - paid_cents id ps

-- `_refresh_invoice_payment_status`, on the sum that it reads.
unfoldable pub refreshed : ℕ → Invoice → Invoice
refreshed amount i = record i {
  status = if leb i.total_cents amount then paid else (if ltb 0 amount then partial else i.status);
}

-- What a payment is registered with.
pub record Receipt : Type 0 where
  pub provider : Provider
  pub method : Method
  pub amount_cents : ℤ
  pub currency : ℕ
  pub status : PaymentStatus
  pub received_at : Option ℕ
  pub reference : Option ℕ
  pub provider_ref : Option ℕ
  pub checkout_session_id : Option ℕ
  pub payment_intent_id : Option ℕ

-- The row with the provider's reference.
abbrev pub has_ref : Provider → ℕ → Payment → Bool
has_ref provider ref p = same_provider p.provider provider && same_id p.provider_ref ref

-- The row of the invoice with the checkout session.
abbrev pub has_session : ℕ → ℕ → Payment → Bool
has_session id session p = same_id p.invoice_id id && same_id p.checkout_session_id session

-- The row of the booking with the checkout session.
abbrev pub has_deposit_session : ℕ → ℕ → Payment → Bool
has_deposit_session id session p = same_id p.booking_id id && same_id p.checkout_session_id session

-- A test that an absent value fails.
abbrev pub given : (ℕ → Payment → Bool) → Option ℕ → Payment → Bool
given test none p = false
given test (some k) p = test k p

abbrev pub any_row : (Payment → Bool) → List Payment → Bool
any_row test [] = false
any_row test (p ∷ ps) = test p || any_row test ps

-- The first row that passes the test is replaced.
unfoldable pub update_first : (Payment → Bool) → (Payment → Payment) → List Payment → List Payment
update_first test f [] = []
update_first test f (p ∷ ps) =
    let rest = update_first test f ps in if test p then f p ∷ ps else p ∷ rest

-- How the row of a payment is found: by the provider's reference, else by the checkout session.
unfoldable pub chosen : (Payment → Bool) → (Payment → Bool) → List Payment → Payment → Bool
chosen by_ref by_session ps = if any_row by_ref ps then by_ref else by_session

-- The columns that a repeated report sets.
unfoldable pub amend : Receipt → Payment → Payment
amend r p = record p {
  provider_ref = p.provider_ref or_else r.provider_ref;
  status = r.status;
  amount_cents = pos_part r.amount_cents;
  currency = r.currency;
  received_at = r.received_at or_else p.received_at;
  reference = r.reference or_else p.reference;
  payment_intent_id = r.payment_intent_id or_else r.provider_ref or_else p.payment_intent_id;
  checkout_session_id = r.checkout_session_id or_else p.checkout_session_id;
}

unfoldable pub new_payment : Option ℕ → Option ℕ → Receipt → Payment
new_payment invoice booking r = record {
  invoice_id = invoice;
  booking_id = booking;
  provider = r.provider;
  provider_ref = r.provider_ref;
  checkout_session_id = r.checkout_session_id;
  payment_intent_id = r.payment_intent_id or_else r.provider_ref;
  method = r.method;
  amount_cents = pos_part r.amount_cents;
  currency = r.currency;
  status = r.status;
  received_at = r.received_at;
  reference = r.reference;
}

-- What a registration leaves behind, and whether it gives back a payment.
pub record Registered : Type 0 where
  pub invoice : Invoice
  pub payments : List Payment
  pub is_recorded : Bool

-- The insert of a new row, once other requests have inserted the rows `raced`: where one of them
-- has the provider's reference, the insert fails, and is rolled back.
unfoldable pub insert_payment : ℕ → Receipt → List Payment → Invoice → List Payment → Registered
insert_payment id r raced i ps =
    let rows = raced ++ ps in
    let rows' = new_payment (some id) none r ∷ rows in
    if any_row (given (has_ref r.provider) r.provider_ref) raced
    then record { invoice = i; payments = rows; is_recorded = false }
    else record {
      invoice = refreshed (paid_cents id rows') i;
      payments = rows';
      is_recorded = true;
    }

abbrev pub is_void : Status → Bool
is_void void = true
is_void _ = false

abbrev pub by_ref : Receipt → Payment → Bool
by_ref r = given (has_ref r.provider) r.provider_ref

abbrev pub by_session : ℕ → Receipt → Payment → Bool
by_session id r = given (has_session id) r.checkout_session_id

-- `register_payment` on the invoice `id`.
unfoldable pub register_payment :
    ℕ → Receipt → List Payment → Invoice → List Payment → Result Error Registered
register_payment id r raced i ps = do
  raise_if (is_void i.status) void_invoice
  raise_if (leb_ℤ r.amount_cents (pos 0)) bad_amount
  let test = chosen (by_ref r) (by_session id r) ps
  let ps' = update_first test (amend r) ps
  ok (
      if any_row test ps
      then record { invoice = refreshed (paid_cents id ps') i; payments = ps'; is_recorded = true }
      else insert_payment id r raced i ps)
