-- ===== src/Invoices/Redelivery.antt =====
-- A payment that Stripe reports twice.
use clean.Base.{
  ℕ, ◌≡◌, refl, Bool, true, false, not, List, [], ◌∷◌, none, some, ◌==◌, if◌then◌else◌, ltb, ok,
  raise_if, or_raise, >>=-eq-ok, Bool-cases, inl, inr, arith, leb,
}
use mathlib.Core.Path.{subst, ap, sym}
use clean.Base.Int.{pos, leb_ℤ}
use clean.Invoices.{
  Invoice, Payment, Receipt, Registered, StripeReport, any_row, update_first, chosen, amend,
  new_payment, insert_payment, by_ref, by_session, register_payment, stripe_receipt,
  record_stripe_payment, refreshed, paid_cents, is_void, void_invoice, bad_amount, bad_status,
  bad_currency,
}
use clean.Invoices.Amended.{amended_again, or_else_self, or_else_again}

refreshed-is_void :
    (n : ℕ) (i : Invoice) → is_void i.status ≡ false → is_void (refreshed n i).status ≡ false
unfolding refreshed
refreshed-is_void n i h = ground arith

refreshed_idem : (n : ℕ) (i : Invoice) → refreshed n (refreshed n i) ≡ refreshed n i
unfolding refreshed
refreshed_idem n i = elim (Bool-cases (leb i.total_cents n)) [
  | inl all ↦ rw all refl
  | inr not_all ↦ rw not_all (elim (Bool-cases (ltb 0 n)) [
    | inl some_paid ↦ rw some_paid refl
    | inr nothing ↦ rw nothing refl
  ])
]

-- What the registration of a payment does once its guards are passed.
unfoldable pub registration : ℕ → Receipt → List Payment → Invoice → List Payment → Registered
registration id r raced i ps =
    let test = chosen (by_ref r) (by_session id r) ps in
    let ps' = update_first test (amend r) ps in
    if any_row test ps
    then record { invoice = refreshed (paid_cents id ps') i; payments = ps'; is_recorded = true }
    else insert_payment id r raced i ps

pub register_payment-guards :
    (id : ℕ) (r : Receipt) (raced : List Payment) (i : Invoice) (ps : List Payment)
    (out : Registered)
    → register_payment id r raced i ps ≡ ok out
    → (is_void i.status ≡ false)
      × (leb_ℤ r.amount_cents (pos 0) ≡ false)
      × (registration id r raced i ps ≡ out)
unfolding register_payment registration
register_payment-guards id r raced i ps out h =
    let (_, a, h1) = >>=-eq-ok (raise_if (is_void i.status) void_invoice) _ h in
    let (_, b, h2) = >>=-eq-ok (raise_if (leb_ℤ r.amount_cents (pos 0)) bad_amount) _ h1 in
    (ground arith, ground arith, cc)

register_payment-passes :
    (id : ℕ) (r : Receipt) (raced : List Payment) (i : Invoice) (ps : List Payment)
    → is_void i.status ≡ false
    → leb_ℤ r.amount_cents (pos 0) ≡ false
    → register_payment id r raced i ps ≡ ok (registration id r raced i ps)
unfolding register_payment registration
register_payment-passes id r raced i ps a b = rw (a, b) refl

registration-currency :
    (id : ℕ) (r : Receipt) (raced : List Payment) (i : Invoice) (ps : List Payment)
    → (registration id r raced i ps).invoice.currency ≡ i.currency
unfolding registration insert_payment refreshed
registration-currency id r raced i ps = ground arith

registration-is_void :
    (id : ℕ) (r : Receipt) (i : Invoice) (ps : List Payment)
    → is_void i.status ≡ false
    → is_void (registration id r [] i ps).invoice.status ≡ false
unfolding registration insert_payment
registration-is_void id r i ps h =
    elim (Bool-cases (any_row (chosen (by_ref r) (by_session id r) ps) ps)) [
      | inl found ↦ rw found (refreshed-is_void _ i h)
      | inr new ↦ rw new (refreshed-is_void _ i h)
    ]

amend-new :
    (id ref : ℕ) (r : Receipt)
    → r.provider_ref ≡ some ref
    → let new = new_payment (some id) none r in (by_ref r new ≡ true) × (amend r new ≡ new)
unfolding amend new_payment
amend-new id ref r h = (
  ground arith,
  rw
      (
        or_else_self r.provider_ref,
        or_else_self r.checkout_session_id,
        or_else_again r.payment_intent_id r.provider_ref,
        or_else_self r.received_at,
        or_else_self r.reference,
      )
      refl,
)

chosen-by_ref : (u v : Payment → Bool) (ps : List Payment) → any_row u ps ≡ true → chosen u v ps ≡ u
unfolding chosen
chosen-by_ref u v ps h = rw h refl

-- A row with the reference at the head is the one that is found.
found_first :
    (id : ℕ) (r : Receipt) (new : Payment) (ps : List Payment)
    → by_ref r new ≡ true
    → any_row (by_ref r) (new ∷ ps) ≡ true
    → amend r new ≡ new
    → let test = chosen (by_ref r) (by_session id r) (new ∷ ps) in
      (any_row test (new ∷ ps) ≡ true) × (update_first test (amend r) (new ∷ ps) ≡ new ∷ ps)
unfolding update_first
found_first id r new ps here any same =
    subst
      (λ (test : Payment → Bool).
        (any_row test (new ∷ ps) ≡ true) × (update_first test (amend r) (new ∷ ps) ≡ new ∷ ps))
      (sym (chosen-by_ref (by_ref r) (by_session id r) (new ∷ ps) any)) (any, rw (here, same) refl)

registration_again :
    (id ref : ℕ) (r : Receipt) (i : Invoice) (ps : List Payment)
    → r.provider_ref ≡ some ref
    → let out = registration id r [] i ps in registration id r [] out.invoice out.payments ≡ out
unfolding registration insert_payment
registration_again id ref r i ps h =
    let test = chosen (by_ref r) (by_session id r) ps in
    elim (Bool-cases (any_row test ps)) [
      | inl found ↦
          let (again, same) = amended_again id r ps found in
          rw (found, again, same)
            (rw (refreshed_idem (paid_cents id (update_first test (amend r) ps)) i) refl)
      | inr absent ↦
          let new = new_payment (some id) none r in
          let (here, amended) = amend-new id ref r h in
          let any : any_row (by_ref r) (new ∷ ps) ≡ true = ground (arith, here) in
          let (again, same) = found_first id r new ps here any amended in
          rw (absent, again, same) (rw (refreshed_idem (paid_cents id (new ∷ ps)) i) refl)
    ]

register_payment_again :
    (id ref : ℕ) (r : Receipt) (i : Invoice) (ps : List Payment) (out : Registered)
    → r.provider_ref ≡ some ref
    → register_payment id r [] i ps ≡ ok out
    → register_payment id r [] out.invoice out.payments ≡ ok out
register_payment_again id ref r i ps out h went =
    let (open_yet, positive, e) = register_payment-guards id r [] i ps out went in
    subst (λ (o : Registered). register_payment id r [] o.invoice o.payments ≡ ok o) e
      (rw
        (register_payment-passes id r [] (registration id r [] i ps).invoice
          (registration id r [] i ps).payments (registration-is_void id r i ps open_yet) positive)
        (ap ok (registration_again id ref r i ps h)))

register_payment-currency :
    (id : ℕ) (r : Receipt) (raced : List Payment) (i : Invoice) (ps : List Payment)
    (out : Registered)
    → register_payment id r raced i ps ≡ ok out
    → out.invoice.currency ≡ i.currency
register_payment-currency id r raced i ps out went =
    let (_, _, e) = register_payment-guards id r raced i ps out went in
    subst (λ (o : Registered). o.invoice.currency ≡ i.currency) e
      (registration-currency id r raced i ps)

-- A payment that Stripe reports with a reference, and reports again, is recorded once: the second
-- report leaves the invoice and the payments as the first has left them. This holds as well where the
-- first report finds the payment of its checkout session, and amends it.
pub record_stripe_payment_again :
    (id ref : ℕ) (e : StripeReport) (i : Invoice) (ps : List Payment) (out : Registered)
    → e.provider_ref ≡ some ref
    → record_stripe_payment id e [] i ps ≡ ok out
    → record_stripe_payment id e [] out.invoice out.payments ≡ ok out
unfolding record_stripe_payment stripe_receipt
record_stripe_payment_again id ref e i ps out h went =
    let (status, known, e1) = >>=-eq-ok (or_raise e.status bad_status) _ went in
    let (_, same, e2) = >>=-eq-ok (raise_if (not (e.currency == i.currency)) bad_currency) _ e1 in
    let kept = register_payment-currency id (stripe_receipt e status) [] i ps out e2 in
    let same' : raise_if (not (e.currency == out.invoice.currency)) bad_currency ≡ ok tt =
      subst (λ c. raise_if (not (e.currency == c)) bad_currency ≡ ok tt) (sym kept) same in
    rw (known, same') (register_payment_again id ref (stripe_receipt e status) i ps out h e2)
