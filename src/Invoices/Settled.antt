-- ===== src/Invoices/Settled.antt =====
-- The status of an invoice against what has been paid on it.
use clean.Base.{
  ℕ, ◌+◌, ◌≤◌, ◌<◌, ◌≡◌, ◌⊎◌, ◌↔◌, refl, true, false, List, [], ◌∷◌, ◌++◌, none, some,
  if◌then◌else◌, ok, Bool-cases, inl, inr, arith,
}
use clean.Base.Int.{pos_part}
use mathlib.Core.Path.{subst}
use clean.Invoices.{
  paid, partial, Invoice, Payment, Receipt, Registered, any_row, chosen, new_payment,
  insert_payment, by_ref, by_session, register_payment, refreshed, paid_cents, counts_for,
  is_succeeded, reconcile_invoice, reconcile_snapshot, reconciled_status, outstanding_balance_cents,
  is_void,
}
use clean.Invoices.Redelivery.{registration, register_payment-guards}

-- The status after `amount` has been paid, on an invoice that was `i`.
pub record Settles (amount : ℕ) (i i' : Invoice) : Type 0 where
  pub same_total : i'.total_cents ≡ i.total_cents
  pub status :
      (i.total_cents ≤ amount) × (i'.status ≡ paid)
      ⊎ (0 < amount) × (amount < i.total_cents) × (i'.status ≡ partial)
      ⊎ (amount ≡ 0) × (0 < i.total_cents) × (i'.status ≡ i.status)

refreshed-Settles : (amount : ℕ) (i : Invoice) → Settles amount i (refreshed amount i)
unfolding refreshed
refreshed-Settles amount i = record { same_total = refl; status = ground arith }

paid_cents-append :
    (id : ℕ) (xs ys : List Payment) → paid_cents id (xs ++ ys) ≡ paid_cents id xs + paid_cents id ys
unfolding paid_cents
paid_cents-append id [] ys = omega arith
paid_cents-append id (p ∷ xs) ys = elim (Bool-cases (counts_for id p)) [
  | inl c ↦ rw c (omega (arith, paid_cents-append id xs ys))
  | inr c ↦ rw c (paid_cents-append id xs ys)
]

new_payment-paid_cents :
    (id : ℕ) (r : Receipt) (ps : List Payment)
    → paid_cents id (new_payment (some id) none r ∷ ps)
      ≡ paid_cents id ps + (if is_succeeded r.status then pos_part r.amount_cents else 0)
unfolding paid_cents new_payment
new_payment-paid_cents id r ps = ground arith

-- What a registration that goes through has done to the invoice and to what is paid on it.
pub record Accounted (id : ℕ) (r : Receipt) (raced : List Payment) (i : Invoice) (ps : List Payment)
    (out : Registered) : Type 0 where
  pub settled :
      (out.is_recorded ≡ true) × Settles (paid_cents id out.payments) i out.invoice
      ⊎ (out.is_recorded ≡ false)
        × (out.invoice ≡ i)
        × (paid_cents id out.payments ≡ paid_cents id raced + paid_cents id ps)
  pub added :
      (any_row (chosen (by_ref r) (by_session id r) ps) ps ≡ true)
      ⊎ (out.is_recorded ≡ false)
      ⊎ (paid_cents id out.payments
          ≡ paid_cents id raced
            + paid_cents id ps
            + (if is_succeeded r.status then pos_part r.amount_cents else 0))

registration-Accounted :
    (id : ℕ) (r : Receipt) (raced : List Payment) (i : Invoice) (ps : List Payment)
    → Accounted id r raced i ps (registration id r raced i ps)
unfolding registration insert_payment
registration-Accounted id r raced i ps =
    elim (Bool-cases (any_row (chosen (by_ref r) (by_session id r) ps) ps)) [
      | inl found ↦
          rw found (record { settled = inl (refl, refreshed-Settles _ i); added = inl found })
      | inr absent ↦
          let rows = raced ++ ps in
          let both = paid_cents-append id raced ps in
          elim (Bool-cases (any_row (by_ref r) raced)) [
            | inl taken ↦
                rw (absent, taken)
                  (record { settled = inr (refl, refl, both); added = inr (inl refl) })
            | inr free ↦
                rw (absent, free)
                  (record {
                    settled = inl (refl, refreshed-Settles _ i);
                    added = inr (inr (omega (arith, both, new_payment-paid_cents id r rows)));
                  })
          ]
    ]

-- A registration that goes through is on an invoice that is not void. Where it is recorded, the
-- invoice becomes paid if its payments reach the total, partial if some but less is paid, and keeps
-- its status if nothing is; a new row adds its amount, if it has succeeded, to what was paid before and
-- what other requests have paid meanwhile. Where another request was first, the invoice stays as it
-- was.
pub register_payment-Accounted :
    (id : ℕ) (r : Receipt) (raced : List Payment) (i : Invoice) (ps : List Payment)
    (out : Registered)
    → register_payment id r raced i ps ≡ ok out
    → (is_void i.status ≡ false) × Accounted id r raced i ps out
register_payment-Accounted id r raced i ps out went =
    let (open_yet, _, e) = register_payment-guards id r raced i ps out went in
    (open_yet, subst (Accounted id r raced i ps) e (registration-Accounted id r raced i ps))

reconciled_status-eq-paid :
    (today amount : ℕ) (i : Invoice)
    → (reconciled_status today amount i ≡ paid) ↔ (i.total_cents ≤ amount)
unfolding reconciled_status
reconciled_status-eq-paid today amount i = ground arith

reconciled_status_idem :
    (today amount : ℕ) (i : Invoice)
    → let i' = record i { status = reconciled_status today amount i } in
      reconciled_status today amount i' ≡ reconciled_status today amount i
unfolding reconciled_status
reconciled_status_idem today amount i = ground arith

-- After a reconciliation an invoice is paid exactly if its payments reach the total, whatever its
-- status was; the snapshots agree on what is paid, the second has the new status and what is left to
-- pay; and to reconcile again changes nothing.
pub reconcile_invoice_settles :
    (id today : ℕ) (i : Invoice) (ps : List Payment)
    → let (i', before, after) = reconcile_invoice id today i ps in
      ((i'.status ≡ paid) ↔ (i.total_cents ≤ paid_cents id ps))
      × (before.paid_cents ≡ after.paid_cents)
      × (after.status ≡ i'.status)
      × (after.outstanding_cents ≡ outstanding_balance_cents id i' ps)
      × (reconcile_invoice id today i' ps ≡ (i', after, after))
unfolding reconcile_invoice reconcile_snapshot outstanding_balance_cents
reconcile_invoice_settles id today i ps =
    let once = reconciled_status_idem today (paid_cents id ps) i in
    (reconciled_status-eq-paid today (paid_cents id ps) i, refl, refl, refl, rw once refl)
