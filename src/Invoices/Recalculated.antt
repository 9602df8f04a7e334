-- ===== src/Invoices/Recalculated.antt =====
-- The totals of a new invoice against those that are computed from its items.
use clean.Base.{
  ℕ, ◌+◌, ◌*◌, ◌≤◌, ◌<◌, ◌≡◌, refl, List, [], ◌∷◌, Option, ok, >>=-eq-ok, arith, put, ◌&&◌, ◌==◌,
  if◌then◌else◌, raise_if, is_empty,
}
use mathlib.Core.Path.{subst}
use clean.Base.Int.{pos, pos_part, leb_ℤ, ltb_ℤ}
use clean.Invoices.{
  ItemCreate, Item, Order, Store, Sums, no_sums, add_line, add_items, sum_items, set_totals,
  recalculate_totals, create_invoice_from_order, Created, new_invoice, half_up, draft, Number,
  no_items, bad_quantity, bad_price, generate_invoice_number, charge_order,
}

-- Half up is the nearest whole number, and a tie goes up.
half_up_nearest :
    (a b : ℕ)
    → 1 ≤ b
    → (2 * (half_up a b * b) ≤ 2 * a + b) × (2 * a + b < 2 * (half_up a b * b) + 2 * b)
half_up_nearest a b h = grind arith

-- The loop over what is asked for has the sums of the rows that it makes.
add_items-sums :
    (ps : List ItemCreate) (s : Sums) (out : Sums × List Item)
    → add_items ps s ≡ ok out
    → sum_items out.1 s ≡ out.0
unfolding add_items sum_items
add_items-sums [] s out h =
    let e : (s, []) ≡ out = cc in subst (λ (o : Sums × List Item). sum_items o.1 s ≡ o.0) e refl
add_items-sums (p ∷ ps) s out h =
    let line = pos_part p.qty * pos_part p.unit_price_cents in
    let (_, _, h1) = >>=-eq-ok (raise_if (leb_ℤ p.qty (pos 0)) bad_quantity) _ h in
    let (_, _, h2) = >>=-eq-ok (raise_if (ltb_ℤ p.unit_price_cents (pos 0)) bad_price) _ h1 in
    let (r, went, h3) = >>=-eq-ok (add_items ps (add_line line p.tax_rate s)) _ h2 in
    let item : Item = record {
      description = p.description;
      qty = pos_part p.qty;
      unit_price_cents = pos_part p.unit_price_cents;
      line_total_cents = line;
      tax_rate = p.tax_rate;
    } in
    let e : (r.0, item ∷ r.1) ≡ out = cc in
    subst (λ (o : Sums × List Item). sum_items o.1 s ≡ o.0) e
      (add_items-sums ps (add_line line p.tax_rate s) r went)

-- The products of the items that are asked for, added up.
abbrev pub asked_for : List ItemCreate → ℕ
asked_for [] = 0
asked_for (p ∷ ps) = pos_part p.qty * pos_part p.unit_price_cents + asked_for ps

add_items-subtotal :
    (ps : List ItemCreate) (s : Sums) (out : Sums × List Item)
    → add_items ps s ≡ ok out
    → out.0.subtotal ≡ s.subtotal + asked_for ps
unfolding add_items add_line
add_items-subtotal [] s out h =
    let e : (s, []) ≡ out = cc in
    subst (λ (o : Sums × List Item). o.0.subtotal ≡ s.subtotal + 0) e (omega arith)
add_items-subtotal (p ∷ ps) s out h =
    let line = pos_part p.qty * pos_part p.unit_price_cents in
    let (_, _, h1) = >>=-eq-ok (raise_if (leb_ℤ p.qty (pos 0)) bad_quantity) _ h in
    let (_, _, h2) = >>=-eq-ok (raise_if (ltb_ℤ p.unit_price_cents (pos 0)) bad_price) _ h1 in
    let (r, went, h3) = >>=-eq-ok (add_items ps (add_line line p.tax_rate s)) _ h2 in
    let e : r.0 ≡ out.0 = cc in
    let ind = add_items-subtotal ps (add_line line p.tax_rate s) r went in
    subst (λ (o : Sums). o.subtotal ≡ s.subtotal + (line + asked_for ps)) e (omega (arith, ind))

-- What a creation that goes through has done.
pub record Made (id : ℕ) (order : Order) (items : List ItemCreate) (year : ℕ) (s : Store)
    (c : Created) : Type 0 where
  pub sums : Sums
  pub rows : List Item
  pub due : Option ℕ
  pub currency : ℕ
  pub added : add_items items no_sums ≡ ok (sums, rows)
  pub invoice_is :
      c.invoice
      ≡ new_invoice (generate_invoice_number year s.last_number).1 order due currency sums rows
  pub stored : c.store.invoices ≡ put id c.invoice s.invoices
  pub counted : c.store.last_number ≡ (generate_invoice_number year s.last_number).0
  pub charged : c.order ≡ charge_order sums.subtotal order

pub create_invoice-Made :
    (id : ℕ) (order : Order) (items : List ItemCreate) (year : ℕ) (due : Option ℕ) (currency : ℕ)
    (s : Store) (c : Created)
    → create_invoice_from_order id order items year due currency s ≡ ok c
    → Made id order items year s c
unfolding create_invoice_from_order
create_invoice-Made id order items year due currency s c h =
    let (_, _, h1) = >>=-eq-ok (raise_if (is_empty items) no_items) _ h in
    let (r, went, h2) = >>=-eq-ok (add_items items no_sums) _ h1 in
    let invoice =
      new_invoice (generate_invoice_number year s.last_number).1 order due currency r.0 r.1 in
    let made : Created = record {
      store = record s {
        invoices = put id invoice s.invoices;
        last_number = (generate_invoice_number year s.last_number).0;
      };
      invoice = invoice;
      order = charge_order r.0.subtotal order;
    } in
    let e : made ≡ c = cc in
    subst (Made id order items year s) e (record {
      sums = r.0;
      rows = r.1;
      due = due;
      currency = currency;
      added = went;
      invoice_is = refl;
      stored = refl;
      counted = refl;
      charged = refl;
    })

recalculate_new :
    (number : Number) (order : Order) (due : Option ℕ) (currency : ℕ) (sums : Sums)
    (rows : List Item)
    → sum_items rows no_sums ≡ sums
    → let i = new_invoice number order due currency sums rows in recalculate_totals i ≡ i
unfolding recalculate_totals new_invoice set_totals
recalculate_new number order due currency sums rows h = rw h refl

charge_order_charge :
    (n m : ℕ) (order : Order)
    → n ≡ m
    → (charge_order n order).base_charge_cents ≡ (
        if (order.base_charge_cents == 0) && (order.refund_total_cents == 0)
        then m
        else order.base_charge_cents)
unfolding charge_order
charge_order_charge n m order e = ground arith

-- An invoice that is created is a draft whose subtotal is the sum of the products of its items, whose
-- total is that with the tax, and whose totals are those that recalculating them gives; and it sets
-- the charge of an order that has neither a charge nor a refund, of no other.
pub create_invoice_totals :
    (id : ℕ) (order : Order) (items : List ItemCreate) (year : ℕ) (due : Option ℕ) (currency : ℕ)
    (s : Store) (c : Created)
    → create_invoice_from_order id order items year due currency s ≡ ok c
    → (recalculate_totals c.invoice ≡ c.invoice)
      × (c.invoice.status ≡ draft)
      × (c.invoice.subtotal_cents ≡ asked_for items)
      × (c.invoice.total_cents ≡ c.invoice.subtotal_cents + c.invoice.tax_cents)
      × (c.order.base_charge_cents ≡ (
          if (order.base_charge_cents == 0) && (order.refund_total_cents == 0)
          then asked_for items
          else order.base_charge_cents))
unfolding new_invoice
create_invoice_totals id order items year due currency s c h =
    let m = create_invoice-Made id order items year due currency s c h in
    let sub = add_items-subtotal items no_sums (m.sums, m.rows) m.added in
    let sums = add_items-sums items no_sums (m.sums, m.rows) m.added in
    let again =
      recalculate_new (generate_invoice_number year s.last_number).1 order m.due m.currency m.sums
        m.rows sums in
    rw (m.invoice_is, m.charged)
      (
        again,
        refl,
        omega (arith, sub),
        refl,
        charge_order_charge m.sums.subtotal (asked_for items) order (omega (arith, sub)),
      )
