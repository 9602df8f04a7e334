-- ===== src/Invoices/Totals.antt =====
-- The totals of an invoice and its number, in app/domain/invoices/service.py. Products of decimals
-- are exact: the code computes them to 28 digits.
use clean.Base.{
  ℕ, ◌+◌, ◌*◌, ◌/◌, ◌^◌, Bool, false, ◌&&◌, List, [], ◌∷◌, Option, none, some, ltb, ◌==◌,
  if◌then◌else◌, put, get_or, is_empty, Result, ok, raise_if, ◌>>=◌, ◌>>◌,
}
use clean.Base.Int.{pos, pos_part, ltb_ℤ, leb_ℤ}
use clean.Invoices.Rows.{
  draft, Rate, ItemCreate, Item, Number, Invoice, Order, Store, Error, no_items, bad_quantity,
  bad_price,
}

-- `Decimal(a) / Decimal(b)` to whole numbers, `ROUND_HALF_UP`.
abbrev pub half_up : ℕ → ℕ → ℕ
half_up a b = (2 * a + b) / (2 * b)

-- `_calculate_tax`
unfoldable pub calculate_tax : ℕ → Option Rate → ℕ
calculate_tax line_total none = 0
calculate_tax line_total (some r) = half_up (line_total * r.digits) (10 ^ r.scale)

-- `_is_taxable_rate`
unfoldable pub is_taxable_rate : Option Rate → Bool
is_taxable_rate none = false
is_taxable_rate (some r) = ltb 0 r.digits

-- The running sums of the loops over the items.
pub record Sums : Type 0 where
  pub subtotal : ℕ
  pub tax_total : ℕ
  pub taxable_subtotal : ℕ

abbrev pub no_sums : Sums
no_sums = record { subtotal = 0; tax_total = 0; taxable_subtotal = 0 }

unfoldable pub add_line : ℕ → Option Rate → Sums → Sums
add_line line_total rate s = record {
  subtotal = s.subtotal + line_total;
  tax_total = s.tax_total + calculate_tax line_total rate;
  taxable_subtotal = s.taxable_subtotal + (if is_taxable_rate rate then line_total else 0);
}

-- `tax_rate_basis`, in ten-thousandths.
unfoldable pub rate_basis : ℕ → ℕ → Option ℕ
rate_basis tax_total taxable_subtotal =
    if ltb 0 taxable_subtotal then some (half_up (tax_total * 10_000) taxable_subtotal) else none

-- The loop of `create_invoice_from_order` over the items that are asked for.
unfoldable pub add_items : List ItemCreate → Sums → Result Error (Sums × List Item)
add_items [] s = ok (s, [])
add_items (p ∷ ps) s = do
  raise_if (leb_ℤ p.qty (pos 0)) bad_quantity
  raise_if (ltb_ℤ p.unit_price_cents (pos 0)) bad_price
  let line_total = pos_part p.qty * pos_part p.unit_price_cents
  (s', items) ← add_items ps (add_line line_total p.tax_rate s)
  ok (
    s',
    record {
      description = p.description;
      qty = pos_part p.qty;
      unit_price_cents = pos_part p.unit_price_cents;
      line_total_cents = line_total;
      tax_rate = p.tax_rate;
    }
        ∷ items,
  )

-- The loop of `recalculate_totals`.
unfoldable pub sum_items : List Item → Sums → Sums
sum_items [] s = s
sum_items (x ∷ xs) s = sum_items xs (add_line x.line_total_cents x.tax_rate s)

unfoldable pub set_totals : Sums → Invoice → Invoice
set_totals s i = record i {
  subtotal_cents = s.subtotal;
  taxable_subtotal_cents = s.taxable_subtotal;
  tax_cents = s.tax_total;
  total_cents = s.subtotal + s.tax_total;
  tax_rate_basis = rate_basis s.tax_total s.taxable_subtotal;
}

-- `recalculate_totals`
unfoldable pub recalculate_totals : Invoice → Invoice
recalculate_totals i = set_totals (sum_items i.items no_sums) i

-- `generate_invoice_number`: the first number of a year is 1.
unfoldable pub generate_invoice_number : ℕ → (ℕ → Option ℕ) → (ℕ → Option ℕ) × Number
generate_invoice_number year last =
    let n = get_or (last year) 0 + 1 in (put year n last, record { year = year; number = n })

unfoldable pub new_invoice : Number → Order → Option ℕ → ℕ → Sums → List Item → Invoice
new_invoice number order due currency s items = record {
  invoice_number = number;
  order_id = order.booking_id;
  customer_id = order.lead_id;
  status = draft;
  due_date = due;
  currency = currency;
  subtotal_cents = s.subtotal;
  taxable_subtotal_cents = s.taxable_subtotal;
  tax_cents = s.tax_total;
  tax_rate_basis = rate_basis s.tax_total s.taxable_subtotal;
  total_cents = s.subtotal + s.tax_total;
  items = items;
}

-- The first invoice of an order that has no charge, and no refund, sets its charge.
unfoldable pub charge_order : ℕ → Order → Order
charge_order subtotal order =
    if (order.base_charge_cents == 0) && (order.refund_total_cents == 0)
    then record order { base_charge_cents = subtotal }
    else order

-- What `create_invoice_from_order` leaves behind.
pub record Created : Type 0 where
  pub store : Store
  pub invoice : Invoice
  pub order : Order

-- `create_invoice_from_order`, under the identifier `id`; what it raises is rolled back.
unfoldable pub create_invoice_from_order :
    ℕ → Order → List ItemCreate → ℕ → Option ℕ → ℕ → Store → Result Error Created
create_invoice_from_order id order items year due currency s = do
  raise_if (is_empty items) no_items
  let (last, number) = generate_invoice_number year s.last_number
  (sums, rows) ← add_items items no_sums
  let invoice = new_invoice number order due currency sums rows
  ok (record {
    store = record s { invoices = put id invoice s.invoices; last_number = last };
    invoice = invoice;
    order = charge_order sums.subtotal order;
  })
