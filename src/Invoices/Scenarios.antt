-- ===== src/Invoices/Scenarios.antt =====
-- An invoice of two lines at five percent, that a card pays in full.
use clean.Base.{
  ◌+◌, ◌≡◌, refl, true, false, ◌&&◌, ◌==◌, if◌then◌else◌, List, [], ◌∷◌, none, some, empty, put, ok,
}
use clean.Base.Int.{pos}
use clean.Invoices.{
  draft, paid, succeeded, Rate, ItemCreate, Invoice, Payment, Order, Store, Created, Registered,
  StripeReport, create_invoice_from_order, add_items, add_line, calculate_tax, is_taxable_rate,
  rate_basis, generate_invoice_number, new_invoice, charge_order, recalculate_totals,
  record_stripe_payment, register_payment, stripe_receipt, chosen, update_first, amend,
  insert_payment, new_payment, refreshed, paid_cents, is_void, card, stripe,
}
use clean.Invoices.Recalculated.{asked_for, create_invoice_totals}
use clean.Invoices.Redelivery.{record_stripe_payment_again}
use clean.Invoices.Settled.{Accounted, register_payment-Accounted}
use clean.Invoices.Numbers.{Creation, IsNumbered, run, run-IsNumbered}

abbrev five_percent : Rate
five_percent = record { digits = 5; scale = 2 }

abbrev items : List ItemCreate
items =
    record {
      description = 1;
      qty = pos 1;
      unit_price_cents = pos 12_990;
      tax_rate = some five_percent;
    }
    ∷ record { description = 2; qty = pos 2; unit_price_cents = pos 1000; tax_rate = none }
    ∷ []

abbrev order : Order
order = record { booking_id = 4; lead_id = some 6; base_charge_cents = 0; refund_total_cents = 0 }

abbrev before : Store
before = record { invoices = empty; payments = []; last_number = empty }

abbrev totals : Invoice
totals = record {
  invoice_number = record { year = 2025; number = 1 };
  order_id = 4;
  customer_id = some 6;
  status = draft;
  due_date = none;
  currency = 124;
  subtotal_cents = 14_990;
  taxable_subtotal_cents = 12_990;
  tax_cents = 650;
  tax_rate_basis = some 500;
  total_cents = 15_640;
  items =
      record {
        description = 1;
        qty = 1;
        unit_price_cents = 12_990;
        line_total_cents = 12_990;
        tax_rate = some five_percent;
      }
      ∷ record {
        description = 2;
        qty = 2;
        unit_price_cents = 1000;
        line_total_cents = 2000;
        tax_rate = none;
      }
      ∷ [];
}

abbrev created : Created
created = record {
  store = record before {
    invoices = put 1 totals before.invoices;
    last_number = put 2025 1 before.last_number;
  };
  invoice = totals;
  order = record order { base_charge_cents = 14_990 };
}

creates : create_invoice_from_order 1 order items 2025 none 124 before ≡ ok created
unfolding create_invoice_from_order add_items add_line calculate_tax is_taxable_rate rate_basis
    generate_invoice_number new_invoice charge_order
creates = refl

create_invoice_totals_example :
    (recalculate_totals totals ≡ totals)
    × (draft ≡ draft)
    × (14_990 ≡ asked_for items)
    × (15_640 ≡ 14_990 + 650)
    × (14_990 ≡ (if (0 == 0) && (0 == 0) then asked_for items else 0))
create_invoice_totals_example =
    create_invoice_totals 1 order items 2025 none 124 before created creates

abbrev report : StripeReport
report = record {
  amount_cents = pos 15_640;
  currency = 124;
  status = some succeeded;
  received_at = 70;
  reference = none;
  provider_ref = some 33;
  checkout_session_id = none;
  payment_intent_id = none;
}

abbrev row : Payment
row = record {
  invoice_id = some 1;
  booking_id = none;
  provider = stripe;
  provider_ref = some 33;
  checkout_session_id = none;
  payment_intent_id = some 33;
  method = card;
  amount_cents = 15_640;
  currency = 124;
  status = succeeded;
  received_at = some 70;
  reference = none;
}

abbrev registered : Registered
registered = record {
  invoice = record totals { status = paid };
  payments = row ∷ [];
  is_recorded = true;
}

reports : record_stripe_payment 1 report [] totals [] ≡ ok registered
unfolding record_stripe_payment register_payment stripe_receipt chosen update_first amend
    insert_payment new_payment refreshed paid_cents
reports = refl

record_stripe_payment_again_example :
    record_stripe_payment 1 report [] (record totals { status = paid }) (row ∷ []) ≡ ok registered
record_stripe_payment_again_example =
    record_stripe_payment_again 1 33 report totals [] registered refl reports

registers : register_payment 1 (stripe_receipt report succeeded) [] totals [] ≡ ok registered
unfolding register_payment stripe_receipt chosen update_first amend insert_payment new_payment
    refreshed paid_cents
registers = refl

register_payment-Accounted_example :
    (is_void draft ≡ false) × Accounted 1 (stripe_receipt report succeeded) [] totals [] registered
register_payment-Accounted_example =
    register_payment-Accounted 1 (stripe_receipt report succeeded) [] totals [] registered registers

abbrev creation : Creation
creation = record { id = 1; order = order; items = items; year = 2025; due = none; currency = 124 }

abbrev refused_creation : Creation
refused_creation = record creation { items = [] }

abbrev history : List Creation
history = creation ∷ refused_creation ∷ record creation { id = 2 } ∷ []

run-IsNumbered_example : IsNumbered (run history before).invoices (run history before).last_number
run-IsNumbered_example =
    run-IsNumbered history before
      (record { counted = λ k i p. absurd (cc p); unique = λ j k a b p q _ _. absurd (cc p) })
