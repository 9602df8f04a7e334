-- ===== src/Invoices/Rows.antt =====
-- The rows of app/domain/invoices that totals and payments depend on. Identifiers, names and times
-- are numbers; currencies are compared in upper case, and stand for their texts in upper case.
use clean.Base.{ℕ, Bool, true, false, Option, List}
use clean.Base.Int.{ℤ}

-- The statuses of app/domain/invoices/statuses.py.
pub data Status : Type 0 where
  draft sent paid partial overdue void : Status

pub data PaymentStatus : Type 0 where
  succeeded pending failed : PaymentStatus

pub data Method : Type 0 where
  cash etransfer other_method card : Method

pub data Provider : Type 0 where
  stripe manual : Provider

-- A `Decimal` that is not negative: its digits over a power of ten.
pub record Rate : Type 0 where
  pub digits : ℕ
  pub scale : ℕ

-- `InvoiceItemCreate`
pub record ItemCreate : Type 0 where
  pub description : ℕ
  pub qty : ℤ
  pub unit_price_cents : ℤ
  pub tax_rate : Option Rate

-- `InvoiceItem`
pub record Item : Type 0 where
  pub description : ℕ
  pub qty : ℕ
  pub unit_price_cents : ℕ
  pub line_total_cents : ℕ
  pub tax_rate : Option Rate

-- `INV-{year}-{number}`
pub record Number : Type 0 where
  pub year : ℕ
  pub number : ℕ

-- `Invoice`, without its payments; the basis of the tax rate in ten-thousandths.
pub record Invoice : Type 0 where
  pub invoice_number : Number
  pub order_id : ℕ
  pub customer_id : Option ℕ
  pub status : Status
  pub due_date : Option ℕ
  pub currency : ℕ
  pub subtotal_cents : ℕ
  pub taxable_subtotal_cents : ℕ
  pub tax_cents : ℕ
  pub tax_rate_basis : Option ℕ
  pub total_cents : ℕ
  pub items : List Item

-- `Payment`
pub record Payment : Type 0 where
  pub invoice_id : Option ℕ
  pub booking_id : Option ℕ
  pub provider : Provider
  pub provider_ref : Option ℕ
  pub checkout_session_id : Option ℕ
  pub payment_intent_id : Option ℕ
  pub method : Method
  pub amount_cents : ℕ
  pub currency : ℕ
  pub status : PaymentStatus
  pub received_at : Option ℕ
  pub reference : Option ℕ

-- The columns of a booking that an invoice is made from.
pub record Order : Type 0 where
  pub booking_id : ℕ
  pub lead_id : Option ℕ
  pub base_charge_cents : ℕ
  pub refund_total_cents : ℕ

-- The invoices by their identifiers, the payments, and the last number of each year.
pub record Store : Type 0 where
  pub invoices : ℕ → Option Invoice
  pub payments : List Payment
  pub last_number : ℕ → Option ℕ

pub data Error : Type 0 where
  no_items bad_quantity bad_price : Error
  void_invoice bad_amount bad_status bad_currency bad_method not_recorded : Error

abbrev pub is_succeeded : PaymentStatus → Bool
is_succeeded succeeded = true
is_succeeded _ = false
