-- ===== src/Subscriptions/Orders.antt =====
-- `generate_due_orders` of app/domain/subscriptions/service.py, with the bookings and the invoices
-- that it creates. Runs follow one another; its route commits after a run that goes through, and a run
-- that raises is rolled back to its last commit. Mails are left out.
use clean.Base.{
  ℕ, ◌+◌, Bool, true, false, ◌&&◌, List, [], ◌∷◌, Option, none, some, leb, ◌==◌, if◌then◌else◌, put,
  any, keep, length, Result, ok, err,
}
use clean.Base.Int.{pos}
use clean.Bookings
use clean.Invoices
use clean.Subscriptions.Dates.{Date}
use clean.Subscriptions.Schedule.{Status, active, trial, Subscription, next_date}

-- A booking with a subscription, and its charge.
pub record Order : Type 0 where
  pub subscription_id : ℕ
  pub scheduled_date : Date
  pub booking_id : ℕ
  pub base_charge_cents : ℕ

-- The subscriptions by their identifiers, and the identifiers in the order of the query.
pub record Store : Type 0 where
  pub ids : List ℕ
  pub subscriptions : ℕ → Option Subscription
  pub orders : List Order
  pub bookings : Bookings.Store
  pub invoices : Invoices.Store

pub data Error : Type 0 where
  booking_error : Bookings.Error → Error
  invoice_error : Invoices.Error → Error

-- What a run depends on: the default team, what is decided on a booking, new identifiers, the add-ons
-- of an order, the invoice's year, due date and currency, when a working day starts, and the date of a
-- time in UTC.
pub record Environment : Type 0 where
  pub calendar : Bookings.Calendar
  pub team : ℕ
  pub decision : Subscription → Date → Bookings.Decision
  pub booking_id : ℕ → Date → ℕ
  pub invoice_id : ℕ → Date → ℕ
  pub description : Subscription → ℕ
  pub addon_items : ℕ → List Invoices.ItemCreate
  pub year : ℕ
  pub due_date : Option ℕ
  pub currency : ℕ
  pub start_of_day : Date → ℕ
  pub utc_date : ℕ → Date

abbrev pub is_running : Status → Bool
is_running active = true
is_running trial = true
is_running _ = false

-- The condition of the query.
unfoldable pub is_due : ℕ → Subscription → Bool
is_due now x = is_running x.status && leb x.next_run_at now

abbrev pub is_due_row : ℕ → Option Subscription → Bool
is_due_row now none = false
is_due_row now (some x) = is_due now x

abbrev pub is_due_id : ℕ → (ℕ → Option Subscription) → ℕ → Bool
is_due_id now subs k = is_due_row now (subs k)

abbrev pub same_date : Date → Date → Bool
same_date a b = (a.year == b.year) && (a.month == b.month) && (a.day == b.day)

abbrev pub is_order : ℕ → Date → Order → Bool
is_order k d o = (o.subscription_id == k) && same_date o.scheduled_date d

-- The subscription's own item and those of the order's add-ons.
unfoldable pub invoice_items : Environment → Subscription → ℕ → List Invoices.ItemCreate
invoice_items env x booking =
    record {
      description = env.description x;
      qty = pos 1;
      unit_price_cents = pos x.base_price;
      tax_rate = none;
    }
    ∷ env.addon_items booking

abbrev pub invoiced :
    ℕ
    → Date
    → ℕ
    → Bookings.Store
    → Store
    → Result Invoices.Error Invoices.Created
    → Result Error Store
invoiced k d booking bookings s (err e) = err (invoice_error e)
invoiced k d booking bookings s (ok c) = ok (record s {
  orders =
      record {
        subscription_id = k;
        scheduled_date = d;
        booking_id = booking;
        base_charge_cents = c.order.base_charge_cents;
      }
      ∷ s.orders;
  bookings = bookings;
  invoices = c.store;
})

abbrev pub booked :
    Environment
    → ℕ
    → Subscription
    → Date
    → Store
    → Bookings.Store × Result Bookings.Error Bookings.Booking
    → Result Error Store
booked env k x d s (bookings, err e) = err (booking_error e)
booked env k x d s (bookings, ok b) = invoiced k d b.booking_id bookings s (
    Invoices.create_invoice_from_order (env.invoice_id k d)
      (record {
        booking_id = b.booking_id;
        lead_id = none;
        base_charge_cents = 0;
        refund_total_cents = 0;
      })
      (invoice_items env x b.booking_id) env.year env.due_date env.currency s.invoices)

-- The order of the subscription `k` on a date: its booking for two hours and its invoice.
unfoldable pub create_order : Environment → ℕ → ℕ → Subscription → Date → Store → Result Error Store
create_order env now k x d s = booked env k x d s (
    Bookings.create_booking env.calendar (env.booking_id k d) now env.team (env.start_of_day d) 120
      none (env.decision x d) s.bookings)

-- A subscription whose next run is set, after the one that was due.
unfoldable pub advanced : Environment → Subscription → Subscription
advanced env x = record x {
  next_run_at =
      env.start_of_day
        (next_date x.frequency x.preferred_day_of_month (env.utc_date x.next_run_at));
}

abbrev pub advance : Environment → ℕ → Subscription → Store → Store
advance env k x s = record s { subscriptions = put k (advanced env x) s.subscriptions }

-- A run under way: what it has written, what of that is committed, and how many orders it has made.
pub record Progress : Type 0 where
  pub written : Store
  pub committed : Store
  pub created_orders : ℕ

abbrev pub after_order :
    Environment → ℕ → Subscription → Progress → Result Error Store → Result Error Progress
after_order env k x p (err e) = err e
after_order env k x p (ok s) = ok (record {
  written = advance env k x s;
  committed = advance env k x s;
  created_orders = p.created_orders + 1;
})

-- The body of the loop.
unfoldable pub serve : Environment → ℕ → ℕ → Subscription → Progress → Result Error Progress
serve env now k x p =
    let d = env.utc_date x.next_run_at in
    if any (is_order k d) p.written.orders
    then ok (record p { written = advance env k x p.written })
    else after_order env k x p (create_order env now k x d p.written)

-- `GenerationResult`
pub record GenerationResult : Type 0 where
  pub processed : ℕ
  pub created_orders : ℕ

-- The loop over the subscriptions that are due, to the last progress.
unfoldable pub serve_all : Environment → ℕ → List ℕ → Progress → Progress × Result Error (Unit {0})
serve_all env now [] p = (p, ok tt)
serve_all env now (k ∷ ks) p = elim (p.written.subscriptions k) [
  | none ↦ serve_all env now ks p
  | some x ↦ elim (serve env now k x p) [ err e ↦ (p, err e) | ok p' ↦ serve_all env now ks p' ]
]

abbrev pub finished : ℕ → Progress × Result Error (Unit {0}) → Store × Result Error GenerationResult
finished n (p, err e) = (p.committed, err e)
finished n (p, ok _) = (p.written, ok (record { processed = n; created_orders = p.created_orders }))

-- `generate_due_orders`
unfoldable pub generate_due_orders : Environment → ℕ → Store → Store × Result Error GenerationResult
generate_due_orders env now s =
    let due = keep (is_due_id now s.subscriptions) s.ids in
    finished (length due)
      (serve_all env now due (record { written = s; committed = s; created_orders = 0 }))
