-- ===== src/Lib.antt =====
-- Verification of the core services of a cleaning company's backend (app/): disputes and refunds,
-- rate limiting, the circuit breaker, time tracking, the outbox, bookings, invoices, subscriptions,
-- links to photos, the replay of dead letters and the estimate of prices. Each part is a module:
--
-- Base         what all parts share: tests and lists over the native numbers, signed integers,
--              results of code that may raise, dictionaries as functions.
-- Circuit      app/shared/circuit_breaker.py. `ensure_available`, `record_failure` and
--              `record_success` are the sections under the breaker's lock, `call` joins them.
--              Circuit/Runs lets the sections of many calls interleave; Circuit/Window is about the
--              deque of failures, Circuit/Wedge about the trial calls.
-- RateLimit    app/infra/security.py. RateLimit/Memory is `InMemoryRateLimiter`, RateLimit/Fallback
--              `RedisRateLimiter`, whose `allow` enters itself again and is on fuel; two levels
--              are given. What Redis answers is a parameter.
-- Disputes     app/domain/disputes. Disputes/Rows has the tables; `open_dispute`, `attach_facts`,
--              `decide_dispute` and `close_dispute` are the operations of service.py.
-- TimeTracking app/domain/time_tracking. TimeTracking/Rows has the tables; the start, pause, resume
--              and end of service.py each give the database and a result, since a start may store
--              something and raise. What they store is modelled: the end of a segment, which is set
--              in the loaded object only, is not. The proofs keep the periods of work beside it.
-- Outbox       app/domain/outbox/service.py, with `_try_send_email` of
--              app/domain/notifications/email_service.py; Outbox/Webhook is `validate_webhook_url`
--              of app/infra/export.py. The network, `urlparse` and `ip_address` are parameters. An
--              attempt, a round or a check of a URL that raises gives nothing, and its transaction
--              is rolled back; `enqueue_outbox_event` works on a session, with what is committed and
--              what is written. Rows are kept in the order of `created_at`.
-- Bookings     app/domain/bookings/service.py: Bookings/Slots has the slots of a day, Bookings the
--              life of a booking, Bookings/Policies deposits, cancellation terms and risk. The
--              calendar of the local time zone is a parameter.
-- Invoices     app/domain/invoices/service.py: Invoices/Rows has the tables, Invoices/Totals the totals,
--              taxes and numbers, and the creation from an order, Invoices/Payments what is paid on an
--              invoice, Invoices/Reports the reports of Stripe and the reconciliation, with
--              `record_stripe_deposit_payment` of the bookings. A payment's insert is given
--              the rows that other requests have inserted since it looked.
-- PhotoTokens  app/api/photo_tokens.py: PhotoTokens/Strings has the methods of strings it calls,
--              PhotoTokens/Payloads what is signed, PhotoTokens/Tokens the tokens. What is documented of
--              the libraries is `IsLibrary` of PhotoTokens/Decoded, of Redis `IsUp` of
--              PhotoTokens/OneTime.
-- Subscriptions
--              app/domain/subscriptions/service.py: Subscriptions/Dates is the calendar of
--              `datetime.date`, Subscriptions/Schedule the dates of a subscription, its creation and its
--              changes, Subscriptions/Orders `generate_due_orders`, which calls `create_booking` of
--              Bookings and `create_invoice_from_order` of Invoices.
-- Replay       app/jobs/dlq_auto_replay.py, with `send_export_with_retry` of app/infra/export.py, over
--              `deliver_outbox_event` and `validate_webhook_url` of Outbox.
-- Pricing      app/domain/pricing: Pricing/Rows has the request and the configuration, Pricing/Estimator
--              `estimate` of estimator.py.
--
-- How the parts meet in the program: a booking's row carries the totals that Disputes adjusts, the
-- minutes that TimeTracking stores, and the status and the times that Bookings manages; each part
-- models the columns that it reads and writes. A run of the subscriptions books through Bookings and
-- bills through Invoices. The outbox is filled by other services and drained by a job, and Replay tries
-- its dead letters again.
--
-- Times are whole microseconds, or the breaker's own unit; identifiers and strings are numbers where
-- the code only compares them. Operations run one after another where the code locks a row or runs
-- in one transaction; the sections of the breaker, and a first start that another request overtakes,
-- are explicit. Loops are structural, but for the slots of a day, whose fuel is the number of half
-- hours in the day and one more, while each turn moves on by half an hour.
--
-- Not modelled: HTTP routes and authentication, logging and metrics, analytics, mails, migrations,
-- the storage of files, the front end, and the services not named above (leads, chat and others).
-- Left out of the parts above: the resolution of a client's address behind proxies, summaries and
-- counts that only read, the choice of a default team, the suggestion of slots in a time window,
-- overrides of bookings, the accounting export, public links and reminders of invoices, concurrent
-- runs of subscriptions, and what is logged, credited and mailed when a booking is confirmed.
-- Shares of a deposit, estimates and products of a tax rate are exact where the code multiplies
-- floats, or decimals of 28 digits.
pub mod Base
pub mod Circuit
pub mod RateLimit
pub mod Disputes
pub mod TimeTracking
pub mod Outbox
pub mod Bookings
pub mod Invoices
pub mod PhotoTokens
pub mod Subscriptions
pub mod Replay
pub mod Pricing
