-- ===== src/Outbox.antt =====
-- app/domain/outbox/service.py
mod Rows
mod Webhook
pub mod Delivery
pub mod Retries
pub mod Rounds
pub mod Enqueued
pub mod Poison
mod Scenarios
pub use Rows.*
unfoldable pub use Webhook.*
use mathlib.Core.Option
use clean.Base.{
  ℕ, ◌+◌, ◌-◌, ◌*◌, ◌^◌, max, Bool, true, false, not, ◌&&◌, ◌||◌, List, [], ◌∷◌, ◌++◌, Option, none,
  some, ltb, leb, ◌==◌, if◌then◌else◌, get_or, ◌or_else◌, keep, take, is_empty, length,
}

-- `_backoff_delay`
pub backoff_delay : Settings → ℕ → ℕ
backoff_delay s attempt = s.outbox_base_backoff * max 1 (2 ^ max 0 (attempt - 1))

-- `_try_send_email` of app/domain/notifications/email_service.py.
try_send_email : World → ℕ → ℕ → ℕ → ℕ → Option ℕ → Bool
try_send_email w now recipient subject body headers = elim w.email_adapter [
  | none ↦ false
  | some send_email ↦ get_or (send_email now recipient subject body headers) false
]

send_result : Bool → Option Fault
send_result true = none
send_result false = some send_failed

-- A delivery gives nothing where it succeeds, else what went wrong.
-- `_deliver_email`
deliver_email : World → ℕ → Option ℕ → Option ℕ → Option ℕ → Option ℕ → Option Fault
unfolding try_send_email send_result
deliver_email w now (some recipient) (some subject) (some body) headers =
    send_result (try_send_email w now recipient subject body headers)
deliver_email w now _ _ _ headers = some missing_payload

post_result : Posted → Option Fault
post_result (answered code) = if leb 200 code && ltb code 300 then none else some (http_status code)
post_result (raises e) = some (raised e)

-- `_deliver_webhook`
deliver_webhook : World → ℕ → Option ℕ → Option Body → Option Fault
unfolding post_result
deliver_webhook w now none body = some missing_url
deliver_webhook w now (some url) body = post_result (w.post now url body)

unless_refused : Option (Option Refusal) → Option Fault → Option (Option Fault)
unless_refused none posted = none
unless_refused (some none) posted = some posted
unless_refused (some (some r)) posted = some (some (refused r))

export_to : Settings → World → ℕ → Option ℕ → Option Body → Option (Option Fault)
unfolding deliver_webhook unless_refused
export_to s w now none body = some (some missing_url)
export_to s w now (some url) body =
    unless_refused (validate_webhook_url s w now url) (deliver_webhook w now (some url) body)

-- `_deliver_export`, which gives nothing at all where the check of the URL raises.
pub deliver_export : Settings → World → ℕ → Option ℕ → Option Body → Option (Option Fault)
unfolding export_to
deliver_export s w now target_url body =
    export_to s w now (target_url or_else s.export_webhook_url) body

-- `_deliver_event`
pub deliver_payload : Settings → World → ℕ → Kind → Payload → Option (Option Fault)
unfolding deliver_email deliver_webhook
deliver_payload s w now email p = some (deliver_email w now p.recipient p.subject p.body p.headers)
deliver_payload s w now webhook p = some (deliver_webhook w now p.url p.payload)
deliver_payload s w now export p = deliver_export s w now p.target_url p.payload
deliver_payload s w now (other k) p = some (some unknown_kind)

-- The event after an attempt with the result `r`, at the time `now`.
pub after_attempt : Settings → ℕ → Option Fault → Event → Event
after_attempt s now none e = record e {
  attempts = e.attempts + 1;
  status = sent;
  next_attempt_at = none;
  last_error = none;
}
after_attempt s now (some r) e =
    let e' = record e { attempts = e.attempts + 1; last_error = some r } in
    if leb s.outbox_max_attempts (e.attempts + 1)
    then record e' { status = dead; next_attempt_at = none }
    else record e' {
      status = retry;
      next_attempt_at = some (now + backoff_delay s (e.attempts + 1));
    }

-- `deliver_outbox_event`, which gives nothing where it raises. It then has set the attempts of the
-- object only, and what its caller has not committed is rolled back.
pub deliver_outbox_event : Settings → World → ℕ → Event → Option Event
deliver_outbox_event s w now e =
    Option.map (λ r. after_attempt s now r e) (deliver_payload s w now e.kind e.payload_json)

host_of : World → Option ℕ → Option (Option ℕ)
host_of w none = some none
host_of w (some url) = Option.map (λ (u : Url). u.hostname) (w.urlparse url)

lead_of : Option Body → Option ℕ
lead_of none = none
lead_of (some b) = b.lead_id

-- `_build_export_event`, which gives nothing where `urlparse` raises.
pub build_export_event : World → Event → Option ExportEvent
unfolding host_of lead_of
build_export_event w e =
    Option.map
      (λ host. record {
        lead_id = lead_of e.payload_json.payload;
        payload = e.payload_json.payload;
        target_url = e.payload_json.target_url;
        target_url_host = host;
        attempts = e.attempts;
        last_error_code = e.last_error;
        org_id = e.org_id;
      })
      (host_of w e.payload_json.target_url)

abbrev pub is_pending_status : Status → Bool
is_pending_status pending = true
is_pending_status retry = true
is_pending_status _ = false

is_past : ℕ → Option ℕ → Bool
is_past now none = false
is_past now (some t) = leb t now

-- `status IN PENDING_STATUSES AND next_attempt_at <= now`
pub is_due : ℕ → Event → Bool
unfolding is_past
is_due now e = is_pending_status e.status && is_past now e.next_attempt_at

-- The columns that an attempt or a replay sets.
pub set_columns : Event → Event → Event
set_columns e x = record x {
  attempts = e.attempts;
  status = e.status;
  next_attempt_at = e.next_attempt_at;
  last_error = e.last_error;
}

-- The row of an event updated.
pub update : Event → List Event → List Event
unfolding set_columns
update e [] = []
update e (x ∷ xs) =
    let rest = update e xs in if x.event_id == e.event_id then set_columns e x ∷ rest else x ∷ rest

abbrev pub is_sent : Status → Bool
is_sent sent = true
is_sent _ = false

abbrev pub is_dead : Status → Bool
is_dead dead = true
is_dead _ = false

abbrev pub is_export : Kind → Bool
is_export export = true
is_export _ = false

pub record Round : Type 0 where
  pub store : Store
  pub sent : ℕ
  pub dead : ℕ

-- The dead letter of an event that has just been attempted, if it gets one.
pub dead_letter : World → Event → Option (List ExportEvent)
dead_letter w e =
    if is_dead e.status && is_export e.kind
    then Option.map (λ x. x ∷ []) (build_export_event w e)
    else some []

counted : Event → Round → List ExportEvent → Round
unfolding update
counted e r letters = record {
  store = record { events = update e r.store.events; exports = r.store.exports ++ letters };
  sent = r.sent + (if is_sent e.status then 1 else 0);
  dead =
      r.dead + (if not (is_sent e.status) && (is_dead e.status && is_export e.kind) then 1 else 0);
}

-- One event of the loop of `process_outbox`, attempted to `e`.
after_event : World → Event → Round → Option Round
unfolding dead_letter counted
after_event w e r = Option.map (λ letters. counted e r letters) (dead_letter w e)

-- One turn of the loop: an attempt, and what is written of it, unless one of them raises.
pub turn : Settings → World → ℕ → Event → Round → Option Round
unfolding after_event
turn s w now e r = elim (deliver_outbox_event s w now e) [
  | none ↦ none
  | some e' ↦ after_event w e' r
]

-- The loop; `clock` says when each event is attempted.
pub deliver_all : Settings → World → (ℕ → ℕ) → List Event → Round → Option Round
unfolding turn
deliver_all s w clock [] r = some r
deliver_all s w clock (e ∷ es) r = elim (turn s w (clock e.event_id) e r) [
  | none ↦ none
  | some r' ↦ deliver_all s w clock es r'
]

pub selected : ℕ → ℕ → List Event → List Event
selected now limit es = take limit (keep (is_due now) es)

-- `process_outbox`, with the number of events selected; it gives nothing where it raises.
pub process_outbox : Settings → World → ℕ → (ℕ → ℕ) → ℕ → Store → Option (Round × ℕ)
unfolding selected deliver_all
process_outbox s w now clock limit store =
    let es = selected now limit store.events in
    Option.map (λ r. (r, length es))
      (deliver_all s w clock es (record { store = store; sent = 0; dead = 0 }))

-- The database that the session is bound to.
pub data Dialect : Type 0 where
  postgresql other_dialect : Dialect

pub find_event : ℕ → ℕ → List Event → Option Event
find_event org key [] = none
find_event org key (e ∷ es) =
    let rest = find_event org key es in
    if e.org_id == org && (e.dedupe_key == key) then some e else rest

new_event : ℕ → ℕ → ℕ → Kind → Payload → ℕ → Event
new_event id now org kind payload key = record {
  event_id = id;
  org_id = org;
  kind = kind;
  payload_json = payload;
  dedupe_key = key;
  status = pending;
  attempts = 0;
  next_attempt_at = some now;
  last_error = none;
}

-- A session of the database: what is committed, and what its open transaction sees.
pub record Session : Type 0 where
  pub committed : Store
  pub written : Store

-- `session.rollback()`
pub rolled_back : Session → Session
rolled_back s = record s { written = s.committed }

insert_event : Event → Session → Session × Option Event
insert_event new s =
    (record s { written = record s.written { events = s.written.events ++ new ∷ [] } }, some new)

existing_or_insert : Option Event → Event → Session → Session × Option Event
unfolding insert_event
existing_or_insert (some e) new s = (s, some e)
existing_or_insert none new s = insert_event new s

-- The insert fails on the unique index where the transaction sees a row with the key: the whole
-- transaction is rolled back, and the row is then looked for.
insert_or_existing : Option Event → Event → Session → Session × Option Event
unfolding existing_or_insert rolled_back find_event insert_event
insert_or_existing none new s = insert_event new s
insert_or_existing (some e) new s =
    existing_or_insert (find_event new.org_id new.dedupe_key s.committed.events) new (rolled_back s)

-- `enqueue_outbox_event`; `id` is the new row's. It gives no event where it raises: PostgreSQL refuses
-- `ON CONFLICT ON CONSTRAINT` with the name of an index that is no constraint, and the failed
-- transaction can only be rolled back.
pub enqueue_outbox_event :
    Dialect → ℕ → ℕ → ℕ → Kind → Payload → ℕ → Session → Session × Option Event
unfolding find_event new_event insert_or_existing rolled_back
enqueue_outbox_event postgresql id now org kind payload key s = (rolled_back s, none)
enqueue_outbox_event other_dialect id now org kind payload key s =
    insert_or_existing (find_event org key s.written.events) (new_event id now org kind payload key)
      s

-- `replay_outbox_event`
pub replay_outbox_event : ℕ → Event → Event
replay_outbox_event now e = record e {
  status = pending;
  attempts = 0;
  next_attempt_at = some now;
  last_error = none;
}
