-- ===== src/Outbox/Scenarios.antt =====
-- An export that its receiver refuses, one that goes through, and one whose URL cannot be read.
use clean.Base.{
  ℕ, ◌+◌, ◌≤◌, ◌≡◌, refl, true, false, List, [], ◌∷◌, none, some, length, ◌or_else◌, All, Option,
}
use clean.Outbox.{
  pending, sent, export, email, Event, Payload, Settings, Store, World, Round, Session,
  other_dialect, answered, found, https, is_due, deliver_outbox_event, after_attempt,
  deliver_payload, deliver_export, deliver_webhook, post_result, export_to, unless_refused,
  validate_webhook_url, IsSafe, enqueue_outbox_event, process_outbox, is_past, refuse_parsed,
  refuse_url, refuse_scheme, refuse_host, refuse_blocked, refuse_found, refuse_ips, host_ips,
  distinct, resolve_host_ips, find_event, is_private_ip, is_allowlisted, selected, deliver_all,
  turn, after_event, counted, dead_letter, update, set_columns,
}
use clean.Outbox.Delivery.{IsAccepted, sent_export-IsSafe}
use clean.Outbox.Retries.{IsOnTrack, Fits, rounds, rounds-IsOnTrack}
use clean.Outbox.Rounds.{process_outbox-counts}
use clean.Outbox.Poison.{RaisesAlways, Job, IsPoisoned, jobs, raising_event_stops}
use clean.Outbox.Enqueued.{enqueue_again_discards}

abbrev payload : Payload
payload = record {
  recipient = none;
  subject = none;
  body = none;
  headers = none;
  url = none;
  target_url = some 80;
  payload = some (record { contents = 5; lead_id = some 2 });
}

abbrev event : Event
event = record {
  event_id = 1;
  org_id = 1;
  kind = export;
  payload_json = payload;
  dedupe_key = 7;
  status = pending;
  attempts = 0;
  next_attempt_at = some 100;
  last_error = none;
}

abbrev settings : Settings
settings = record {
  outbox_max_attempts = 2;
  outbox_base_backoff = 30;
  export_webhook_url = none;
  allow_http = false;
  allowed_hosts = 81 ∷ [];
  is_prod = true;
  block_private_ips = true;
}

-- A receiver at a public address that answers with `code`.
abbrev answers_with : ℕ → World
answers_with code = record {
  email_adapter = none;
  export_resolver = none;
  getaddrinfo = λ now host. found (82 ∷ 82 ∷ []);
  post = λ now url body. answered code;
  urlparse = λ url. some (record { scheme = some https; has_netloc = true; hostname = some 81 });
  lower = λ text. text;
  localhost = 9;
  ip_address =
      λ text. some (record { is_private = false; is_loopback = false; is_link_local = false });
}

event-IsOnTrack : IsOnTrack settings 100 event
unfolding Fits
event-IsOnTrack = (refl, refl, refl)

rounds-IsOnTrack_example :
    IsOnTrack settings 100 (rounds settings (answers_with 503) (100 ∷ 110 ∷ 130 ∷ []) event)
rounds-IsOnTrack_example =
    rounds-IsOnTrack settings (answers_with 503) 100 (100 ∷ 110 ∷ 130 ∷ []) event event-IsOnTrack

-- The event once it is sent.
abbrev sent_event : Event
sent_event = record event { attempts = 1; status = sent; next_attempt_at = none }

goes_through : deliver_outbox_event settings (answers_with 204) 100 event ≡ some sent_event
unfolding deliver_outbox_event after_attempt deliver_payload deliver_export deliver_webhook
    post_result export_to unless_refused validate_webhook_url refuse_parsed refuse_url refuse_scheme
    refuse_host refuse_blocked refuse_found refuse_ips host_ips is_private_ip is_allowlisted
    resolve_host_ips distinct
goes_through = refl

sent_export-IsSafe_example :
    (url : ℕ) × ((payload.target_url or_else settings.export_webhook_url) ≡ some url)
    × IsSafe settings (answers_with 204) 100 url
    × IsAccepted ((answers_with 204).post 100 url payload.payload)
sent_export-IsSafe_example =
    sent_export-IsSafe settings (answers_with 204) 100 event sent_event refl goes_through refl

abbrev outbox : Store
outbox = record { events = event ∷ []; exports = [] }

-- What a round leaves in which the event is sent.
abbrev round : Round
round = record { store = record outbox { events = sent_event ∷ [] }; sent = 1; dead = 0 }

round_gives : process_outbox settings (answers_with 204) 100 (λ id. 100) 50 outbox ≡ some (round, 1)
unfolding process_outbox selected deliver_all turn after_event counted dead_letter update
    set_columns is_due is_past deliver_outbox_event after_attempt deliver_payload deliver_export
    deliver_webhook post_result export_to unless_refused validate_webhook_url refuse_parsed
    refuse_url refuse_scheme refuse_host refuse_blocked refuse_found refuse_ips host_ips
    is_private_ip is_allowlisted resolve_host_ips distinct
round_gives = refl

process_outbox-counts_example :
    (1 ≤ 50) × (length round.store.exports ≡ 0 + round.dead) × (round.sent + round.dead ≤ 1)
process_outbox-counts_example =
    process_outbox-counts settings (answers_with 204) 100 (λ id. 100) 50 outbox round 1 round_gives

-- Where `urlparse` refuses the target, with a second event behind it.
abbrev unreadable : World
unreadable = record (answers_with 204) { urlparse = λ url. none }

abbrev poisoned : Store
poisoned = record {
  events = event ∷ record event { event_id = 2; kind = email; dedupe_key = 8 } ∷ [];
  exports = [];
}

always_raises : RaisesAlways settings unreadable event
unfolding deliver_payload deliver_export export_to unless_refused validate_webhook_url refuse_parsed
always_raises now = refl

abbrev two_jobs : List Job
two_jobs =
    record { now = 100; clock = λ id. 101; limit = 50 }
    ∷ record { now = 200; clock = λ id. 201; limit = 1 }
    ∷ []

all-IsPoisoned : All (IsPoisoned settings unreadable poisoned) two_jobs
unfolding selected is_due is_past
all-IsPoisoned = (
  record {
    event = event;
    before = [];
    behind = record event { event_id = 2; kind = email; dedupe_key = 8 } ∷ [];
    is_selected = refl;
    raises_always = always_raises;
  },
  (
    record {
      event = event;
      before = [];
      behind = [];
      is_selected = refl;
      raises_always = always_raises;
    },
    tt,
  ),
)

raising_event_stops_example :
    ((jobs settings unreadable two_jobs poisoned).0 ≡ poisoned)
    × All (λ (r : Option (Round × ℕ)). r ≡ none) (jobs settings unreadable two_jobs poisoned).1
raising_event_stops_example =
    raising_event_stops settings unreadable two_jobs poisoned all-IsPoisoned

-- A transaction that has written another event under the key 9.
abbrev session : Session
session = record { committed = outbox; written = outbox }

abbrev later_written : Store
later_written = record outbox {
  events =
      event
      ∷ record event { event_id = 2; dedupe_key = 8 }
      ∷ record event { event_id = 4; dedupe_key = 9 }
      ∷ [];
}

found_again :
    find_event 1 8 later_written.events ≡ some (record event { event_id = 2; dedupe_key = 8 })
unfolding find_event
found_again = refl

enqueue_again_discards_example :
    let (first, answer) = enqueue_outbox_event other_dialect 2 101 1 export payload 8 session in
    let later : Session = record { committed = first.written; written = later_written } in
    (a : Event) × (answer ≡ some a)
    × (enqueue_outbox_event other_dialect 3 102 1 email payload 8 later
        ≡ (record { committed = first.written; written = first.written }, some a))
enqueue_again_discards_example =
    enqueue_again_discards 2 3 101 102 1 8 export email payload payload session later_written
      (record event { event_id = 2; dedupe_key = 8 }) found_again
