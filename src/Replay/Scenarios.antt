-- ===== src/Replay/Scenarios.antt =====
-- Two exports to a host that is not allowed, and a third to one that is.
use clean.Base.{
  ℕ, ◌+◌, ◌≡◌, ◌⊎◌, Option, refl, true, false, List, [], ◌∷◌, none, some, put, empty, All, arith,
}
use clean.Outbox.{
  World, os_error, refuse_parsed, https, answered, failed, validate_webhook_url, refuse_url,
  refuse_scheme, refuse_host, is_allowlisted,
}
use clean.Replay.{
  DeadExport, Store, Limits, Environment, is_off, is_failed_export, export_payload_for_event,
  Result, unless_refused, checked_target, selected_events, selected_exports, run_dlq_auto_replay,
}
use clean.Replay.Tallies.{Ends, run_dlq_auto_replay-within}
use clean.Replay.Starved.{IsUnsendable, IsStuck, runs, unsendable_exports_starve}

abbrev limits : Limits
limits = record {
  enabled = true;
  allow_outbox_kinds = [];
  allow_export_modes = 1 ∷ [];
  min_age = 60;
  max_per_org = 5;
  failure_streak_limit = 2;
  outbox_attempt_ceiling = 7;
  export_replay_limit = 2;
  export_cooldown = 120;
  export_webhook_max_retries = 3;
}

-- A URL is its host.
abbrev world : World
world = record {
  email_adapter = none;
  export_resolver = none;
  getaddrinfo = λ now host. os_error;
  post = λ now url body. answered 200;
  urlparse = λ url. some (record { scheme = some https; has_netloc = true; hostname = some url });
  lower = λ host. host;
  localhost = 0;
  ip_address = λ ip. none;
}

abbrev environment : Environment
environment = record {
  settings = record {
    outbox_max_attempts = 5;
    outbox_base_backoff = 30;
    export_webhook_url = none;
    allow_http = false;
    allowed_hosts = 8 ∷ [];
    is_prod = true;
    block_private_ips = false;
  };
  world = world;
  lead_payload = λ lead. none;
  clock = λ k n. 1000 + n;
}

abbrev to_host : ℕ → DeadExport
to_host host = record {
  export = record {
    lead_id = none;
    payload = some (record { contents = 4; lead_id = none });
    target_url = some host;
    target_url_host = some host;
    attempts = 3;
    last_error_code = some failed;
    org_id = 1;
  };
  mode = 1;
  replay_count = 0;
  last_replayed_at = none;
  is_replayed_by_job = false;
  created_at = 0;
}

abbrev store : Store
store = record {
  event_ids = [];
  events = empty;
  export_ids = 1 ∷ 2 ∷ 3 ∷ [];
  exports = put 1 (to_host 7) (put 2 (to_host 7) (put 3 (to_host 8) empty));
}

run_dlq_auto_replay-within_example :
    ((is_off limits ≡ true)
      × (run_dlq_auto_replay limits environment 1000 store
          ≡ (store, some (record { skipped = 1; processed = 0; sent = 0; failed = 0 }))))
    ⊎ ((is_off limits ≡ false)
        × Ends limits store (run_dlq_auto_replay limits environment 1000 store))
run_dlq_auto_replay-within_example = run_dlq_auto_replay-within limits environment 1000 store

no_events : selected_events limits 1000 store ≡ []
unfolding selected_events
no_events = refl

all_exports : selected_exports limits 1000 store ≡ 1 ∷ 2 ∷ 3 ∷ []
unfolding selected_exports selected_events is_failed_export
all_exports = refl

unsendable : All (IsUnsendable environment store) (1 ∷ 2 ∷ [])
unfolding checked_target export_payload_for_event validate_webhook_url refuse_parsed unless_refused
    refuse_url refuse_scheme refuse_host is_allowlisted
unsendable = (
  record { row = to_host 7; is_there = refl; has_no_target = refl },
  (record { row = to_host 7; is_there = refl; has_no_target = refl }, tt),
)

abbrev times : List (Environment × ℕ)
times = (environment, 1000) ∷ (record environment { clock = λ k n. 2000 + n }, 2000) ∷ []

no_events_later : selected_events limits 2000 store ≡ []
unfolding selected_events
no_events_later = refl

all_exports_later : selected_exports limits 2000 store ≡ 1 ∷ 2 ∷ 3 ∷ []
unfolding selected_exports selected_events is_failed_export
all_exports_later = refl

all-IsStuck : All (λ (t : Environment × ℕ). IsStuck limits t.0 t.1 store) times
unfolding checked_target export_payload_for_event validate_webhook_url refuse_parsed unless_refused
    refuse_url refuse_scheme refuse_host is_allowlisted
all-IsStuck = (
  record {
    stuck = 1 ∷ 2 ∷ [];
    others = 3 ∷ [];
    no_events = no_events;
    come_first = all_exports;
    as_many = refl;
    unsendable = unsendable;
  },
  (
    record {
      stuck = 1 ∷ 2 ∷ [];
      others = 3 ∷ [];
      no_events = no_events_later;
      come_first = all_exports_later;
      as_many = refl;
      unsendable = (
        record { row = to_host 7; is_there = refl; has_no_target = refl },
        (record { row = to_host 7; is_there = refl; has_no_target = refl }, tt),
      );
    },
    tt,
  ),
)

unsendable_exports_starve_example :
    ((runs limits times store).0 ≡ store)
    × All
        (λ (r : Option Result).
          r ≡ some (record { skipped = 0; processed = 0; sent = 0; failed = 2 }))
        (runs limits times store).1
unsendable_exports_starve_example =
    unsendable_exports_starve limits times store refl (omega arith) all-IsStuck
