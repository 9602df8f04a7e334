-- ===== src/Replay/Loops.antt =====
-- `run_dlq_auto_replay` of app/jobs/dlq_auto_replay.py, with `send_export_with_retry` of
-- app/infra/export.py. Metrics and the audit log are left out.
use clean.Base.{
  ℕ, zero, suc, ◌+◌, ◌-◌, Bool, true, false, not, ◌&&◌, ◌||◌, List, [], ◌∷◌, Option, none, some,
  ltb, leb, ◌==◌, if◌then◌else◌, put, any, keep, take, length, is_empty, is_some, get_or, ◌or_else◌,
}
use clean.Outbox
use clean.Outbox.{
  Kind, email, webhook, export, other, Fault, failed, Posted, answered, raises, Body, is_sent,
  is_dead, Refusal, Url, deliver_outbox_event, validate_webhook_url,
}
use clean.Replay.Rows.{DeadEvent, DeadExport, Store, Limits, Environment, Tally, Result}

abbrev same_kind : Kind → Kind → Bool
same_kind email email = true
same_kind webhook webhook = true
same_kind export export = true
same_kind (other a) (other b) = a == b
same_kind _ _ = false

-- The outcome of `send_export_with_retry`: whether it went through, after how many attempts, and the
-- last error; none is `"unknown"`, or the empty text after a success.
pub record Sending : Type 0 where
  pub success : Bool
  pub attempts : ℕ
  pub last_error : Option Fault

abbrev fault_of : Posted → Option Fault
fault_of (answered code) =
    if leb 200 code && ltb code 300 then none else some (Outbox.http_status code)
fault_of (raises e) = some (Outbox.raised e)

-- The loop of `send_export_with_retry`, with the attempts that are left.
unfoldable pub send_from : (ℕ → Posted) → ℕ → ℕ → Option Fault → Sending
send_from post zero attempt last = record { success = false; attempts = attempt; last_error = last }
send_from post (suc left) attempt last = elim (fault_of (post (attempt + 1))) [
  | none ↦ record { success = true; attempts = attempt + 1; last_error = none }
  | some e ↦ send_from post left (attempt + 1) (some e)
]

-- `send_export_with_retry`
unfoldable pub send_export_with_retry : Limits → (ℕ → Posted) → Sending
send_export_with_retry l post = send_from post l.export_webhook_max_retries 0 none

-- `created_at <= cutoff`
abbrev is_old : Limits → ℕ → ℕ → Bool
is_old l now created_at = leb (created_at + l.min_age) now

-- The condition of the query for events.
unfoldable pub is_dead_event : Limits → ℕ → Option DeadEvent → Bool
is_dead_event l now none = false
is_dead_event l now (some x) =
    is_dead x.event.status
    && any (same_kind x.event.kind) l.allow_outbox_kinds
    && is_old l now x.created_at
    && ltb x.event.attempts l.outbox_attempt_ceiling

abbrev is_cool : Limits → ℕ → Option ℕ → Bool
is_cool l now none = true
is_cool l now (some t) = leb (t + l.export_cooldown) now

-- The condition of the query for exports.
unfoldable pub is_failed_export : Limits → ℕ → Option DeadExport → Bool
is_failed_export l now none = false
is_failed_export l now (some x) =
    is_some x.export.last_error_code
    && is_old l now x.created_at
    && any (λ m. m == x.mode) l.allow_export_modes
    && ltb x.replay_count l.export_replay_limit
    && is_cool l now x.last_replayed_at

-- Where the loops break.
unfoldable pub stops : Limits → Tally → Bool
stops l t = leb l.max_per_org t.processed || leb l.failure_streak_limit t.failure_streak

unfoldable pub tallied : Bool → Tally → Tally
tallied true t = record {
  processed = t.processed + 1;
  sent = t.sent + 1;
  failed = t.failed;
  failure_streak = 0;
}
tallied false t = record {
  processed = t.processed + 1;
  sent = t.sent;
  failed = t.failed + 1;
  failure_streak = t.failure_streak + 1;
}

-- The loop over events; it gives nothing where an attempt raises.
unfoldable pub replay_events :
    Limits → Environment → List ℕ → Store → Tally → Option (Store × Tally)
replay_events l env [] s t = some (s, t)
replay_events l env (k ∷ ks) s t = elim (stops l t) [
  | true ↦ some (s, t)
  | false ↦ elim (s.events k) [
    | none ↦ replay_events l env ks s t
    | some x ↦ elim (deliver_outbox_event env.settings env.world (env.clock k 1) x.event) [
      | none ↦ none
      | some e ↦
          replay_events l env ks (record s { events = put k (record x { event = e }) s.events })
            (tallied (is_sent e.status) t)
    ]
  ]
]

-- `_export_payload_for_event`; an empty payload is none.
unfoldable pub export_payload_for_event : Environment → DeadExport → Option Body
export_payload_for_event env x =
    x.export.payload
    or_else (elim x.export.lead_id [ none ↦ none | some lead ↦ env.lead_payload lead ])

unfoldable pub unless_refused : ℕ → Body → Option (Option Refusal) → Option (Option (ℕ × Body))
unless_refused url body none = none
unless_refused url body (some none) = some (some (url, body))
unless_refused url body (some (some r)) = some none

-- What is posted and where to: `some none` if there is no payload, no URL, or the URL is refused, and
-- `none` if the check of the URL raises.
unfoldable pub checked_target :
    Environment → ℕ → Option ℕ → Option Body → Option (Option (ℕ × Body))
unfolding unless_refused
checked_target env now (some url) (some body) =
    unless_refused url body (validate_webhook_url env.settings env.world now url)
checked_target env now _ _ = some none

-- An export that is passed over counts as failed, and its row stays as it was.
unfoldable pub passed_over : Tally → Tally
passed_over t = record t { failed = t.failed + 1; failure_streak = t.failure_streak + 1 }

-- The row of an export after it was sent to the parsed URL.
unfoldable pub replayed : ℕ → ℕ → Url → Body → Sending → DeadExport → DeadExport
replayed now url parsed body r x = record x {
  export = record x.export {
    payload = some body;
    target_url = some url;
    target_url_host = parsed.hostname;
    attempts = r.attempts;
    last_error_code = if r.success then none else some (get_or r.last_error failed);
  };
  replay_count = x.replay_count + 1;
  last_replayed_at = some now;
  is_replayed_by_job = true;
}

-- The loop over exports; `now` is when a row is written. It gives nothing where a URL raises.
unfoldable pub replay_exports :
    Limits → Environment → ℕ → List ℕ → Store → Tally → Option (Store × Tally)
replay_exports l env now [] s t = some (s, t)
replay_exports l env now (k ∷ ks) s t = elim (stops l t) [
  | true ↦ some (s, t)
  | false ↦ elim (s.exports k) [
    | none ↦ replay_exports l env now ks s t
    | some x ↦
        elim (checked_target env (env.clock k 0)
          (x.export.target_url or_else env.settings.export_webhook_url)
          (export_payload_for_event env x)) [
            | none ↦ none
            | some none ↦ replay_exports l env now ks s (passed_over t)
            | some (some (url, body)) ↦
                let r =
                  send_export_with_retry l (λ n. env.world.post (env.clock k n) url (some body)) in
                elim (env.world.urlparse url) [
                  | none ↦ none
                  | some parsed ↦
                      replay_exports l env now ks
                        (record s { exports = put k (replayed now url parsed body r x) s.exports })
                        (tallied r.success t)
                ]
          ]
  ]
]

abbrev pub no_tally : Tally
no_tally = record { processed = 0; sent = 0; failed = 0; failure_streak = 0 }

abbrev pub result_of : Tally → Result
result_of t = record { skipped = 0; processed = t.processed; sent = t.sent; failed = t.failed }

unfoldable pub selected_events : Limits → ℕ → Store → List ℕ
selected_events l now s =
    take l.max_per_org (keep (λ k. is_dead_event l now (s.events k)) s.event_ids)

unfoldable pub selected_exports : Limits → ℕ → Store → List ℕ
selected_exports l now s =
    take (l.max_per_org - length (selected_events l now s))
      (keep (λ k. is_failed_export l now (s.exports k)) s.export_ids)

unfoldable pub replay : Limits → Environment → ℕ → Store → Option (Store × Tally)
replay l env now s = elim (replay_events l env (selected_events l now s) s no_tally) [
  | none ↦ none
  | some (s', t) ↦ replay_exports l env now (selected_exports l now s) s' t
]

abbrev pub is_off : Limits → Bool
is_off l = not l.enabled || (is_empty l.allow_outbox_kinds && is_empty l.allow_export_modes)

-- What a run leaves, and its result; one that raises is rolled back, and has none.
unfoldable pub concluded : Store → Option (Store × Tally) → Store × Option Result
concluded s none = (s, none)
concluded s (some (s', t)) = (s', some (result_of t))

-- `run_dlq_auto_replay`
unfoldable pub run_dlq_auto_replay : Limits → Environment → ℕ → Store → Store × Option Result
unfolding concluded
run_dlq_auto_replay l env now s =
    if is_off l
    then (s, some (record { skipped = 1; processed = 0; sent = 0; failed = 0 }))
    else concluded s (replay l env now s)
