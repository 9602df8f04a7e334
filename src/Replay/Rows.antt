-- ===== src/Replay/Rows.antt =====
-- The rows that app/jobs/dlq_auto_replay.py reads and writes, and its settings.
use clean.Base.{ℕ, Bool, Option, List}
use clean.Outbox

-- `OutboxEvent`, with the column that its module leaves out.
pub record DeadEvent : Type 0 where
  pub event : Outbox.Event
  pub created_at : ℕ

-- `ExportEvent`, with the columns of its replays.
pub record DeadExport : Type 0 where
  pub export : Outbox.ExportEvent
  pub mode : ℕ
  pub replay_count : ℕ
  pub last_replayed_at : Option ℕ
  pub is_replayed_by_job : Bool  -- `last_replayed_by == AUTO_REPLAY_ACTOR`
  pub created_at : ℕ

-- Both tables by identifiers, with the identifiers in the order of `created_at`.
pub record Store : Type 0 where
  pub event_ids : List ℕ
  pub events : ℕ → Option DeadEvent
  pub export_ids : List ℕ
  pub exports : ℕ → Option DeadExport

-- The settings `dlq_auto_replay_*`; times in microseconds.
pub record Limits : Type 0 where
  pub enabled : Bool
  pub allow_outbox_kinds : List Outbox.Kind
  pub allow_export_modes : List ℕ
  pub min_age : ℕ
  pub max_per_org : ℕ
  pub failure_streak_limit : ℕ
  pub outbox_attempt_ceiling : ℕ
  pub export_replay_limit : ℕ
  pub export_cooldown : ℕ
  pub export_webhook_max_retries : ℕ

-- The settings and the network of the outbox, the payload of a lead of the organisation, and when the
-- n-th attempt of an event is made.
pub record Environment : Type 0 where
  pub settings : Outbox.Settings
  pub world : Outbox.World
  pub lead_payload : ℕ → Option Outbox.Body
  pub clock : ℕ → ℕ → ℕ

-- The counts of a run.
pub record Tally : Type 0 where
  pub processed : ℕ
  pub sent : ℕ
  pub failed : ℕ
  pub failure_streak : ℕ

pub record Result : Type 0 where
  pub skipped : ℕ
  pub processed : ℕ
  pub sent : ℕ
  pub failed : ℕ
