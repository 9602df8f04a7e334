-- ===== src/Outbox/Rows.antt =====
-- The rows of app/domain/outbox and app/domain/export_events, the settings that the service reads,
-- and what it calls. Times are whole microseconds. Strings, identifiers and the contents of a
-- payload are numbers; a field of a payload that is missing or empty, which the code does not tell
-- apart, is `none`.
use clean.Base.{ℕ, Bool, Option, List}

pub data Status : Type 0 where
  pending retry sent dead : Status

pub data Kind : Type 0 where
  email webhook export : Kind
  other : ℕ → Kind

-- The reasons of `validate_webhook_url`.
pub data Refusal : Type 0 where
  invalid_url http_not_allowed unsupported_scheme missing_host host_not_allowlisted : Refusal
  allowlist_required private_ip_blocked dns_lookup_failed : Refusal

pub data Fault : Type 0 where
  missing_payload send_failed missing_url unknown_kind failed : Fault
  http_status : ℕ → Fault
  raised : ℕ → Fault
  refused : Refusal → Fault

-- The `payload` of a payload: what is posted.
pub record Body : Type 0 where
  pub contents : ℕ
  pub lead_id : Option ℕ

pub record Payload : Type 0 where
  pub recipient : Option ℕ
  pub subject : Option ℕ
  pub body : Option ℕ
  pub headers : Option ℕ
  pub url : Option ℕ
  pub target_url : Option ℕ
  pub payload : Option Body

-- `OutboxEvent`
pub record Event : Type 0 where
  pub event_id : ℕ
  pub org_id : ℕ
  pub kind : Kind
  pub payload_json : Payload
  pub dedupe_key : ℕ
  pub status : Status
  pub attempts : ℕ
  pub next_attempt_at : Option ℕ
  pub last_error : Option Fault

-- `ExportEvent`, whose mode is always `webhook`.
pub record ExportEvent : Type 0 where
  pub lead_id : Option ℕ
  pub payload : Option Body
  pub target_url : Option ℕ
  pub target_url_host : Option ℕ
  pub attempts : ℕ
  pub last_error_code : Option Fault
  pub org_id : ℕ

-- The outbox in the order of `created_at`, and the dead letters of exports.
pub record Store : Type 0 where
  pub events : List Event
  pub exports : List ExportEvent

pub record Settings : Type 0 where
  pub outbox_max_attempts : ℕ
  pub outbox_base_backoff : ℕ
  pub export_webhook_url : Option ℕ
  pub allow_http : Bool
  pub allowed_hosts : List ℕ
  pub is_prod : Bool
  pub block_private_ips : Bool

pub data Scheme : Type 0 where
  http https other_scheme : Scheme

-- What `urlparse` gives; the scheme in lower case.
pub record Url : Type 0 where
  pub scheme : Option Scheme
  pub has_netloc : Bool
  pub hostname : Option ℕ

pub record Address : Type 0 where
  pub is_private : Bool
  pub is_loopback : Bool
  pub is_link_local : Bool

-- What `getaddrinfo` gives: addresses, an `OSError`, or another exception, as the `UnicodeError` of a
-- host that is no name.
pub data Lookup : Type 0 where
  found : List ℕ → Lookup
  os_error uncaught : Lookup

pub data Posted : Type 0 where
  answered : ℕ → Posted
  raises : ℕ → Posted

-- What the service is given and calls: `send_email` of the adapter, the resolver, `urlparse` and
-- `ip_address`, which give nothing where they raise, and the network, whose calls take the time.
pub record World : Type 0 where
  pub email_adapter : Option (ℕ → ℕ → ℕ → ℕ → Option ℕ → Option Bool)
  pub export_resolver : Option (ℕ → Option (List ℕ))
  pub getaddrinfo : ℕ → ℕ → Lookup
  pub post : ℕ → ℕ → Option Body → Posted
  pub urlparse : ℕ → Option Url
  pub lower : ℕ → ℕ
  pub localhost : ℕ
  pub ip_address : ℕ → Option Address
