-- ===== src/RateLimit/Fallback.antt =====
-- `RedisRateLimiter`: the calls of the Redis server, which is not part of the repository, are the
-- fields of `World`; `none` and `failed` stand for a `RedisError`. A `World` also reads the clocks.
pub mod Total
pub mod Outage
use clean.Base.{
  ℕ, ◌+◌, ◌*◌, Bool, true, false, Option, none, some, max, zero, suc, ltb, leb, if◌then◌else◌,
}
use clean.RateLimit.Memory
use clean.RateLimit.Memory.{Memory}

-- The outcomes of `evalsha`: an answer, a `ResponseError` that names NOSCRIPT, any other error.
pub data Evaluated : Type 0 where
  answered : Bool → Evaluated
  no_script failed : Evaluated

pub record World : Type 0 where
  pub script_load : ℕ → Bool
  pub evalsha : ℕ → ℕ → Evaluated
  pub eval : ℕ → ℕ → Option Bool
  pub ping : ℕ → Bool
  pub wall_clock : ℕ → ℕ  -- `time.time()` at a time of the monotonic clock
  pub next_reading : ℕ → ℕ  -- the monotonic clock when `allow` is entered again

pub record Limiter : Type 0 where
  pub has_sha : Bool  -- `_script_sha` is set
  pub fail_open_seconds : ℕ
  pub health_probe_seconds : ℕ
  pub fallback : Memory
  pub fail_open_until : ℕ
  pub last_probe : ℕ

-- `__init__`, the two times in microseconds.
unfoldable pub make : ℕ → ℕ → ℕ → ℕ → Limiter
make requests_per_minute cleanup_minutes fail_open_seconds health_probe_seconds = record {
  has_sha = false;
  fail_open_seconds = max 1_000_000 fail_open_seconds;
  health_probe_seconds = max 500_000 health_probe_seconds;
  fallback = Memory.make requests_per_minute cleanup_minutes;
  fail_open_until = 0;
  last_probe = 0;
}

-- `_eval_script` after `evalsha`: the script is sent again if the server does not know it.
after_evalsha : World → ℕ → ℕ → Evaluated → Limiter → Limiter × Option Bool
after_evalsha w now key (answered b) l = (l, some b)
after_evalsha w now key failed l = (l, none)
after_evalsha w now key no_script l = elim (w.eval now key) [
  | none ↦ (l, none)
  | some b ↦ (record l { has_sha = if w.script_load now then true else l.has_sha }, some b)
]

-- `_eval_script`
unfoldable pub eval_script : World → ℕ → ℕ → Limiter → Limiter × Option Bool
unfolding after_evalsha
eval_script w now key l =
    if l.has_sha
    then after_evalsha w now key (w.evalsha now key) l
    else if w.script_load now
    then after_evalsha w now key (w.evalsha now key) (record l { has_sha = true })
    else (l, none)

-- `_enter_fail_open`
pub enter_fail_open : ℕ → Limiter → Limiter
enter_fail_open now l = if ltb now l.fail_open_until then l else record l {
  fail_open_until = now + l.fail_open_seconds;
  last_probe = now;
  fallback = Memory.reset l.fallback;
}

-- `self._fallback.allow(key)`
pub ask_fallback : World → ℕ → ℕ → Limiter → Limiter × Bool
ask_fallback w now key l =
    let (m, answer) = Memory.allow (w.wall_clock now) key l.fallback in
    (record l { fallback = m }, answer)

-- `_allow_with_fail_open`; `again` is the call of `self.allow(key)` that it ends with on recovery.
pub allow_with_fail_open :
    World → (ℕ → ℕ → Limiter → Option (Limiter × Bool)) → ℕ → ℕ → Limiter → Option (Limiter × Bool)
allow_with_fail_open w again now key l =
    if leb (l.last_probe + l.health_probe_seconds) now
    then if w.ping now
      then again (w.next_reading now) key
          (record l { last_probe = now; fail_open_until = 0; fallback = Memory.reset l.fallback })
      else some (ask_fallback w now key (record l { last_probe = now }))
    else some (ask_fallback w now key l)

-- The end of `allow`, by what the script gave.
after_script :
    World
    → (ℕ → ℕ → Limiter → Option (Limiter × Bool))
    → ℕ
    → ℕ
    → Limiter × Option Bool
    → Option (Limiter × Bool)
after_script w again now key (l, some b) = some (l, b)
after_script w again now key (l, none) =
    allow_with_fail_open w again now key (enter_fail_open now l)

-- `allow`. The fuel bounds how often it is entered again; without any left there is no answer.
pub allow : World → ℕ → ℕ → ℕ → Limiter → Option (Limiter × Bool)
unfolding after_script
allow w zero now key l = none
allow w (suc fuel) now key l =
    if ltb now l.fail_open_until
    then allow_with_fail_open w (allow w fuel) now key l
    else after_script w (allow w fuel) now key (eval_script w now key l)
