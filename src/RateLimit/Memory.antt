-- ===== src/RateLimit/Memory.antt =====
-- `InMemoryRateLimiter`. The two dictionaries are functions from keys, so the loop of
-- `_maybe_prune` over all keys acts on each key by itself.
pub mod Window
pub mod Sliding
pub mod Admits
pub mod Bound
use clean.Base.{
  ℕ, ◌+◌, ◌*◌, Bool, true, false, ◌||◌, List, [], ◌∷◌, ◌++◌, Option, none, some, ltb, leb,
  if◌then◌else◌, length, is_empty, empty, put, get_or,
}
unfoldable pub use Window.{minute, drop_old}

pub record Memory : Type 0 where
  pub requests_per_minute : ℕ
  pub cleanup_minutes : ℕ
  pub requests : ℕ → Option (List ℕ)
  pub last_seen : ℕ → Option ℕ
  pub last_prune : ℕ

-- `__init__`
unfoldable pub make : ℕ → ℕ → Memory
make requests_per_minute cleanup_minutes = record {
  requests_per_minute = requests_per_minute;
  cleanup_minutes = cleanup_minutes;
  requests = empty;
  last_seen = empty;
  last_prune = 0;
}

unfoldable pub reset : Memory → Memory
reset m = record m { requests = empty; last_seen = empty; last_prune = 0 }

-- Whether `_maybe_prune` pops a key that `_requests` holds.
pub expired : ℕ → ℕ → Option (List ℕ) → Option ℕ → Bool
expired now cleanup none seen = false
expired now cleanup (some ts) seen = is_empty ts || ltb (get_or seen 0 + cleanup * minute) now

unfoldable pub maybe_prune : ℕ → Memory → Memory
unfolding expired
maybe_prune now m = if ltb now (m.last_prune + minute) then m else record m {
  requests = λ k.
      if expired now m.cleanup_minutes (m.requests k) (m.last_seen k) then none else m.requests k;
  last_seen = λ k.
      if expired now m.cleanup_minutes (m.requests k) (m.last_seen k) then none else m.last_seen k;
  last_prune = now;
}

-- `_requests` is a `defaultdict(deque)`: a missing key reads as an empty deque.
abbrev pub timestamps : ℕ → Memory → List ℕ
timestamps k m = get_or (m.requests k) []

-- The part of `allow` after the pruning.
pub admit : ℕ → ℕ → Memory → Memory × Bool
admit now key m =
    let ts = drop_old now (timestamps key m) in
    if leb m.requests_per_minute (length ts)
    then (record m { requests = put key ts m.requests; last_seen = put key now m.last_seen }, false)
    else (
      record m {
        requests = put key (ts ++ now ∷ []) m.requests;
        last_seen = put key now m.last_seen;
      },
      true,
    )

unfoldable pub allow : ℕ → ℕ → Memory → Memory × Bool
unfolding admit
allow now key m = admit now key (maybe_prune now m)
