-- ===== src/Outbox/Retries.antt =====
-- The life of one event through the attempts at its delivery.
use mathlib.Core.Option
use clean.Base.{
  ℕ, ◌+◌, ◌-◌, ◌*◌, ◌^◌, ◌≤◌, ◌<◌, ◌≡◌, refl, true, List, [], ◌∷◌, Option, none, some,
  if◌then◌else◌, leb, is_some, zero, ap, ◌&&◌, arith, Bool-cases, inl, inr, suc, max, get_or,
}
use clean.Outbox.{
  pending, retry, sent, dead, Status, Fault, Settings, World, Event, deliver_outbox_event,
  after_attempt, backoff_delay, is_due, is_past, is_pending_status,
}

-- A round attempts the event if it is due; one that raises is rolled back.
unfoldable pub one_round : Settings → World → ℕ → Event → Event
one_round s w now e = if is_due now e then get_or (deliver_outbox_event s w now e) e else e

-- The event after rounds at some times.
unfoldable pub rounds : Settings → World → List ℕ → Event → Event
rounds s w [] e = e
rounds s w (now ∷ ts) e = rounds s w ts (one_round s w now e)

-- How an event stands that was first due at `t0`.
unfoldable pub Fits : Settings → ℕ → Status → ℕ → Option ℕ → Option Fault → Type 0
Fits s t0 pending attempts next last_error = (attempts ≡ 0) × (next ≡ some t0) × (last_error ≡ none)
Fits s t0 retry attempts next last_error =
    (1 ≤ attempts)
    × (attempts < s.outbox_max_attempts)
    × (is_some last_error ≡ true)
    × (t : ℕ) × (next ≡ some t)
    × (t0 + s.outbox_base_backoff * (2 ^ attempts - 1) ≤ t)
Fits s t0 sent attempts next last_error = (1 ≤ attempts) × (next ≡ none) × (last_error ≡ none)
Fits s t0 dead attempts next last_error =
    (1 ≤ attempts)
    × (s.outbox_max_attempts ≤ attempts)
    × (next ≡ none)
    × (is_some last_error ≡ true)

abbrev pub IsOnTrack : Settings → ℕ → Event → Type 0
IsOnTrack s t0 e = Fits s t0 e.status e.attempts e.next_attempt_at e.last_error

power_pos : (n : ℕ) → 1 ≤ 2 ^ n
power_pos zero = omega arith
power_pos (suc n) = omega (arith, power_pos n)

power_suc : (n : ℕ) → 2 ^ (n + 1) ≡ 2 * 2 ^ n
power_suc n = let e : n + 1 ≡ suc n = omega arith in rw e (omega arith)

power_prev : (n : ℕ) → max 1 (2 ^ max 0 (n + 1 - 1)) ≡ 2 ^ n
power_prev n = let e : max 0 (n + 1 - 1) ≡ n = omega arith in rw e (omega (arith, power_pos n))

double : (b p : ℕ) → 1 ≤ p → b * (p - 1) + b * p ≡ b * (2 * p - 1)
double b zero h = omega arith
double b (suc p) h =
    let e : 2 * suc p - 1 ≡ p + suc p = omega arith in
    let e' : suc p - 1 ≡ p = omega arith in rw (e, e') (omega arith)

backoff_delay-power :
    (s : Settings) (n : ℕ) → backoff_delay s (n + 1) ≡ s.outbox_base_backoff * 2 ^ n
unfolding backoff_delay
backoff_delay-power s n = ap (λ p. s.outbox_base_backoff * p) (power_prev n)

backoff_delay-doubles :
    (s : Settings) (n : ℕ)
    → s.outbox_base_backoff * (2 ^ n - 1) + backoff_delay s (n + 1)
      ≡ s.outbox_base_backoff * (2 ^ (n + 1) - 1)
backoff_delay-doubles s n =
    rw (backoff_delay-power s n, power_suc n) (double s.outbox_base_backoff (2 ^ n) (power_pos n))

-- The time an event that is due has been waiting for.
due_from :
    (s : Settings) (t0 now : ℕ) (a : Status) (n : ℕ) (next : Option ℕ) (f : Option Fault)
    → Fits s t0 a n next f
    → is_pending_status a && is_past now next ≡ true
    → t0 + s.outbox_base_backoff * (2 ^ n - 1) ≤ now
unfolding is_past Fits
due_from s t0 now pending n next f (v, w, _) d =
    let t : leb t0 now ≡ true = rw w at d in rw v (ground arith)
due_from s t0 now retry n next f (_, _, _, t, w, h) d =
    let t' : leb t now ≡ true = rw w at d in ground arith
due_from s t0 now sent n next f v d = cc
due_from s t0 now dead n next f v d = cc

after_attempt-IsOnTrack :
    (s : Settings) (t0 now : ℕ) (r : Option Fault) (e : Event)
    → t0 + s.outbox_base_backoff * (2 ^ e.attempts - 1) ≤ now
    → IsOnTrack s t0 (after_attempt s now r e)
unfolding after_attempt Fits
after_attempt-IsOnTrack s t0 now none e d = (omega arith, refl, refl)
after_attempt-IsOnTrack s t0 now (some r) e d =
    elim (Bool-cases (leb s.outbox_max_attempts (e.attempts + 1))) [
      | inl p ↦ rw p (omega arith, ground arith, refl, refl)
      | inr p ↦ rw p (
        omega arith,
        ground arith,
        refl,
        now + backoff_delay s (e.attempts + 1),
        refl,
        omega (arith, backoff_delay-doubles s e.attempts),
      )
    ]

delivered-IsOnTrack :
    (s : Settings) (t0 now : ℕ) (o : Option (Option Fault)) (e : Event)
    → t0 + s.outbox_base_backoff * (2 ^ e.attempts - 1) ≤ now
    → IsOnTrack s t0 e
    → IsOnTrack s t0 (get_or (Option.map (λ r. after_attempt s now r e) o) e)
delivered-IsOnTrack s t0 now none e d v = v
delivered-IsOnTrack s t0 now (some r) e d v = after_attempt-IsOnTrack s t0 now r e d

one_round-IsOnTrack :
    (s : Settings) (w : World) (t0 now : ℕ) (e : Event)
    → IsOnTrack s t0 e
    → IsOnTrack s t0 (one_round s w now e)
unfolding one_round deliver_outbox_event is_due
one_round-IsOnTrack s w t0 now e v = elim (Bool-cases (is_due now e)) [
  | inl p ↦ rw p (delivered-IsOnTrack s t0 now _ e (due_from s t0 now _ _ _ _ v p) v)
  | inr p ↦ rw p v
]

-- Whatever the rounds' times and whatever the network answers, also where an attempt raises and its
-- round is rolled back, an event first due at `t0` stays on track: after `n` failed attempts it waits until at least `t0` and 2 ^ n - 1 base delays, it waits
-- again only after fewer attempts than the maximum, it is dead only after the maximum, with the last
-- error kept, and a sent one keeps neither an error nor a time.
pub rounds-IsOnTrack :
    (s : Settings) (w : World) (t0 : ℕ) (ts : List ℕ) (e : Event)
    → IsOnTrack s t0 e
    → IsOnTrack s t0 (rounds s w ts e)
unfolding rounds
rounds-IsOnTrack s w t0 [] e v = v
rounds-IsOnTrack s w t0 (now ∷ ts) e v =
    rounds-IsOnTrack s w t0 ts (one_round s w now e) (one_round-IsOnTrack s w t0 now e v)
