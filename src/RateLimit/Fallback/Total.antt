-- ===== src/RateLimit/Fallback/Total.antt =====
-- How often the limiter on Redis enters itself.
use clean.Base.{
  ℕ, ◌+◌, ◌≤◌, ◌<◌, ◌≡◌, ◌≢◌, refl, Bool, true, false, Option, none, some, suc, ltb, leb,
  Bool-cases, Option-cases, inl, inr, arith,
}
use clean.RateLimit.Fallback.{
  Evaluated, answered, no_script, failed, World, Limiter, eval_script, enter_fail_open,
  allow_with_fail_open, allow, after_script, after_evalsha,
}

pub record KeepsTimes (l l' : Limiter) : Type 0 where
  pub until : l'.fail_open_until ≡ l.fail_open_until
  pub probe : l'.health_probe_seconds ≡ l.health_probe_seconds
  pub lasting : l'.fail_open_seconds ≡ l.fail_open_seconds
  pub backup : l'.fallback ≡ l.fallback

after_evalsha-KeepsTimes :
    (w : World) (now key : ℕ) (e : Evaluated) (l : Limiter)
    → KeepsTimes l (after_evalsha w now key e l).0
unfolding after_evalsha
after_evalsha-KeepsTimes w now key (answered b) l = ground arith
after_evalsha-KeepsTimes w now key no_script l = ground arith
after_evalsha-KeepsTimes w now key failed l = ground arith

pub eval_script-KeepsTimes :
    (w : World) (now key : ℕ) (l : Limiter) → KeepsTimes l (eval_script w now key l).0
unfolding eval_script
eval_script-KeepsTimes w now key l = ground (
  arith,
  after_evalsha-KeepsTimes w now key (w.evalsha now key) l,
  after_evalsha-KeepsTimes w now key (w.evalsha now key) (record l { has_sha = true }),
)

abbrev pub Caller : Type 0
Caller = ℕ → ℕ → Limiter → Option (Limiter × Bool)

-- Right after the fallback has been entered no probe is due, so `allow` is not entered again.
after_script-answers :
    (w : World) (again : Caller) (now key : ℕ) (p : Limiter × Option Bool)
    → 0 < p.0.health_probe_seconds
    → p.0.fail_open_until ≤ now
    → after_script w again now key p ≢ none
unfolding after_script allow_with_fail_open enter_fail_open
after_script-answers w again now key (l, some b) pos past = ground arith
after_script-answers w again now key (l, none) pos past = ground arith

allow-answers_primary :
    (w : World) (fuel now key : ℕ) (l : Limiter)
    → 0 < l.health_probe_seconds
    → l.fail_open_until ≤ now
    → allow w (suc fuel) now key l ≢ none
unfolding allow
allow-answers_primary w fuel now key l pos past =
    let same = eval_script-KeepsTimes w now key l in
    let test : ltb now l.fail_open_until ≡ false = ground arith in
    rw test (
      after_script-answers w (allow w fuel) now key (eval_script w now key l)
        (omega (arith, same.probe)) (omega (arith, same.until)))

allow_with_fail_open-answers :
    (w : World) (again : Caller) (now key : ℕ) (l : Limiter)
    → ((later : ℕ) (l' : Limiter)
        → l'.health_probe_seconds ≡ l.health_probe_seconds
        → l'.fail_open_until ≡ 0
        → again later key l' ≢ none)
    → allow_with_fail_open w again now key l ≢ none
unfolding allow_with_fail_open
allow_with_fail_open-answers w again now key l recovers =
    elim (Bool-cases (leb (l.last_probe + l.health_probe_seconds) now)) [
      | inl due ↦ elim (Bool-cases (w.ping now)) [
        | inl up ↦ rw (due, up) (recovers _ _ refl refl)
        | inr down ↦ rw (due, down) (λ e. cc)
      ]
      | inr early ↦ rw early (λ e. cc)
    ]

-- Whatever Redis does, `allow` gives an answer, and is entered again once at most: two levels of
-- fuel are enough, with the positive probe interval that `make` sets.
pub allow_total :
    (w : World) (fuel now key : ℕ) (l : Limiter)
    → 0 < l.health_probe_seconds
    → (r : Limiter × Bool) × (allow w (suc (suc fuel)) now key l ≡ some r)
unfolding allow
allow_total w fuel now key l pos = elim (Option-cases (allow w (suc (suc fuel)) now key l)) [
  | inl e ↦ absurd (answers e)
  | inr (r, e) ↦ (r, e)
]
  where
    answers : allow w (suc (suc fuel)) now key l ≢ none
    answers = elim (Bool-cases (ltb now l.fail_open_until)) [
      | inl outage ↦ rw outage (
          allow_with_fail_open-answers w (allow w (suc fuel)) now key l
            (λ later l' p u. allow-answers_primary w fuel later key l' (omega arith) (omega arith)))
      | inr past ↦ allow-answers_primary w (suc fuel) now key l pos (ground arith)
    ]
