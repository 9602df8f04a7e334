-- ===== src/Replay/Tallies.antt =====
-- The counts of a run of app/jobs/dlq_auto_replay.py.
use clean.Base.{
  ℕ, suc, ◌+◌, ◌-◌, ◌≤◌, ◌≡◌, ◌⊎◌, refl, Bool, true, false, List, [], ◌∷◌, length, length-take-le,
  Option, none, some, ap, keep, ◌or_else◌, Option-cases, Bool-cases, inl, inr, arith,
}
use mathlib.Core.Path.{subst}
use mathlib.Core.Option.{some-injective}
use clean.Outbox.{Body, deliver_outbox_event}
use clean.Replay.{
  Result, result_of, concluded, Store, Limits, Environment, Tally, stops, tallied, passed_over,
  replay_events, replay_exports, export_payload_for_event, checked_target, no_tally, is_off,
  is_dead_event, is_failed_export, selected_events, selected_exports, replay, run_dlq_auto_replay,
}

-- How the counts grow over `n` rows: by no more than one for each, and never past the streak's limit.
pub record Counted (l : Limits) (n : ℕ) (t t' : Tally) : Type 0 where
  pub each_once : t'.sent + t'.failed ≤ t.sent + t.failed + n
  pub all_counted : t.processed ≤ t.sent + t.failed → t'.processed ≤ t'.sent + t'.failed
  pub sent_processed : t.sent ≤ t.processed → t'.sent ≤ t'.processed
  pub streak_within :
      t.failure_streak ≤ l.failure_streak_limit → t'.failure_streak ≤ l.failure_streak_limit

same-Counted : (l : Limits) (n : ℕ) (t : Tally) → Counted l n t t
same-Counted l n t = record {
  each_once = omega arith;
  all_counted = λ h. h;
  sent_processed = λ h. h;
  streak_within = λ h. h;
}

-- A loop that has ended counts nothing more.
ended-Counted :
    (l : Limits) (n : ℕ) (s s' : Store) (t t' : Tally)
    → ◌≡◌ {A = Option (Store × Tally)} (some (s, t)) (some (s', t'))
    → Counted l n t t'
ended-Counted l n s s' t t' e =
    let same = ap (λ (p : Store × Tally). p.1) (some-injective (s, t) (s', t') e) in
    subst (Counted l n t) same (same-Counted l n t)

later-Counted : (l : Limits) (n : ℕ) (t t' : Tally) → Counted l n t t' → Counted l (suc n) t t'
later-Counted l n t t' c = record {
  each_once = omega (arith, c.each_once);
  all_counted = c.all_counted;
  sent_processed = c.sent_processed;
  streak_within = c.streak_within;
}

tallied-Counted :
    (l : Limits) (n : ℕ) (b : Bool) (t t' : Tally)
    → stops l t ≡ false
    → Counted l n (tallied b t) t'
    → Counted l (suc n) t t'
unfolding tallied stops
tallied-Counted l n true t t' goes c = record {
  each_once = omega (arith, c.each_once);
  all_counted = λ h. c.all_counted (omega (arith, h));
  sent_processed = λ h. c.sent_processed (omega (arith, h));
  streak_within = λ h. c.streak_within (omega arith);
}
tallied-Counted l n false t t' goes c = record {
  each_once = omega (arith, c.each_once);
  all_counted = λ h. c.all_counted (omega (arith, h));
  sent_processed = λ h. c.sent_processed (omega (arith, h));
  streak_within = λ h. c.streak_within (ground arith);
}

passed_over-Counted :
    (l : Limits) (n : ℕ) (t t' : Tally)
    → stops l t ≡ false
    → Counted l n (passed_over t) t'
    → Counted l (suc n) t t'
unfolding passed_over stops
passed_over-Counted l n t t' goes c = record {
  each_once = omega (arith, c.each_once);
  all_counted = λ h. c.all_counted (omega (arith, h));
  sent_processed = c.sent_processed;
  streak_within = λ h. c.streak_within (ground arith);
}

replay_events-Counted :
    (l : Limits) (env : Environment) (ks : List ℕ) (s s' : Store) (t t' : Tally)
    → replay_events l env ks s t ≡ some (s', t')
    → Counted l (length ks) t t'
unfolding replay_events
replay_events-Counted l env [] s s' t t' went = ended-Counted l 0 s s' t t' went
replay_events-Counted l env (k ∷ ks) s s' t t' went = elim (Bool-cases (stops l t)) [
  | inl over ↦ ended-Counted l (suc (length ks)) s s' t t' (rw (replay_events, over) at went)
  | inr goes ↦ elim (Option-cases (s.events k)) [
    | inl absent ↦
        later-Counted l (length ks) t t'
          (replay_events-Counted l env ks s s' t t' (rw (replay_events, goes, absent) at went))
    | inr (x, there) ↦
        elim (Option-cases (deliver_outbox_event env.settings env.world (env.clock k 1) x.event)) [
          | inl raised ↦
              let clash : none ≡ some (s', t') = rw (replay_events, goes, there, raised) at went in
              cc clash
          | inr (e, attempted) ↦ tallied-Counted l (length ks) _ t t' goes (
              replay_events-Counted l env ks _ s' _ t'
                (rw (replay_events, goes, there, attempted) at went))
        ]
  ]
]

-- What the check of a target gives.
target_cases :
    (o : Option (Option (ℕ × Body)))
    → (o ≡ none) ⊎ ((o ≡ some none) ⊎ ((p : ℕ × Body) × (o ≡ some (some p))))
target_cases none = inl refl
target_cases (some none) = inr (inl refl)
target_cases (some (some p)) = inr (inr (p, refl))

replay_exports-Counted :
    (l : Limits) (env : Environment) (now : ℕ) (ks : List ℕ) (s s' : Store) (t t' : Tally)
    → replay_exports l env now ks s t ≡ some (s', t')
    → Counted l (length ks) t t'
unfolding replay_exports
replay_exports-Counted l env now [] s s' t t' went = ended-Counted l 0 s s' t t' went
replay_exports-Counted l env now (k ∷ ks) s s' t t' went = elim (Bool-cases (stops l t)) [
  | inl over ↦ ended-Counted l (suc (length ks)) s s' t t' (rw (replay_exports, over) at went)
  | inr goes ↦ elim (Option-cases (s.exports k)) [
    | inl absent ↦
        later-Counted l (length ks) t t' (
          replay_exports-Counted l env now ks s s' t t' (rw (replay_exports, goes, absent) at went))
    | inr (x, there) ↦
        elim (target_cases (
          checked_target env (env.clock k 0)
            (x.export.target_url or_else env.settings.export_webhook_url)
            (export_payload_for_event env x))) [
              | inl raised ↦
                  let clash : none ≡ some (s', t') =
                    rw (replay_exports, goes, there, raised) at went in
                  cc clash
              | inr (inl nowhere) ↦ passed_over-Counted l (length ks) t t' goes (
                  replay_exports-Counted l env now ks s s' _ t'
                    (rw (replay_exports, goes, there, nowhere) at went))
              | inr (inr ((url, body), target)) ↦ elim (Option-cases (env.world.urlparse url)) [
                | inl unparsed ↦
                    let clash : none ≡ some (s', t') =
                      rw (replay_exports, goes, there, target, unparsed) at went in
                    cc clash
                | inr (u, parsed) ↦ tallied-Counted l (length ks) _ t t' goes (
                    replay_exports-Counted l env now ks _ s' _ t'
                      (rw (replay_exports, goes, there, target, parsed) at went))
              ]
            ]
  ]
]

replay-Counted :
    (l : Limits) (env : Environment) (now : ℕ) (s s' : Store) (t : Tally)
    → replay l env now s ≡ some (s', t)
    → (t.sent ≤ t.processed)
      × (t.processed ≤ t.sent + t.failed)
      × (t.sent + t.failed ≤ l.max_per_org)
      × (t.failure_streak ≤ l.failure_streak_limit)
unfolding replay selected_events selected_exports
replay-Counted l env now s s' t went =
    let es = selected_events l now s in
    let xs = selected_exports l now s in
    elim (Option-cases (replay_events l env es s no_tally)) [
      | inl raised ↦ let clash : none ≡ some (s', t) = rw (replay, raised) at went in cc clash
      | inr ((s1, t1), first) ↦
          let a = replay_events-Counted l env es s s1 no_tally t1 first in
          let b = replay_exports-Counted l env now xs s1 s' t1 t (rw (replay, first) at went) in
          let short : length es ≤ l.max_per_org =
            length-take-le l.max_per_org
              (keep (λ k. is_dead_event l now (s.events k)) s.event_ids) in
          let rest : length xs ≤ l.max_per_org - length es =
            length-take-le (l.max_per_org - length es)
              (keep (λ k. is_failed_export l now (s.exports k)) s.export_ids) in
          (
            b.sent_processed (a.sent_processed (omega arith)),
            b.all_counted (a.all_counted (omega arith)),
            omega (arith, a.each_once, b.each_once, short, rest),
            b.streak_within (a.streak_within (omega arith)),
          )
    ]

-- How a run of a job ends that is on: with these bounds of the counts, or raising, with no change.
pub data Ends (l : Limits) (s : Store) : Store × Option Result → Type 0 where
  raising : Ends l s (s, none)
  counting :
      (s' : Store) (r : Result)
      → r.sent ≤ r.processed
      → r.processed ≤ r.sent + r.failed
      → r.sent + r.failed ≤ l.max_per_org
      → r.skipped ≡ 0
      → Ends l s (s', some r)

concluded-Ends :
    (l : Limits) (env : Environment) (now : ℕ) (s : Store) (o : Option (Store × Tally))
    → replay l env now s ≡ o
    → Ends l s (concluded s o)
unfolding concluded
concluded-Ends l env now s none h = raising
concluded-Ends l env now s (some (s', t)) h =
    let (a, b, c, _) = replay-Counted l env now s s' t h in counting s' (result_of t) a b c refl

-- A run counts at most as many successes and failures as an organisation may have tries; every row
-- that it processed is one of them, and every success was processed; or it raises, and changes
-- nothing. A job that is off, or allows neither kinds nor modes, changes nothing, and says that it was
-- skipped.
pub run_dlq_auto_replay-within :
    (l : Limits) (env : Environment) (now : ℕ) (s : Store)
    → ((is_off l ≡ true)
        × (run_dlq_auto_replay l env now s
            ≡ (s, some (record { skipped = 1; processed = 0; sent = 0; failed = 0 }))))
      ⊎ ((is_off l ≡ false) × Ends l s (run_dlq_auto_replay l env now s))
unfolding run_dlq_auto_replay
run_dlq_auto_replay-within l env now s = elim (Bool-cases (is_off l)) [
  | inl off ↦ rw off (inl (refl, refl))
  | inr on ↦ rw on (inr (refl, concluded-Ends l env now s (replay l env now s) refl))
]
