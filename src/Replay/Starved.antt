-- ===== src/Replay/Starved.antt =====
-- Failed exports that cannot be sent, before all others.
use clean.Base.{
  ℕ, ◌+◌, ◌-◌, ◌≤◌, ◌<◌, ◌≡◌, refl, sym, ap, ◌∙◌, true, false, List, [], ◌∷◌, ◌++◌, Option, none,
  some, length, All, ◌or_else◌, Bool-cases, inl, inr, arith,
}
use clean.Replay.{
  DeadExport, Store, Limits, Environment, Tally, Result, stops, passed_over, replay_events,
  replay_exports, concluded, export_payload_for_event, checked_target, no_tally, is_off,
  selected_events, selected_exports, replay, run_dlq_auto_replay,
}

-- An export that has no payload, or whose URL is missing or refused when it is looked at.
pub record IsUnsendable (env : Environment) (s : Store) (k : ℕ) : Type 0 where
  pub row : DeadExport
  pub is_there : s.exports k ≡ some row
  pub has_no_target :
      checked_target env
        (env.clock k 0)
        (row.export.target_url or_else env.settings.export_webhook_url)
        (export_payload_for_event env row)
      ≡ some none

abbrev pub given_up : Limits → Tally → Tally
given_up l t = record t {
  failed = t.failed + (l.failure_streak_limit - t.failure_streak);
  failure_streak = l.failure_streak_limit;
}

given_up-stopped :
    (l : Limits) (t : Tally) → t.failure_streak ≡ l.failure_streak_limit → given_up l t ≡ t
given_up-stopped l t e =
    let left : t.failed + (l.failure_streak_limit - t.failure_streak) ≡ t.failed =
      omega (arith, e) in
    ap (λ (p : ℕ × ℕ). record t { failed = p.0; failure_streak = p.1 })
      (ap (λ f. (f, l.failure_streak_limit)) left ∙ ap (λ n. (t.failed, n)) (sym e))

given_up-passed_over :
    (l : Limits) (t : Tally)
    → t.failure_streak < l.failure_streak_limit
    → given_up l (passed_over t) ≡ given_up l t
unfolding passed_over
given_up-passed_over l t less =
    let same : t.failed + 1 + (l.failure_streak_limit - (t.failure_streak + 1))
        ≡ t.failed + (l.failure_streak_limit - t.failure_streak) =
      omega (arith, less) in
    ap (λ f. record t { failed = f; failure_streak = l.failure_streak_limit }) same

stopped_at_limit :
    (l : Limits) (t : Tally) → t.failure_streak ≡ l.failure_streak_limit → stops l t ≡ true
unfolding stops
stopped_at_limit l t e = ground arith

stopped_by_streak :
    (l : Limits) (t : Tally)
    → t.processed < l.max_per_org
    → t.failure_streak ≤ l.failure_streak_limit
    → stops l t ≡ true
    → t.failure_streak ≡ l.failure_streak_limit
unfolding stops
stopped_by_streak l t low streak over = ground arith

goes_below :
    (l : Limits) (t : Tally)
    → t.failure_streak ≤ l.failure_streak_limit
    → stops l t ≡ false
    → t.failure_streak < l.failure_streak_limit
unfolding stops
goes_below l t streak goes = ground arith

replay_exports-stopped :
    (l : Limits) (env : Environment) (now : ℕ) (ks : List ℕ) (s : Store) (t : Tally)
    → stops l t ≡ true
    → replay_exports l env now ks s t ≡ some (s, t)
unfolding replay_exports
replay_exports-stopped l env now [] s t over = refl
replay_exports-stopped l env now (k ∷ ks) s t over = rw (replay_exports, over) refl

replay_exports-unsendable :
    (l : Limits) (env : Environment) (now : ℕ) (ks rest : List ℕ) (s : Store) (t : Tally)
    → All (IsUnsendable env s) ks
    → t.processed < l.max_per_org
    → t.failure_streak ≤ l.failure_streak_limit
    → l.failure_streak_limit ≤ t.failure_streak + length ks
    → replay_exports l env now (ks ++ rest) s t ≡ some (s, given_up l t)
unfolding replay_exports passed_over
replay_exports-unsendable l env now [] rest s t all low streak reached =
    let e : t.failure_streak ≡ l.failure_streak_limit = omega (arith, streak, reached) in
    replay_exports-stopped l env now rest s t (stopped_at_limit l t e)
    ∙ ap (λ u. some (s, u)) (sym (given_up-stopped l t e))
replay_exports-unsendable l env now (k ∷ ks) rest s t (here, all) low streak reached =
    elim (Bool-cases (stops l t)) [
      | inl over ↦
          let e = stopped_by_streak l t low streak over in
          replay_exports-stopped l env now (k ∷ (ks ++ rest)) s t over
          ∙ ap (λ u. some (s, u)) (sym (given_up-stopped l t e))
      | inr goes ↦
          let less = goes_below l t streak goes in
          let ih =
            replay_exports-unsendable l env now ks rest s (passed_over t) all low
              (omega (arith, less)) (omega (arith, reached)) in
          let turn : replay_exports l env now (k ∷ (ks ++ rest)) s t
              ≡ replay_exports l env now (ks ++ rest) s (passed_over t) =
            rw (replay_exports, goes, here.is_there, here.has_no_target) refl in
          turn ∙ ih ∙ ap (λ u. some (s, u)) (given_up-passed_over l t less)
    ]

abbrev gave_up : Store → ℕ → Store × Option Result
gave_up s n = (s, some (record { skipped = 0; processed = 0; sent = 0; failed = n }))

run_dlq_auto_replay-unsendable :
    (l : Limits) (env : Environment) (now : ℕ) (s : Store) (ks rest : List ℕ)
    → is_off l ≡ false
    → 1 ≤ l.max_per_org
    → selected_events l now s ≡ []
    → selected_exports l now s ≡ ks ++ rest
    → length ks ≡ l.failure_streak_limit
    → All (IsUnsendable env s) ks
    → run_dlq_auto_replay l env now s ≡ gave_up s l.failure_streak_limit
unfolding run_dlq_auto_replay replay replay_events concluded
run_dlq_auto_replay-unsendable l env now s ks rest on some_tries no_events first enough all =
    let e =
      replay_exports-unsendable l env now ks rest s no_tally all some_tries (omega arith)
        (omega (arith, enough)) in
    let n : 0 + (l.failure_streak_limit - 0) ≡ l.failure_streak_limit = omega arith in
    let gave : replay l env now s ≡ some (s, given_up l no_tally) =
      rw (replay, no_events, replay_events, first) e in
    rw (on, gave) (ap (gave_up s) n)

-- At a run nothing of the outbox is to be replayed, and the oldest exports that are, as many as
-- failures are allowed in a row, cannot be sent.
pub record IsStuck (l : Limits) (env : Environment) (now : ℕ) (s : Store) : Type 0 where
  pub stuck : List ℕ
  pub others : List ℕ
  pub no_events : selected_events l now s ≡ []
  pub come_first : selected_exports l now s ≡ stuck ++ others
  pub as_many : length stuck ≡ l.failure_streak_limit
  pub unsendable : All (IsUnsendable env s) stuck

-- The store after runs at some times, and what each of them gave.
unfoldable pub runs : Limits → List (Environment × ℕ) → Store → Store × List (Option Result)
runs l [] s = (s, [])
runs l ((env, now) ∷ times) s =
    let (s', r) = run_dlq_auto_replay l env now s in
    let (last, rest) = runs l times s' in (last, r ∷ rest)

-- Runs of which each finds, of the rows of the beginning, that nothing of the outbox is to be replayed,
-- and that the oldest exports that are, as many as failures are allowed in a row, cannot be sent: each
-- gives up at them, and sends nothing, also of the exports behind them, and no row ever changes.
pub unsendable_exports_starve :
    (l : Limits) (times : List (Environment × ℕ)) (s : Store)
    → is_off l ≡ false
    → 1 ≤ l.max_per_org
    → All (λ (t : Environment × ℕ). IsStuck l t.0 t.1 s) times
    → ((runs l times s).0 ≡ s)
      × All
          (λ (r : Option Result).
            r
            ≡ some
                (record { skipped = 0; processed = 0; sent = 0; failed = l.failure_streak_limit }))
          (runs l times s).1
unfolding runs
unsendable_exports_starve l [] s on some_tries all = (refl, tt)
unsendable_exports_starve l ((env, now) ∷ times) s on some_tries (h, all) =
    let (same, rest) = unsendable_exports_starve l times s on some_tries all in
    rw
      (run_dlq_auto_replay-unsendable l env now s h.stuck h.others on some_tries h.no_events
        h.come_first h.as_many h.unsendable)
      (same, (refl, rest))
