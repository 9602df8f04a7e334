-- ===== src/RateLimit/Fallback/Outage.antt =====
-- What the limiter on Redis answers while Redis is away.
use clean.Base.{
  ℕ, ◌+◌, ◌≤◌, ◌<◌, ◌≡◌, refl, Bool, false, Option, none, some, suc, ltb, leb, ap, if◌then◌else◌,
  arith, List, [], ◌∷◌, ◌∙◌,
}
use clean.RateLimit.Memory
use clean.RateLimit.Memory.{Memory}
use clean.RateLimit.Memory.Admits
use clean.RateLimit.Fallback.{
  World, Limiter, eval_script, enter_fail_open, ask_fallback, allow_with_fail_open, allow,
  after_script,
}
use clean.RateLimit.Fallback.Total.{Caller, eval_script-KeepsTimes}

push : Bool → Option (Limiter × List Bool) → Option (Limiter × List Bool)
push answer none = none
push answer (some (l, answers)) = some (l, answer ∷ answers)

go_on :
    (Limiter → Option (Limiter × List Bool))
    → Option (Limiter × Bool)
    → Option (Limiter × List Bool)
unfolding push
go_on rest none = none
go_on rest (some (l, answer)) = push answer (rest l)

-- Requests one after another, each a time and a key; two levels of fuel are enough.
unfoldable pub run : World → List (ℕ × ℕ) → Limiter → Option (Limiter × List Bool)
unfolding go_on
run w [] l = some (l, [])
run w ((now, key) ∷ rs) l = go_on (run w rs) (allow w 2 now key l)

run-cons :
    (w : World) (now key : ℕ) (rs : List (ℕ × ℕ)) (l l' l'' : Limiter) (a : Bool) (as' : List Bool)
    → allow w 2 now key l ≡ some (l', a)
    → run w rs l' ≡ some (l'', as')
    → run w ((now, key) ∷ rs) l ≡ some (l'', a ∷ as')
unfolding run
run-cons w now key rs l l' l'' a as' e f = ap (go_on (run w rs)) e ∙ ap (push a) f

-- Every request comes before `until`, and no probe at its time reaches Redis.
abbrev pub IsAway : World → ℕ → List (ℕ × ℕ) → Type 0
IsAway w until [] = Unit
IsAway w until ((now, key) ∷ rs) = (now < until) × (w.ping now ≡ false) × IsAway w until rs

-- The requests as the in-memory limiter sees them, by the wall clock.
abbrev pub on_wall : World → List (ℕ × ℕ) → List (ℕ × ℕ)
on_wall w [] = []
on_wall w ((now, key) ∷ rs) = (w.wall_clock now, key) ∷ on_wall w rs

probed : ℕ → Limiter → Limiter
probed now l =
    if leb (l.last_probe + l.health_probe_seconds) now then record l { last_probe = now } else l

allow-in_outage :
    (w : World) (now key : ℕ) (l : Limiter)
    → now < l.fail_open_until
    → w.ping now ≡ false
    → allow w 2 now key l ≡ some (ask_fallback w now key (probed now l))
unfolding allow allow_with_fail_open probed ask_fallback
allow-in_outage w now key l before down = ground arith

-- One request in an outage is a request to the fallback.
ask_probed :
    (w : World) (now key : ℕ) (l : Limiter)
    → let m = Memory.allow (w.wall_clock now) key l.fallback in
      let (l', answer) = ask_fallback w now key (probed now l) in
      (answer ≡ m.1) × (l'.fallback ≡ m.0) × (l'.fail_open_until ≡ l.fail_open_until)
unfolding ask_fallback probed
ask_probed w now key l = ground arith

run-in_outage :
    (w : World) (until : ℕ) (rs : List (ℕ × ℕ)) (l : Limiter) (m : Memory)
    → l.fail_open_until ≡ until
    → l.fallback ≡ m
    → IsAway w until rs
    → (l' : Limiter) × (run w rs l ≡ some (l', (Admits.run (on_wall w rs) m).1))
unfolding Admits.run
run-in_outage w until [] l m e f away = (l, unfold run in refl)
run-in_outage w until ((now, key) ∷ rs) l m e f away =
    let l' = (ask_fallback w now key (probed now l)).0 in
    let asked = ask_probed w now key l in
    let old = ap (λ (x : Memory). Memory.allow (w.wall_clock now) key x) f in
    let rest =
      run-in_outage w until rs l' (Memory.allow (w.wall_clock now) key m).0 (asked.2 ∙ e)
        (asked.1 ∙ ap (λ (x : Memory × Bool). x.0) old) away.2 in
    (
      rest.0,
      run-cons w now key rs l l' rest.0 _ _
          (allow-in_outage w now key l (omega arith) away.1
            ∙ ap (λ (a : Bool). some (l', a)) (asked.0 ∙ ap (λ (x : Memory × Bool). x.1) old))
          rest.1,
    )

after_script-asks :
    (w : World) (again : Caller) (now key : ℕ) (p : Limiter × Option Bool)
    → 0 < p.0.health_probe_seconds
    → p.0.fail_open_until ≤ now
    → p.1 ≡ none
    → after_script w again now key p ≡ some (ask_fallback w now key (enter_fail_open now p.0))
unfolding after_script allow_with_fail_open enter_fail_open
after_script-asks w again now key (l, some b) pos past fails = cc
after_script-asks w again now key (l, none) pos past fails = ground arith

allow-asks :
    (w : World) (fuel now key : ℕ) (l : Limiter)
    → 0 < l.health_probe_seconds
    → l.fail_open_until ≤ now
    → (eval_script w now key l).1 ≡ none
    → allow w (suc fuel) now key l
      ≡ some (ask_fallback w now key (enter_fail_open now (eval_script w now key l).0))
unfolding allow
allow-asks w fuel now key l pos past fails =
    let same = eval_script-KeepsTimes w now key l in
    let test : ltb now l.fail_open_until ≡ false = ground arith in
    rw test (
      after_script-asks w (allow w fuel) now key (eval_script w now key l)
        (omega (arith, same.probe)) (omega (arith, same.until)) fails)

ask_entered :
    (w : World) (now key : ℕ) (l : Limiter)
    → l.fail_open_until ≤ now
    → let m = Memory.allow (w.wall_clock now) key (Memory.reset l.fallback) in
      let (l', answer) = ask_fallback w now key (enter_fail_open now l) in
      (answer ≡ m.1) × (l'.fallback ≡ m.0) × (l'.fail_open_until ≡ now + l.fail_open_seconds)
unfolding ask_fallback enter_fail_open
ask_entered w now key l past = ground arith

-- The first failing request: the fallback is emptied, and asked.
allow-at_failure :
    (w : World) (now key : ℕ) (l : Limiter)
    → 0 < l.health_probe_seconds
    → l.fail_open_until ≤ now
    → (eval_script w now key l).1 ≡ none
    → (l' : Limiter) × (allow w 2 now key l
        ≡ some (l', (Memory.allow (w.wall_clock now) key (Memory.reset l.fallback)).1))
      × (l'.fail_open_until ≡ now + l.fail_open_seconds)
      × (l'.fallback ≡ (Memory.allow (w.wall_clock now) key (Memory.reset l.fallback)).0)
allow-at_failure w now key l pos past fails =
    let same = eval_script-KeepsTimes w now key l in
    let s = (eval_script w now key l).0 in
    let asked = ask_entered w now key s (omega (arith, same.until)) in
    let old =
      ap (λ (m : Memory). Memory.allow (w.wall_clock now) key (Memory.reset m)) same.backup in
    let l' = (ask_fallback w now key (enter_fail_open now s)).0 in
    (
      l',
      allow-asks w 1 now key l pos past fails
          ∙ ap (λ (a : Bool). some (l', a)) (asked.0 ∙ ap (λ (x : Memory × Bool). x.1) old),
      omega (arith, asked.2, same.lasting),
      asked.1 ∙ ap (λ (x : Memory × Bool). x.0) old,
    )

-- Redis fails a request at `now`, outside an outage: from then until `fail_open_seconds` later, as
-- long as no probe reaches Redis, that request and all after it are answered exactly as by an
-- in-memory limiter that starts empty, on the wall clock's times.
pub outage-eq-memory :
    (w : World) (now key : ℕ) (rs : List (ℕ × ℕ)) (l : Limiter)
    → 0 < l.health_probe_seconds
    → l.fail_open_until ≤ now
    → (eval_script w now key l).1 ≡ none
    → IsAway w (now + l.fail_open_seconds) rs
    → (l' : Limiter) × (run w ((now, key) ∷ rs) l
        ≡ some (l', (Admits.run (on_wall w ((now, key) ∷ rs)) (Memory.reset l.fallback)).1))
unfolding Admits.run
outage-eq-memory w now key rs l pos past fails away =
    let (l', first, until, asked) = allow-at_failure w now key l pos past fails in
    let rest = run-in_outage w (now + l.fail_open_seconds) rs l' _ until asked away in
    (rest.0, run-cons w now key rs l l' rest.0 _ _ first rest.1)
