-- ===== src/Outbox/Rounds.antt =====
-- The counts of a round of `process_outbox`.
use clean.Base.{
  ℕ, ◌+◌, ◌≤◌, ◌≡◌, List, [], ◌∷◌, none, some, ◌&&◌, if◌then◌else◌, length, length-append,
  length-take-le, arith, Option-cases, inl, inr, keep, take, not,
}
use mathlib.Core.Path.{subst}
use mathlib.Core.Option.{some-injective}
use clean.Outbox.{
  Event, ExportEvent, Store, Settings, World, Round, is_sent, is_dead, is_export, counted,
  deliver_outbox_event, build_export_event, after_event, turn, deliver_all, process_outbox,
  selected, dead_letter, is_due,
}

-- How the loop has counted.
record Counted (r r' : Round) (n : ℕ) : Type 0 where
  pub letters : length r'.store.exports + r.dead ≡ length r.store.exports + r'.dead
  pub attempts : r'.sent + r'.dead ≤ r.sent + r.dead + n

one_letter : Event → ℕ
one_letter e = if not (is_sent e.status) && (is_dead e.status && is_export e.kind) then 1 else 0

dead_letter-length :
    (w : World) (e : Event) (letters : List ExportEvent)
    → dead_letter w e ≡ some letters
    → length letters ≡ one_letter e
unfolding dead_letter one_letter
dead_letter-length w e letters h = elim (Option-cases (build_export_event w e)) [
  | inl raised ↦ ground arith
  | inr (x, built) ↦ ground arith
]

one_count :
    (a b : ℕ) (e : Event) → a + (if is_sent e.status then 1 else 0) + (b + one_letter e) ≤ a + b + 1
unfolding one_letter
one_count a b e = ground arith

after_event-Counted :
    (w : World) (e : Event) (r r' : Round) → after_event w e r ≡ some r' → Counted r r' 1
unfolding after_event counted one_letter
after_event-Counted w e r r' went = elim (Option-cases (dead_letter w e)) [
  | inl raised ↦ let clash : none ≡ some r' = rw raised at went in cc clash
  | inr (letters, written) ↦
      let same : some (counted e r letters) ≡ some r' = rw written at went in
      subst (λ x. Counted r x 1) (some-injective _ r' same)
        (record {
          letters = omega (
            arith,
            length-append r.store.exports letters,
            dead_letter-length w e letters written,
          );
          attempts = one_count r.sent r.dead e;
        })
]

turn-Counted :
    (s : Settings) (w : World) (now : ℕ) (e : Event) (r r' : Round)
    → turn s w now e r ≡ some r'
    → Counted r r' 1
unfolding turn
turn-Counted s w now e r r' went = elim (Option-cases (deliver_outbox_event s w now e)) [
  | inl raised ↦ let clash : none ≡ some r' = rw (turn, raised) at went in cc clash
  | inr (e', attempted) ↦ after_event-Counted w e' r r' (rw (turn, attempted) at went)
]

deliver_all-Counted :
    (s : Settings) (w : World) (clock : ℕ → ℕ) (es : List Event) (r r' : Round)
    → deliver_all s w clock es r ≡ some r'
    → Counted r r' (length es)
unfolding deliver_all
deliver_all-Counted s w clock [] r r' went =
    subst (λ x. Counted r x 0) (some-injective r r' went)
      (record { letters = omega arith; attempts = omega arith })
deliver_all-Counted s w clock (e ∷ es) r r' went =
    elim (Option-cases (turn s w (clock e.event_id) e r)) [
      | inl raised ↦ let clash : none ≡ some r' = rw (deliver_all, raised) at went in cc clash
      | inr (r1, turned) ↦
          let here = turn-Counted s w (clock e.event_id) e r r1 turned in
          let rest = deliver_all-Counted s w clock es r1 r' (rw (deliver_all, turned) at went) in
          record {
            letters = omega (arith, here.letters, rest.letters);
            attempts = omega (arith, here.attempts, rest.attempts);
          }
    ]

-- A round that goes through attempts no more events than its limit; it writes exactly one dead letter
-- for each export that it counts as dead; and those that it counts as sent or dead are among the
-- attempted.
pub process_outbox-counts :
    (s : Settings) (w : World) (now : ℕ) (clock : ℕ → ℕ) (limit : ℕ) (store : Store) (round : Round)
    (pending : ℕ)
    → process_outbox s w now clock limit store ≡ some (round, pending)
    → (pending ≤ limit)
      × (length round.store.exports ≡ length store.exports + round.dead)
      × (round.sent + round.dead ≤ pending)
unfolding process_outbox selected
process_outbox-counts s w now clock limit store round pending went =
    let es = take limit (keep (is_due now) store.events) in
    let r0 : Round = record { store = store; sent = 0; dead = 0 } in
    elim (Option-cases (deliver_all s w clock es r0)) [
      | inl raised ↦ let clash : none ≡ some (round, pending) = rw raised at went in cc clash
      | inr (r, gave) ↦
          let pair : some (r, length es) ≡ some (round, pending) = rw gave at went in
          let both = some-injective _ _ pair in
          let c = deliver_all-Counted s w clock es r0 r gave in
          subst
            (λ (p : Round × ℕ).
              (p.1 ≤ limit)
              × (length p.0.store.exports ≡ length store.exports + p.0.dead)
              × (p.0.sent + p.0.dead ≤ p.1))
            both (length-take-le limit _, omega (arith, c.letters), omega (arith, c.attempts))
    ]
