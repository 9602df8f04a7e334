-- ===== src/Outbox/Enqueued.antt =====
-- What a session holds after an event is enqueued.
use clean.Base.{
  ℕ, ◌≡◌, refl, true, List, [], ◌∷◌, ◌++◌, Option, none, some, ◌&&◌, ◌==◌, arith, Bool-cases, inl,
  inr,
}
use clean.Outbox.{
  Kind, Payload, Event, Store, Session, other_dialect, find_event, new_event, insert_event,
  existing_or_insert, insert_or_existing, rolled_back, enqueue_outbox_event,
}

append-finds :
    (org key : ℕ) (es : List Event) (new : Event)
    → find_event org key es ≡ none
    → (new.org_id == org && (new.dedupe_key == key)) ≡ true
    → find_event org key (es ++ new ∷ []) ≡ some new
unfolding find_event
append-finds org key [] new h n = rw n refl
append-finds org key (x ∷ es) new h n =
    elim (Bool-cases (x.org_id == org && (x.dedupe_key == key))) [
      | inl p ↦ absurd (cc (rw p at h))
      | inr p ↦ rw p (append-finds org key es new (rw p at h) n)
    ]

-- What a call has given is the row that its session then sees under the key.
record IsSeen (new : Event) (r : Session × Option Event) : Type 0 where
  pub answer : Event
  pub given : r.1 ≡ some answer
  pub seen : find_event new.org_id new.dedupe_key r.0.written.events ≡ some answer

insert_event-IsSeen :
    (new : Event) (s : Session)
    → find_event new.org_id new.dedupe_key s.written.events ≡ none
    → IsSeen new (insert_event new s)
unfolding insert_event
insert_event-IsSeen new s h = record {
  answer = new;
  given = refl;
  seen = append-finds new.org_id new.dedupe_key s.written.events new h (ground arith);
}

existing_or_insert-IsSeen :
    (o : Option Event) (new : Event) (s : Session)
    → find_event new.org_id new.dedupe_key s.written.events ≡ o
    → IsSeen new (existing_or_insert o new s)
unfolding existing_or_insert
existing_or_insert-IsSeen (some e) new s h = record { answer = e; given = refl; seen = h }
existing_or_insert-IsSeen none new s h = insert_event-IsSeen new s h

insert_or_existing-IsSeen :
    (o : Option Event) (new : Event) (s : Session)
    → find_event new.org_id new.dedupe_key s.written.events ≡ o
    → IsSeen new (insert_or_existing o new s)
unfolding insert_or_existing rolled_back
insert_or_existing-IsSeen none new s h = insert_event-IsSeen new s h
insert_or_existing-IsSeen (some e) new s h =
    existing_or_insert-IsSeen (find_event new.org_id new.dedupe_key s.committed.events) new
      (record s { written = s.committed }) refl

-- Not on PostgreSQL: an event is enqueued and committed, and a later transaction, whatever else it has
-- written, enqueues under the same key, with whatever payload. It is answered by the first event, and
-- all that it has written before is discarded: the session then sees what was committed.
pub enqueue_again_discards :
    (id id' now now' org key : ℕ) (kind kind' : Kind) (payload payload' : Payload) (s : Session)
    (written : Store) (e : Event)
    → find_event org key written.events ≡ some e
    → let (first, answer) = enqueue_outbox_event other_dialect id now org kind payload key s in
      let later : Session = record { committed = first.written; written = written } in
      (a : Event) × (answer ≡ some a)
      × (enqueue_outbox_event other_dialect id' now' org kind' payload' key later
          ≡ (record { committed = first.written; written = first.written }, some a))
unfolding enqueue_outbox_event new_event
enqueue_again_discards id id' now now' org key kind kind' payload payload' s written e h =
    let seen =
      insert_or_existing-IsSeen (find_event org key s.written.events)
        (new_event id now org kind payload key) s refl in
    (
      seen.answer,
      seen.given,
      rw h (unfold insert_or_existing existing_or_insert rolled_back in rw seen.seen refl),
    )
