-- ===== src/Outbox/Poison.antt =====
-- An event at which every round raises.
use clean.Base.{ℕ, ◌≡◌, refl, List, [], ◌∷◌, ◌++◌, Option, none, some, All, Option-cases, inl, inr}
use clean.Outbox.{
  Event, Store, Settings, World, Round, deliver_outbox_event, deliver_payload, turn, deliver_all,
  selected, process_outbox,
}

-- Whenever it is attempted, the delivery raises, as it does where `urlparse` refuses the URL.
abbrev pub RaisesAlways : Settings → World → Event → Type 0
RaisesAlways s w e = (now : ℕ) → deliver_payload s w now e.kind e.payload_json ≡ none

-- A round at its time, which says when each event is attempted, and how many at most.
pub record Job : Type 0 where
  pub now : ℕ
  pub clock : ℕ → ℕ
  pub limit : ℕ

-- The round selects an event whose delivery always raises, wherever it stands among the others.
pub record IsPoisoned (s : Settings) (w : World) (store : Store) (j : Job) : Type 0 where
  pub event : Event
  pub before : List Event
  pub behind : List Event
  pub is_selected : selected j.now j.limit store.events ≡ before ++ event ∷ behind
  pub raises_always : RaisesAlways s w event

-- The store after rounds, of which those that raise are rolled back, and what each of them gave.
unfoldable pub jobs : Settings → World → List Job → Store → Store × List (Option (Round × ℕ))
jobs s w [] store = (store, [])
jobs s w (j ∷ js) store = elim (process_outbox s w j.now j.clock j.limit store) [
  | none ↦ let (last, rest) = jobs s w js store in (last, none ∷ rest)
  | some (round, n) ↦ let (last, rest) = jobs s w js round.store in (last, some (round, n) ∷ rest)
]

turn-raises :
    (s : Settings) (w : World) (now : ℕ) (e : Event) (r : Round)
    → RaisesAlways s w e
    → turn s w now e r ≡ none
unfolding turn deliver_outbox_event
turn-raises s w now e r raised = rw (turn, deliver_outbox_event, raised now) refl

deliver_all-raises :
    (s : Settings) (w : World) (clock : ℕ → ℕ) (before behind : List Event) (e : Event) (r : Round)
    → RaisesAlways s w e
    → deliver_all s w clock (before ++ e ∷ behind) r ≡ none
unfolding deliver_all
deliver_all-raises s w clock [] behind e r raised =
    rw (deliver_all, turn-raises s w (clock e.event_id) e r raised) refl
deliver_all-raises s w clock (x ∷ xs) behind e r raised =
    elim (Option-cases (turn s w (clock x.event_id) x r)) [
      | inl stopped ↦ rw (deliver_all, stopped) refl
      | inr (r', went) ↦ rw (deliver_all, went) (deliver_all-raises s w clock xs behind e r' raised)
    ]

process_outbox-raises :
    (s : Settings) (w : World) (store : Store) (j : Job)
    → IsPoisoned s w store j
    → process_outbox s w j.now j.clock j.limit store ≡ none
unfolding process_outbox
process_outbox-raises s w store j p =
    rw
      (
        p.is_selected,
        deliver_all-raises s w j.clock p.before p.behind p.event
            (record { store = store; sent = 0; dead = 0 }) p.raises_always,
      )
      refl

-- Rounds of which each selects, of the rows of the beginning, an event whose delivery always raises:
-- every one of them raises, and no row is ever changed, neither of that event, which never dies, nor
-- of the other events, before it or behind it.
pub raising_event_stops :
    (s : Settings) (w : World) (js : List Job) (store : Store)
    → All (IsPoisoned s w store) js
    → ((jobs s w js store).0 ≡ store)
      × All (λ (r : Option (Round × ℕ)). r ≡ none) (jobs s w js store).1
unfolding jobs
raising_event_stops s w [] store all = (refl, tt)
raising_event_stops s w (j ∷ js) store (h, all) =
    let (same, rest) = raising_event_stops s w js store all in
    rw (jobs, process_outbox-raises s w store j h) (same, (refl, rest))
