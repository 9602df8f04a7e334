-- ===== src/Subscriptions/Blocked.antt =====
-- A subscription whose slot is taken.
use clean.Base.{
  ℕ, ◌≡◌, refl, true, false, List, [], ◌∷◌, none, some, ◌==◌, any, keep, All, Result, err,
}
use clean.Bookings.{create_booking, insert, new_booking, is_slot_available, slot_taken}
use clean.Subscriptions.Dates.{Date}
use clean.Subscriptions.{
  Subscription, Store, Error, GenerationResult, booking_error, Environment, is_due_id, is_order,
  create_order, serve, serve_all, generate_due_orders,
}

-- Times of runs at which the first subscription that is due is `k`.
unfoldable pub IsFirst : ℕ → Store → List ℕ → Type 0
IsFirst k s [] = Unit
IsFirst k s (now ∷ nows) =
    ((ks : List ℕ) × (keep (is_due_id now s.subscriptions) s.ids ≡ k ∷ ks)) × IsFirst k s nows

-- The store after runs at some times, and what each of them gave.
unfoldable pub runs : Environment → List ℕ → Store → Store × List (Result Error GenerationResult)
runs env [] s = (s, [])
runs env (now ∷ nows) s =
    let (s', r) = generate_due_orders env now s in
    let (last, rest) = runs env nows s' in (last, r ∷ rest)

create_order-taken :
    (env : Environment) (now k : ℕ) (x : Subscription) (d : Date) (s : Store)
    → any (λ t. t == env.team) s.bookings.teams ≡ true
    → is_slot_available env.calendar (env.start_of_day d) 120 s.bookings env.team none ≡ false
    → create_order env now k x d s ≡ err (booking_error slot_taken)
unfolding create_order create_booking insert new_booking
create_order-taken env now k x d s known unavailable = rw (known, unavailable) refl

module _ (env : Environment) (k : ℕ) (x : Subscription) (s : Store)
    (there : s.subscriptions k ≡ some x)
    (unordered : any (is_order k (env.utc_date x.next_run_at)) s.orders ≡ false)
    (known : any (λ t. t == env.team) s.bookings.teams ≡ true)
    (unavailable : is_slot_available env.calendar
        (env.start_of_day (env.utc_date x.next_run_at))
        120
        s.bookings
        env.team
        none
      ≡ false) where
  generate_due_orders-taken :
      (now : ℕ) (ks : List ℕ)
      → keep (is_due_id now s.subscriptions) s.ids ≡ k ∷ ks
      → generate_due_orders env now s ≡ (s, err (booking_error slot_taken))
  unfolding generate_due_orders serve serve_all
  generate_due_orders-taken now ks first =
      let taken = create_order-taken env now k x (env.utc_date x.next_run_at) s known unavailable in
      let turn : serve env now k x (record { written = s; committed = s; created_orders = 0 })
          ≡ err (booking_error slot_taken) =
        rw (unordered, taken) refl in
      rw (first, serve_all, there, turn) refl

  runs_stuck :
      (nows : List ℕ)
      → IsFirst k s nows
      → ((runs env nows s).0 ≡ s)
        × All
            (λ (r : Result Error GenerationResult). r ≡ err (booking_error slot_taken))
            (runs env nows s).1
  unfolding runs IsFirst
  runs_stuck [] first = (refl, tt)
  runs_stuck (now ∷ nows) ((ks, here), later) =
      let (same, rest) = runs_stuck nows later in
      rw (generate_due_orders-taken now ks here) (same, (refl, rest))

-- A subscription that is due has no order on its date, and the slot at which its order would start is
-- not available: as long as it is the first that is due, every run raises the error of its slot,
-- creates no order, for no subscription, and changes nothing.
pub blocked_subscription_stops :
    (env : Environment) (k : ℕ) (x : Subscription) (s : Store) (nows : List ℕ)
    → s.subscriptions k ≡ some x
    → any (is_order k (env.utc_date x.next_run_at)) s.orders ≡ false
    → any (λ t. t == env.team) s.bookings.teams ≡ true
    → is_slot_available env.calendar
        (env.start_of_day (env.utc_date x.next_run_at))
        120
        s.bookings
        env.team
        none
      ≡ false
    → IsFirst k s nows
    → ((runs env nows s).0 ≡ s)
      × All
          (λ (r : Result Error GenerationResult). r ≡ err (booking_error slot_taken))
          (runs env nows s).1
blocked_subscription_stops env k x s nows there unordered known unavailable first =
    runs_stuck env k x s there unordered known unavailable nows first
