-- ===== src/Subscriptions/Served.antt =====
-- What the loop of `generate_due_orders` does to a subscription that is due.
use clean.Base.{
  ℕ, ◌+◌, ◌≡◌, refl, ap, Bool, true, false, ◌||◌, List, [], ◌∷◌, put, any, length, Result, ok, err,
  ok-injective, arith, Bool-cases, inl, inr,
}
use clean.Bookings
use clean.Invoices
use mathlib.Core.Path.{subst}
use clean.Subscriptions.Dates.{Date}
use clean.Subscriptions.{
  Subscription, Order, Store, Error, Environment, is_order, invoiced, booked, create_order,
  advanced, advance, Progress, after_order, serve,
}

-- No two orders of one subscription are on the same date.
unfoldable pub Unique : List Order → Type 0
Unique [] = Unit
Unique (o ∷ os) = (any (is_order o.subscription_id o.scheduled_date) os ≡ false) × Unique os

-- An order that is added to a store whose subscriptions stay.
pub record Added (k : ℕ) (d : Date) (s s' : Store) : Type 0 where
  pub order : Order
  pub of_subscription : order.subscription_id ≡ k
  pub on_date : order.scheduled_date ≡ d
  pub is_added : s'.orders ≡ order ∷ s.orders
  pub same_subscriptions : s'.subscriptions ≡ s.subscriptions

invoiced-Added :
    (k : ℕ) (d : Date) (booking : ℕ) (bookings : Bookings.Store) (s s' : Store)
    (r : Result Invoices.Error Invoices.Created)
    → invoiced k d booking bookings s r ≡ ok s'
    → Added k d s s'
invoiced-Added k d booking bookings s s' (err e) went = cc went
invoiced-Added k d booking bookings s s' (ok c) went =
    subst (Added k d s) (ok-injective _ s' went) (record {
      order = _;
      of_subscription = refl;
      on_date = refl;
      is_added = refl;
      same_subscriptions = refl;
    })

booked-Added :
    (env : Environment) (k : ℕ) (x : Subscription) (d : Date) (s s' : Store)
    (r : Bookings.Store × Result Bookings.Error Bookings.Booking)
    → booked env k x d s r ≡ ok s'
    → Added k d s s'
booked-Added env k x d s s' (bookings, err e) went = cc went
booked-Added env k x d s s' (bookings, ok b) went =
    invoiced-Added k d b.booking_id bookings s s' _ went

create_order-Added :
    (env : Environment) (now k : ℕ) (x : Subscription) (d : Date) (s s' : Store)
    → create_order env now k x d s ≡ ok s'
    → Added k d s s'
unfolding create_order
create_order-Added env now k x d s s' went = booked-Added env k x d s s' _ went

own_order :
    (o : Order) (k : ℕ) (d : Date)
    → o.subscription_id ≡ k
    → o.scheduled_date ≡ d
    → is_order k d o ≡ true
own_order o k d e f = subst (λ d'. is_order k d' o ≡ true) f (ground arith)

any-added :
    (q : Order → Bool) (o : Order) (os : List Order) → any q os ≡ true → (q o || any q os) ≡ true
any-added q o os h = rw h (ground arith)

-- What a turn of the loop leaves: the subscription is advanced, and its order is there, old or new.
pub record Turn (env : Environment) (k : ℕ) (x : Subscription) (p p' : Progress) : Type 0 where
  pub advances : p'.written.subscriptions ≡ put k (advanced env x) p.written.subscriptions
  pub has_order : any (is_order k (env.utc_date x.next_run_at)) p'.written.orders ≡ true
  pub keeps_orders :
      (q : Order → Bool) → any q p.written.orders ≡ true → any q p'.written.orders ≡ true
  pub counts :
      length p'.written.orders + p.created_orders ≡ length p.written.orders + p'.created_orders
  pub written-Unique : Unique p.written.orders → Unique p'.written.orders
  pub committed-Unique :
      Unique p.written.orders → Unique p.committed.orders → Unique p'.committed.orders

after_order-Turn :
    (env : Environment) (k : ℕ) (x : Subscription) (p p' : Progress) (r : Result Error Store)
    → any (is_order k (env.utc_date x.next_run_at)) p.written.orders ≡ false
    → ((s : Store) → r ≡ ok s → Added k (env.utc_date x.next_run_at) p.written s)
    → after_order env k x p r ≡ ok p'
    → Turn env k x p p'
unfolding Unique
after_order-Turn env k x p p' (err e) free added went = cc went
after_order-Turn env k x p p' (ok s) free added went =
    let a = added s refl in
    let o = a.order in
    let d = env.utc_date x.next_run_at in
    let own : any (is_order k d) s.orders ≡ true =
      rw a.is_added (rw (own_order o k d a.of_subscription a.on_date) refl) in
    let other : any (is_order o.subscription_id o.scheduled_date) p.written.orders ≡ false =
      rw (a.of_subscription, a.on_date) free in
    subst (Turn env k x p) (ok-injective _ p' went) (record {
      advances = ap (put k (advanced env x)) a.same_subscriptions;
      has_order = own;
      keeps_orders = λ q h. rw a.is_added (any-added q o p.written.orders h);
      counts = rw a.is_added (omega arith);
      written-Unique = λ u. rw a.is_added (other, u);
      committed-Unique = λ u _. rw a.is_added (other, u);
    })

pub serve-Turn :
    (env : Environment) (now k : ℕ) (x : Subscription) (p p' : Progress)
    → serve env now k x p ≡ ok p'
    → Turn env k x p p'
unfolding serve
serve-Turn env now k x p p' went =
    elim (Bool-cases (any (is_order k (env.utc_date x.next_run_at)) p.written.orders)) [
      | inl there ↦
          let e : ok (record p { written = advance env k x p.written }) ≡ ok p' =
            rw there at went in
          subst (Turn env k x p) (ok-injective _ p' e) (record {
            advances = refl;
            has_order = there;
            keeps_orders = λ q h. h;
            counts = omega arith;
            written-Unique = λ u. u;
            committed-Unique = λ _ u. u;
          })
      | inr free ↦
          let went' : after_order env k x p
                (create_order env now k x (env.utc_date x.next_run_at) p.written)
              ≡ ok p' =
            rw free at went in
          after_order-Turn env k x p p' _ free
            (λ s e. create_order-Added env now k x (env.utc_date x.next_run_at) p.written s e) went'
    ]
