-- ===== src/Subscriptions/Runs.antt =====
-- Histories of subscriptions: their creation, their changes, and runs that generate orders.
use clean.Base.{
  ℕ, List, [], ◌∷◌, ◌++◌, Option, none, some, put, Result, ok, err, Option-cases, Result-cases, inl,
  inr,
}
use clean.Subscriptions.Dates.{Date}
use clean.Subscriptions.{
  Status, CreateRequest, UpdateRequest, Subscription, create_subscription, update_subscription,
  update_subscription_status, Store, Environment, Progress, serve, serve_all, finished,
  generate_due_orders,
}
use clean.Subscriptions.Served.{Unique, serve-Turn}

-- The calls of a history.
pub data Call : Type 0 where
  create : ℕ → ℕ → CreateRequest → Call
  set_status : ℕ → Status → Option ℕ → Call
  update : ℕ → UpdateRequest → Call
  generate : Environment → ℕ → Call

abbrev changed : ℕ → (Subscription → Subscription) → Store → Store
changed k f s = elim (s.subscriptions k) [
  | none ↦ s
  | some x ↦ record s { subscriptions = put k (f x) s.subscriptions }
]

-- A subscription is created under a new identifier; a change of one that is absent does nothing.
unfoldable pub perform : (Date → ℕ) → Call → Store → Store
perform start_of_day (create k client q) s = record s {
  ids = s.ids ++ k ∷ [];
  subscriptions = put k (create_subscription start_of_day k client q) s.subscriptions;
}
perform start_of_day (set_status k status reason) s =
    changed k (update_subscription_status status reason) s
perform start_of_day (update k q) s = changed k (update_subscription q) s
perform start_of_day (generate env now) s = (generate_due_orders env now s).0

unfoldable pub run : (Date → ℕ) → List Call → Store → Store
run start_of_day [] s = s
run start_of_day (c ∷ cs) s = run start_of_day cs (perform start_of_day c s)

serve_all-Unique :
    (env : Environment) (now : ℕ) (ks : List ℕ) (p : Progress)
    → Unique p.written.orders
    → Unique p.committed.orders
    → let (p', _) = serve_all env now ks p in Unique p'.written.orders × Unique p'.committed.orders
unfolding serve_all
serve_all-Unique env now [] p u v = (u, v)
serve_all-Unique env now (k ∷ ks) p u v = elim (Option-cases (p.written.subscriptions k)) [
  | inl absent ↦ rw (serve_all, absent) (serve_all-Unique env now ks p u v)
  | inr (x, there) ↦ elim (Result-cases (serve env now k x p)) [
    | inl (e, raised) ↦ rw (serve_all, there, raised) (u, v)
    | inr (q, turned) ↦
        let t = serve-Turn env now k x p q turned in
        rw (serve_all, there, turned)
          (serve_all-Unique env now ks q (t.written-Unique u) (t.committed-Unique u v))
  ]
]

finished-Unique :
    (n : ℕ) (r : Progress × Result _ (Unit {0}))
    → Unique r.0.written.orders
    → Unique r.0.committed.orders
    → Unique (finished n r).0.orders
finished-Unique n (p, err e) u v = v
finished-Unique n (p, ok _) u v = u

changed-Unique :
    (k : ℕ) (f : Subscription → Subscription) (s : Store)
    → Unique s.orders
    → Unique (changed k f s).orders
changed-Unique k f s u = elim (Option-cases (s.subscriptions k)) [
  | inl absent ↦ rw (changed, absent) u
  | inr (x, there) ↦ rw (changed, there) u
]

perform-Unique :
    (start_of_day : Date → ℕ) (c : Call) (s : Store)
    → Unique s.orders
    → Unique (perform start_of_day c s).orders
unfolding perform generate_due_orders
perform-Unique start_of_day (create k client q) s u = u
perform-Unique start_of_day (set_status k status reason) s u = changed-Unique k _ s u
perform-Unique start_of_day (update k q) s u = changed-Unique k _ s u
perform-Unique start_of_day (generate env now) s u =
    let p : Progress = record { written = s; committed = s; created_orders = 0 } in
    let (w, v) = serve_all-Unique env now _ p u u in finished-Unique _ (serve_all env now _ p) w v

-- After any calls, of which runs may raise in the middle, and whatever an administrator sets as the
-- next run, no two orders of one subscription are on the same date, if none were before.
pub run-Unique :
    (start_of_day : Date → ℕ) (cs : List Call) (s : Store)
    → Unique s.orders
    → Unique (run start_of_day cs s).orders
unfolding run
run-Unique start_of_day [] s u = u
run-Unique start_of_day (c ∷ cs) s u =
    run-Unique start_of_day cs (perform start_of_day c s) (perform-Unique start_of_day c s u)
