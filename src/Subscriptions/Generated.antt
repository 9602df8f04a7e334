-- ===== src/Subscriptions/Generated.antt =====
-- The orders that runs of `generate_due_orders` create.
use clean.Base.{
  ℕ, ◌+◌, ◌≡◌, ◌<◌, ◌⊎◌, refl, sym, ap, ◌∙◌, Bool, true, false, not, ◌&&◌, ◌||◌, List, [], ◌∷◌,
  none, some, ◌==◌, if◌then◌else◌, any, length, keep, Result, ok, err, ok-injective, arith,
  Bool-cases, Option-cases, Result-cases, inl, inr,
}
use mathlib.Core.Path.{subst}
use mathlib.Core.Option.{some-injective}
use clean.Subscriptions.{
  Subscription, Order, Store, Error, Environment, is_due, is_due_row, is_due_id, is_order, advanced,
  Progress, next_date, serve, serve_all, GenerationResult, finished, generate_due_orders,
}
use clean.Subscriptions.Dates.{Date, IsDate, ordinal}
use clean.Subscriptions.Advance.{Follows, next_date-Follows}
use clean.Subscriptions.Served.{Turn, serve-Turn}

abbrev pub mem : ℕ → List ℕ → Bool
mem k ks = any (λ j. j == k) ks

unfoldable pub Distinct : List ℕ → Type 0
Distinct [] = Unit
Distinct (k ∷ ks) = (mem k ks ≡ false) × Distinct ks

-- What the loop over some subscriptions leaves.
record Looped (env : Environment) (ks : List ℕ) (p p' : Progress) : Type 0 where
  untouched : (k : ℕ) → mem k ks ≡ false → p'.written.subscriptions k ≡ p.written.subscriptions k
  served :
      (k : ℕ) (x : Subscription)
      → mem k ks ≡ true
      → p.written.subscriptions k ≡ some x
      → (p'.written.subscriptions k ≡ some (advanced env x))
        × (any (is_order k (env.utc_date x.next_run_at)) p'.written.orders ≡ true)
  keeps_orders : (q : Order → Bool) → any q p.written.orders ≡ true → any q p'.written.orders ≡ true
  counts : length p'.written.orders + p.created_orders ≡ length p.written.orders + p'.created_orders

skip-Looped :
    (env : Environment) (k : ℕ) (ks : List ℕ) (p p' : Progress)
    → p.written.subscriptions k ≡ none
    → Looped env ks p p'
    → Looped env (k ∷ ks) p p'
skip-Looped env k ks p p' absent rest = record {
  untouched = λ j h. elim (Bool-cases (k == j)) [
    | inl here ↦ let clash : true ≡ false = rw here at h in cc clash
    | inr other ↦ let h' : mem j ks ≡ false = rw other at h in rest.untouched j h'
  ];
  served = λ j x h e. elim (Bool-cases (k == j)) [
    | inl here ↦
        let same : k ≡ j = ground arith in
        let clash : none ≡ some x = sym absent ∙ ap p.written.subscriptions same ∙ e in cc clash
    | inr other ↦ let h' : mem j ks ≡ true = rw other at h in rest.served j x h' e
  ];
  keeps_orders = rest.keeps_orders;
  counts = rest.counts;
}

Turn-Looped :
    (env : Environment) (k : ℕ) (ks : List ℕ) (x : Subscription) (p q p' : Progress)
    → mem k ks ≡ false
    → p.written.subscriptions k ≡ some x
    → Turn env k x p q
    → Looped env ks q p'
    → Looped env (k ∷ ks) p p'
Turn-Looped env k ks x p q p' new there t rest = record {
  untouched = λ j h. elim (Bool-cases (k == j)) [
    | inl here ↦ let clash : true ≡ false = rw here at h in cc clash
    | inr other ↦
        let h' : mem j ks ≡ false = rw other at h in
        rest.untouched j h' ∙ ap (λ f. f j) t.advances ∙ rw other refl
  ];
  served = λ j y h e. elim (Bool-cases (k == j)) [
    | inl here ↦
        let same : k ≡ j = ground arith in
        let own : some x ≡ some y = sym there ∙ ap p.written.subscriptions same ∙ e in
        let xy = some-injective x y own in
        let kk : (k == k) ≡ true = ground arith in
        let e1 : p'.written.subscriptions k ≡ some (advanced env x) =
          rest.untouched k new ∙ ap (λ f. f k) t.advances ∙ rw kk refl in
        subst
          (λ i.
            (p'.written.subscriptions i ≡ some (advanced env y))
            × (any (is_order i (env.utc_date y.next_run_at)) p'.written.orders ≡ true))
          same
          (subst
            (λ (z : Subscription).
              (p'.written.subscriptions k ≡ some (advanced env z))
              × (any (is_order k (env.utc_date z.next_run_at)) p'.written.orders ≡ true))
            xy (e1, rest.keeps_orders _ t.has_order))
    | inr other ↦
        let h' : mem j ks ≡ true = rw other at h in
        let e1 : q.written.subscriptions j ≡ some y = ap (λ f. f j) t.advances ∙ rw other e in
        rest.served j y h' e1
  ];
  keeps_orders = λ r h. rest.keeps_orders r (t.keeps_orders r h);
  counts = omega (arith, t.counts, rest.counts);
}

serve_all-Looped :
    (env : Environment) (now : ℕ) (ks : List ℕ) (p p' : Progress)
    → Distinct ks
    → serve_all env now ks p ≡ (p', ok tt)
    → Looped env ks p p'
unfolding serve_all Distinct
serve_all-Looped env now [] p p' u went =
    let e : p ≡ p' = ap (λ (r : Progress × Result Error (Unit {0})). r.0) went in
    subst (Looped env [] p) e (record {
      untouched = λ k h. refl;
      served = λ k x h e. cc h;
      keeps_orders = λ q h. h;
      counts = omega arith;
    })
serve_all-Looped env now (k ∷ ks) p p' (new, u) went =
    elim (Option-cases (p.written.subscriptions k)) [
      | inl absent ↦
          skip-Looped env k ks p p' absent
            (serve_all-Looped env now ks p p' u (rw (serve_all, absent) at went))
      | inr (x, there) ↦ elim (Result-cases (serve env now k x p)) [
        | inl (e, raised) ↦
            let clash : (p, err e) ≡ (p', ok tt) = rw (serve_all, there, raised) at went in cc clash
        | inr (q, turned) ↦
            Turn-Looped env k ks x p q p' new there (serve-Turn env now k x p q turned)
              (serve_all-Looped env now ks q p' u (rw (serve_all, there, turned) at went))
      ]
    ]

mem-keep : (q : ℕ → Bool) (k : ℕ) (ks : List ℕ) → mem k (keep q ks) ≡ (mem k ks && q k)
mem-keep q k [] = refl
mem-keep q k (j ∷ ks) = elim (Bool-cases (j == k)) [
  | inl here ↦
      let same : j ≡ k = ground arith in
      elim (Bool-cases (q j)) [
        | inl due ↦
            let due' : q k ≡ true = subst (λ i. q i ≡ true) same due in rw (due, here, due') refl
        | inr idle ↦
            let idle' : q k ≡ false = subst (λ i. q i ≡ false) same idle in
            rw (idle, here, mem-keep q k ks, idle') ground arith
      ]
  | inr other ↦ elim (Bool-cases (q j)) [
    | inl due ↦ rw (due, other, mem-keep q k ks) refl
    | inr idle ↦ rw (idle, other, mem-keep q k ks) refl
  ]
]

Distinct-keep : (q : ℕ → Bool) (ks : List ℕ) → Distinct ks → Distinct (keep q ks)
unfolding Distinct
Distinct-keep q [] u = u
Distinct-keep q (k ∷ ks) (new, u) = elim (Bool-cases (q k)) [
  | inl due ↦ rw due (rw (mem-keep q k ks, new) refl, Distinct-keep q ks u)
  | inr idle ↦ rw idle (Distinct-keep q ks u)
]

-- How a run ends that goes through.
record Ended (n : ℕ) (r : Progress × Result Error (Unit {0})) (s : Store) (g : GenerationResult)
    : Type 0 where
  went : r ≡ (r.0, ok tt)
  is_written : r.0.written ≡ s
  is_counted : g ≡ record { processed = n; created_orders = r.0.created_orders }

finished-Ended :
    (n : ℕ) (r : Progress × Result Error (Unit {0})) (s : Store) (g : GenerationResult)
    → finished n r ≡ (s, ok g)
    → Ended n r s g
finished-Ended n (p, err e) s g h =
    let h' = ap (λ (a : Store × Result Error GenerationResult). a.1) h in cc h'
finished-Ended n (p, ok tt) s g h = record {
  went = refl;
  is_written = ap (λ (a : Store × Result Error GenerationResult). a.0) h;
  is_counted = sym (ok-injective _ g (ap (λ (a : Store × Result Error GenerationResult). a.1) h));
}

-- The rows after a run that goes through, and what it counts.
generate_due_orders-rows :
    (env : Environment) (now : ℕ) (s s' : Store) (g : GenerationResult) (k : ℕ) (x : Subscription)
    → Distinct s.ids
    → mem k s.ids ≡ true
    → s.subscriptions k ≡ some x
    → generate_due_orders env now s ≡ (s', ok g)
    → (s'.subscriptions k ≡ some (if is_due now x then advanced env x else x))
      × ((not (is_due now x) || any (is_order k (env.utc_date x.next_run_at)) s'.orders) ≡ true)
      × (length s'.orders ≡ length s.orders + g.created_orders)
      × (g.processed ≡ length (keep (is_due_id now s.subscriptions) s.ids))
unfolding generate_due_orders
generate_due_orders-rows env now s s' g k x u known there went =
    let due = keep (is_due_id now s.subscriptions) s.ids in
    let p : Progress = record { written = s; committed = s; created_orders = 0 } in
    let r = serve_all env now due p in
    let t = finished-Ended (length due) r s' g went in
    let loop = serve_all-Looped env now due p r.0 (Distinct-keep _ s.ids u) t.went in
    let in_due : mem k due ≡ is_due now x =
      mem-keep (is_due_id now s.subscriptions) k s.ids ∙ rw known (ap (is_due_row now) there) in
    let counted = loop.counts in
    let created = ap (λ (h : GenerationResult). h.created_orders) t.is_counted in
    let total : length r.0.written.orders ≡ length s.orders + g.created_orders =
      omega (arith, counted, created) in
    subst
      (λ (z : Store).
        (z.subscriptions k ≡ some (if is_due now x then advanced env x else x))
        × ((not (is_due now x) || any (is_order k (env.utc_date x.next_run_at)) z.orders) ≡ true)
        × (length z.orders ≡ length s.orders + g.created_orders)
        × (g.processed ≡ length due))
      t.is_written
      (elim (Bool-cases (is_due now x)) [
        | inl yes_due ↦
            let (a, b) = loop.served k x (in_due ∙ yes_due) there in
            rw yes_due (a, b, total, ap (λ (h : GenerationResult). h.processed) t.is_counted)
        | inr idle ↦
            let a = loop.untouched k (in_due ∙ idle) in
            rw idle
              (a ∙ there, refl, total, ap (λ (h : GenerationResult). h.processed) t.is_counted)
      ])

-- What is known of a subscription after a run that has served it: an order is on its due date, and
-- its next run is the start of the date that follows the due one, which is a later one.
pub record IsMovedOn (env : Environment) (orders : List Order) (x x' : Subscription) : Type 0 where
  pub next_due : Date
  pub has_order : any (is_order x.subscription_id (env.utc_date x.next_run_at)) orders ≡ true
  pub moved : x' ≡ record x { next_run_at = env.start_of_day next_due }
  pub is_date : IsDate next_due
  pub later : ordinal (env.utc_date x.next_run_at) < ordinal next_due
  pub follows : Follows x.frequency x.preferred_day_of_month (env.utc_date x.next_run_at) next_due

advanced-IsMovedOn :
    (env : Environment) (orders : List Order) (x : Subscription)
    → IsDate (env.utc_date x.next_run_at)
    → any (is_order x.subscription_id (env.utc_date x.next_run_at)) orders ≡ true
    → IsMovedOn env orders x (advanced env x)
unfolding advanced
advanced-IsMovedOn env orders x v ordered =
    let (w, later, _, follows) =
      next_date-Follows x.frequency x.preferred_day_of_month (env.utc_date x.next_run_at) v in
    record {
      next_due = next_date x.frequency x.preferred_day_of_month (env.utc_date x.next_run_at);
      has_order = ordered;
      moved = refl;
      is_date = w;
      later = later;
      follows = follows;
    }

-- A run that goes through has served every subscription that was due: an order is on its due date,
-- and its next run, and nothing else of it, has changed, to the start of a later date, which follows
-- the due one by the subscription's frequency. One that was not due is as it was. The run has added as
-- many orders as it counts, and every subscription that was due is counted as processed.
pub generate_due_orders-served :
    (env : Environment) (now : ℕ) (s s' : Store) (g : GenerationResult) (k : ℕ) (x : Subscription)
    → Distinct s.ids
    → mem k s.ids ≡ true
    → s.subscriptions k ≡ some x
    → x.subscription_id ≡ k
    → IsDate (env.utc_date x.next_run_at)
    → generate_due_orders env now s ≡ (s', ok g)
    → ((x' : Subscription) × (s'.subscriptions k ≡ some x')
        × (((is_due now x ≡ true) × IsMovedOn env s'.orders x x')
            ⊎ ((is_due now x ≡ false) × (x' ≡ x))))
      × (length s'.orders ≡ length s.orders + g.created_orders)
      × (g.processed ≡ length (keep (is_due_id now s.subscriptions) s.ids))
generate_due_orders-served env now s s' g k x u known there own v went =
    let (row, ordered, created, processed) =
      generate_due_orders-rows env now s s' g k x u known there went in
    elim (Bool-cases (is_due now x)) [
      | inl due ↦
          let row' : s'.subscriptions k ≡ some (advanced env x) = rw due at row in
          let on_date : any (is_order k (env.utc_date x.next_run_at)) s'.orders ≡ true =
            rw due at ordered in
          let on_own =
            subst (λ i. any (is_order i (env.utc_date x.next_run_at)) s'.orders ≡ true) (sym own)
              on_date in
          (
            (advanced env x, row', inl (due, advanced-IsMovedOn env s'.orders x v on_own)),
            created,
            processed,
          )
      | inr idle ↦
          let row' : s'.subscriptions k ≡ some x = rw idle at row in
          ((x, row', inr (idle, refl)), created, processed)
    ]
