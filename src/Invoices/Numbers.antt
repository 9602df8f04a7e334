-- ===== src/Invoices/Numbers.antt =====
-- The numbers of invoices over histories of creations.
use clean.Base.{
  ℕ, ◌+◌, ◌≤◌, ◌<◌, ◌≡◌, ◌⊎◌, refl, sym, ap, ◌∙◌, true, List, [], ◌∷◌, Option, some, ◌==◌, get_or,
  put, ok, err, Result, Bool-cases, inl, inr, arith, put-keeps_ne,
}
use mathlib.Core.Path.{subst}
use mathlib.Core.Option.{some-injective}
use clean.Invoices.{
  ItemCreate, Number, Invoice, Order, Store, Error, Created, generate_invoice_number,
  create_invoice_from_order, new_invoice,
}
use clean.Invoices.Recalculated.{Made, create_invoice-Made}

-- The creations of a history: the row's identifier, the order, the items, the year, the due date and
-- the currency.
pub record Creation : Type 0 where
  pub id : ℕ
  pub order : Order
  pub items : List ItemCreate
  pub year : ℕ
  pub due : Option ℕ
  pub currency : ℕ

abbrev committed : Store → Result Error Created → Store
committed s (ok c) = c.store
committed s (err _) = s

-- A creation that raises is rolled back.
unfoldable pub run : List Creation → Store → Store
run [] s = s
run (x ∷ xs) s =
    run xs (committed s (create_invoice_from_order x.id x.order x.items x.year x.due x.currency s))

-- Every number is at most the last of its year, and no two invoices have the same.
pub record IsNumbered (d : ℕ → Option Invoice) (last : ℕ → Option ℕ) : Type 0 where
  pub counted :
      (k : ℕ) (i : Invoice)
      → d k ≡ some i
      → i.invoice_number.number ≤ get_or (last i.invoice_number.year) 0
  pub unique :
      (j k : ℕ) (a b : Invoice)
      → d j ≡ some a
      → d k ≡ some b
      → a.invoice_number.year ≡ b.invoice_number.year
      → a.invoice_number.number ≡ b.invoice_number.number
      → j ≡ k

-- The year's counter goes up by one, the others stay.
counter_grows :
    (year y : ℕ) (last : ℕ → Option ℕ)
    → get_or (last y) 0 ≤ get_or ((generate_invoice_number year last).0 y) 0
unfolding generate_invoice_number
counter_grows year y last = elim (Bool-cases (year == y)) [
  | inl here ↦
      let e : year ≡ y = ground arith in
      rw here (subst (λ z. get_or (last z) 0 ≤ get_or (last year) 0 + 1) e (omega arith))
  | inr other ↦ rw other (omega arith)
]

counter_is_new :
    (year : ℕ) (last : ℕ → Option ℕ)
    → let (last', n) = generate_invoice_number year last in
      (n.number ≡ get_or (last year) 0 + 1) × (get_or (last' year) 0 ≡ n.number)
unfolding generate_invoice_number
counter_is_new year last = let here : (year == year) ≡ true = ground arith in (refl, rw here refl)

module _ (d : ℕ → Option Invoice) (last : ℕ → Option ℕ) (id year : ℕ) (new : Invoice) where
  older :
      (k : ℕ) (b : Invoice)
      → new.invoice_number ≡ (generate_invoice_number year last).1
      → IsNumbered d last
      → d k ≡ some b
      → new.invoice_number.year ≡ b.invoice_number.year
      → b.invoice_number.number < new.invoice_number.number
  unfolding generate_invoice_number
  older k b e v at' same_year =
      let y : year ≡ b.invoice_number.year = sym (ap (λ (n : Number). n.year) e) ∙ same_year in
      let n : new.invoice_number.number ≡ get_or (last year) 0 + 1 =
        ap (λ (n : Number). n.number) e in
      let c : b.invoice_number.number ≤ get_or (last year) 0 =
        subst (λ z. b.invoice_number.number ≤ get_or (last z) 0) (sym y) (v.counted k b at') in
      omega arith

  put_at : (j : ℕ) (a : Invoice) → put id new d j ≡ some a → (id ≡ j) × (new ≡ a) ⊎ (d j ≡ some a)
  put_at j a p = elim (Bool-cases (id == j)) [
    | inl here ↦ inl (ground arith, some-injective new a (rw here at p))
    | inr other ↦ inr (rw other at p)
  ]

  put-IsNumbered :
      new.invoice_number ≡ (generate_invoice_number year last).1
      → IsNumbered d last
      → IsNumbered (put id new d) (generate_invoice_number year last).0
  unfolding generate_invoice_number
  put-IsNumbered e v = record {
    counted =
        put-keeps_ne
          (λ _ (i : Invoice).
            i.invoice_number.number
            ≤ get_or ((generate_invoice_number year last).0 i.invoice_number.year) 0)
          id new d
          (λ k i _ at'.
            omega (arith, v.counted k i at', counter_grows year i.invoice_number.year last))
          (subst
            (λ (n : Number). n.number ≤ get_or ((generate_invoice_number year last).0 n.year) 0)
            (sym e) (omega (arith, (counter_is_new year last).1)));
    unique = λ j k a b pj pk same_year same_number. elim (put_at j a pj) [
      | inl (at_j, new_a) ↦ elim (put_at k b pk) [
        | inl (at_k, _) ↦ sym at_j ∙ at_k
        | inr old_b ↦
            let y = ap (λ (i : Invoice). i.invoice_number.year) new_a ∙ same_year in
            let n = ap (λ (i : Invoice). i.invoice_number.number) new_a ∙ same_number in
            absurd (omega (arith, older k b e v old_b y, n))
      ]
      | inr old_a ↦ elim (put_at k b pk) [
        | inl (at_k, new_b) ↦
            let y = ap (λ (i : Invoice). i.invoice_number.year) new_b ∙ sym same_year in
            let n = ap (λ (i : Invoice). i.invoice_number.number) new_b ∙ sym same_number in
            absurd (omega (arith, older j a e v old_a y, n))
        | inr old_b ↦ v.unique j k a b old_a old_b same_year same_number
      ]
    ];
  }

Made-IsNumbered :
    (s : Store) (x : Creation) (c : Created)
    → Made x.id x.order x.items x.year s c
    → IsNumbered s.invoices s.last_number
    → IsNumbered c.store.invoices c.store.last_number
unfolding new_invoice
Made-IsNumbered s x c m v =
    rw (m.stored, m.counted)
      (put-IsNumbered s.invoices s.last_number x.id x.year c.invoice
        (ap (λ (i : Invoice). i.invoice_number) m.invoice_is) v)

one-IsNumbered :
    (s : Store) (r : Result Error Created)
    → ((c : Created) → r ≡ ok c → IsNumbered c.store.invoices c.store.last_number)
    → IsNumbered s.invoices s.last_number
    → IsNumbered (committed s r).invoices (committed s r).last_number
one-IsNumbered s (ok c) k v = k c refl
one-IsNumbered s (err _) k v = v

-- After any creations, of which some may raise, no two invoices have the same number, and every
-- number is at most the counter of its year, if that was so before.
pub run-IsNumbered :
    (xs : List Creation) (s : Store)
    → IsNumbered s.invoices s.last_number
    → IsNumbered (run xs s).invoices (run xs s).last_number
unfolding run
run-IsNumbered [] s v = v
run-IsNumbered (x ∷ xs) s v =
    let r = create_invoice_from_order x.id x.order x.items x.year x.due x.currency s in
    run-IsNumbered xs (committed s r) (
      one-IsNumbered s r
        (λ c e.
          Made-IsNumbered s x c
            (create_invoice-Made x.id x.order x.items x.year x.due x.currency s c e) v)
        v)
