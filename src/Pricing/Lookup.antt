-- ===== src/Pricing/Lookup.antt =====
-- The row of the table that an estimate takes its hours from.
use clean.Base.{
  ℕ, ◌≡◌, ◌⊎◌, refl, sym, Bool, true, false, List, [], ◌∷◌, none, some, keep, any, All, arith,
  Bool-cases, Option-cases, inl, inr,
}
use mathlib.Core.Path.{subst}
use mathlib.Core.Option.{some-injective}
use clean.Pricing.{HoursRow, before, first_row, head, is_exact, suffices, baths_up, lookup_row}

All-imp :
    (P Q : HoursRow → Type 0) (rs : List HoursRow)
    → ((r : HoursRow) → P r → Q r)
    → All P rs
    → All Q rs
All-imp P Q [] f all = tt
All-imp P Q (r ∷ rs) f (here, all) = (f r here, All-imp P Q rs f all)

before_trans : (x q r : HoursRow) → before x q ≡ false → before q r ≡ false → before x r ≡ false
before_trans x q r a b = ground arith

before_irrefl : (r : HoursRow) → before r r ≡ false
before_irrefl r = ground arith

before_asym : (q r : HoursRow) → before q r ≡ true → before r q ≡ false
before_asym q r a = ground arith

exact-suffices :
    (beds baths : ℕ) (x : HoursRow) → is_exact beds baths x ≡ true → suffices beds baths x ≡ true
exact-suffices beds baths x e = ground arith

exact-first :
    (beds baths : ℕ) (x z : HoursRow)
    → is_exact beds baths x ≡ true
    → suffices beds baths z ≡ true
    → before z x ≡ false
exact-first beds baths x z e h = ground arith

-- Where there is a row at all, there is a first one.
first_row-none : (rs : List HoursRow) → first_row rs ≡ none → rs ≡ []
unfolding first_row
first_row-none [] e = refl
first_row-none (r ∷ rs) e = elim (Option-cases (first_row rs)) [
  | inl none_left ↦ let clash : some r ≡ none = rw (first_row, none_left) at e in cc clash
  | inr (q, first) ↦ elim (Bool-cases (before q r)) [
    | inl earlier ↦ let clash : some q ≡ none = rw (first_row, first, earlier) at e in cc clash
    | inr later ↦ let clash : some r ≡ none = rw (first_row, first, later) at e in cc clash
  ]
]

no_row : (p : HoursRow → Bool) (rs : List HoursRow) → any p rs ≡ true → keep p rs ≡ [] → ⊥
no_row p [] some_row e = cc some_row
no_row p (r ∷ rs) some_row e = elim (Bool-cases (p r)) [
  | inl in_it ↦ let clash : r ∷ keep p rs ≡ [] = rw in_it at e in cc clash
  | inr out ↦ no_row p rs (rw out at some_row) (rw out at e)
]

module _ (r : HoursRow) (rs : List HoursRow) where
  -- The first row of a list is its head, or the first of the rest if that comes before.
  first_row-cases :
      (q : HoursRow)
      → first_row (r ∷ rs) ≡ some q
      → ((rs ≡ []) × (q ≡ r))
        ⊎ ((p : HoursRow) × (first_row rs ≡ some p)
            × (((before p r ≡ true) × (q ≡ p)) ⊎ ((before p r ≡ false) × (q ≡ r))))
  unfolding first_row
  first_row-cases q e = elim (Option-cases (first_row rs)) [
    | inl none_left ↦
        let is : some r ≡ some q = rw (first_row, none_left) at e in
        inl (first_row-none rs none_left, sym (some-injective r q is))
    | inr (p, first) ↦ elim (Bool-cases (before p r)) [
      | inl earlier ↦
          let is : some p ≡ some q = rw (first_row, first, earlier) at e in
          inr (p, first, inl (earlier, sym (some-injective p q is)))
      | inr later ↦
          let is : some r ≡ some q = rw (first_row, first, later) at e in
          inr (p, first, inr (later, sym (some-injective r q is)))
    ]
  ]

first_row-min :
    (rs : List HoursRow) (q : HoursRow) → first_row rs ≡ some q → All (λ x. before x q ≡ false) rs
unfolding first_row
first_row-min [] q e = let clash : none ≡ some q = e in cc clash
first_row-min (r ∷ rs) q e = elim (first_row-cases r rs q e) [
  | inl (alone, is) ↦
      subst (λ (x : HoursRow). All (λ y. before y x ≡ false) (r ∷ rs)) (sym is)
        (subst (λ xs. All (λ y. before y r ≡ false) (r ∷ xs)) (sym alone) (before_irrefl r, tt))
  | inr (p, first, inl (earlier, is)) ↦
      subst (λ (x : HoursRow). All (λ y. before y x ≡ false) (r ∷ rs)) (sym is)
        (before_asym p r earlier, first_row-min rs p first)
  | inr (p, first, inr (later, is)) ↦
      subst (λ (x : HoursRow). All (λ y. before y x ≡ false) (r ∷ rs)) (sym is)
        (
          before_irrefl r,
          All-imp (λ y. before y p ≡ false) (λ y. before y r ≡ false) rs
              (λ y h. before_trans y p r h later) (first_row-min rs p first),
        )
]

first_row-All :
    (P : HoursRow → Type 0) (rs : List HoursRow) (q : HoursRow)
    → first_row rs ≡ some q
    → All P rs
    → P q
unfolding first_row
first_row-All P [] q e all = cc e
first_row-All P (r ∷ rs) q e (here, all) = elim (first_row-cases r rs q e) [
  | inl (alone, is) ↦ subst P (sym is) here
  | inr (p, first, inl (earlier, is)) ↦ subst P (sym is) (first_row-All P rs p first all)
  | inr (p, first, inr (later, is)) ↦ subst P (sym is) here
]

keep-All : (p : HoursRow → Bool) (rs : List HoursRow) → All (λ r. p r ≡ true) (keep p rs)
keep-All p [] = tt
keep-All p (r ∷ rs) = elim (Bool-cases (p r)) [
  | inl in_it ↦ rw in_it (in_it, keep-All p rs)
  | inr out ↦ rw out (keep-All p rs)
]

head-All :
    (P : HoursRow → Type 0) (rs : List HoursRow) (q : HoursRow) → head rs ≡ some q → All P rs → P q
head-All P [] q e all = cc e
head-All P (r ∷ rs) q e (here, all) = subst P (some-injective r q e) here

keep-filled :
    (p : HoursRow → Bool) (rs : List HoursRow) → any p rs ≡ true → first_row (keep p rs) ≡ none → ⊥
keep-filled p rs some_row e = no_row p rs some_row (first_row-none (keep p rs) e)

-- The row whose hours are taken is enough for the bedrooms, and for the bathrooms rounded up, if any
-- row is; and of the rows that are enough none comes before it by bedrooms and then bathrooms.
pub lookup_row-least :
    (table : List HoursRow) (beds baths : ℕ) (r : HoursRow)
    → any (suffices beds (baths_up baths)) table ≡ true
    → lookup_row table beds baths ≡ some r
    → (suffices beds (baths_up baths) r ≡ true)
      × All (λ x. before x r ≡ false) (keep (suffices beds (baths_up baths)) table)
unfolding lookup_row
lookup_row-least table beds baths r some_row found =
    let up = baths_up baths in
    let enough = keep-All (suffices beds up) table in
    elim (Option-cases (head (keep (is_exact beds up) table))) [
      | inr (x, first) ↦
          let is : some x ≡ some r = rw first at found in
          let exact = head-All _ _ x first (keep-All (is_exact beds up) table) in
          subst
            (λ (y : HoursRow).
              (suffices beds up y ≡ true)
              × All (λ z. before z y ≡ false) (keep (suffices beds up) table))
            (some-injective x r is)
            (
              exact-suffices beds up x exact,
              All-imp _ (λ z. before z x ≡ false) _ (λ z h. exact-first beds up x z exact h) enough,
            )
      | inl no_exact ↦ elim (Option-cases (first_row (keep (suffices beds up) table))) [
        | inl empty ↦ absurd (keep-filled _ table some_row empty)
        | inr (x, first) ↦
            let is : some x ≡ some r = rw (no_exact, first) at found in
            subst
              (λ (y : HoursRow).
                (suffices beds up y ≡ true)
                × All (λ z. before z y ≡ false) (keep (suffices beds up) table))
              (some-injective x r is) (first_row-All _ _ x first enough, first_row-min _ x first)
      ]
    ]
