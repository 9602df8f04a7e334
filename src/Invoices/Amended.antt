-- ===== src/Invoices/Amended.antt =====
-- Rows of payments that are amended twice.
use clean.Base.{
  ℕ, ◌≡◌, refl, Bool, true, false, List, [], ◌∷◌, Option, none, some, ◌or_else◌, Bool-cases, inl,
  inr, arith,
}
use clean.Invoices.{Payment, Receipt, any_row, update_first, chosen, amend, by_ref, by_session}

module _ (test : Payment → Bool) (f : Payment → Payment) where
  any-update_first :
      (ps : List Payment)
      → ((p : Payment) → test p ≡ true → test (f p) ≡ true)
      → any_row test ps ≡ true
      → any_row test (update_first test f ps) ≡ true
  unfolding update_first
  any-update_first [] k h = h
  any-update_first (p ∷ ps) k h = elim (Bool-cases (test p)) [
    | inl here ↦ rw here (ground (arith, k p here))
    | inr there ↦
        let h' : any_row test ps ≡ true = rw there at h in
        rw (there, there) (any-update_first ps k h')
  ]

  update_first_idem :
      (ps : List Payment)
      → ((p : Payment) → test p ≡ true → test (f p) ≡ true)
      → ((p : Payment) → f (f p) ≡ f p)
      → update_first test f (update_first test f ps) ≡ update_first test f ps
  unfolding update_first
  update_first_idem [] k i = refl
  update_first_idem (p ∷ ps) k i = elim (Bool-cases (test p)) [
    | inl here ↦ rw (here, k p here, i p) refl
    | inr there ↦ rw (there, there, update_first_idem ps k i) refl
  ]

  -- Another test, that no row passed before, finds the updated row or none.
  update_first_other :
      (other : Payment → Bool) (ps : List Payment)
      → ((p : Payment) → f (f p) ≡ f p)
      → any_row other ps ≡ false
      → any_row other (update_first test f ps) ≡ true
      → update_first other f (update_first test f ps) ≡ update_first test f ps
  unfolding update_first
  update_first_other other [] i none_yet h = cc
  update_first_other other (p ∷ ps) i none_yet h = elim (Bool-cases (test p)) [
    | inl here ↦
        let found : other (f p) ≡ true = ground (arith, rw here at h) in rw (here, found, i p) refl
    | inr there ↦
        let not_here : other p ≡ false = ground arith in
        rw
          (
            there,
            not_here,
            update_first_other other ps i (ground arith) (rw (there, not_here) at h),
          )
          refl
  ]

module _ {ℓ} {A : Type ℓ} where
  or_else_right : (a b : Option A) → ((a or_else b) or_else b) ≡ (a or_else b)
  or_else_right none none = refl
  or_else_right none (some b) = refl
  or_else_right (some a) b = refl

  or_else_left : (a b : Option A) → (a or_else a or_else b) ≡ (a or_else b)
  or_else_left none b = refl
  or_else_left (some a) b = refl

  or_else_twice :
      (a b c : Option A) → (a or_else b or_else a or_else b or_else c) ≡ (a or_else b or_else c)
  or_else_twice none none c = refl
  or_else_twice none (some b) c = refl
  or_else_twice (some a) b c = refl

  pub or_else_self : (a : Option A) → (a or_else a) ≡ a
  or_else_self none = refl
  or_else_self (some a) = refl

  pub or_else_again : (a b : Option A) → (a or_else b or_else a or_else b) ≡ (a or_else b)
  or_else_again none none = refl
  or_else_again none (some b) = refl
  or_else_again (some a) b = refl

amend_idem : (r : Receipt) (p : Payment) → amend r (amend r p) ≡ amend r p
unfolding amend
amend_idem r p =
    rw
      (
        or_else_right p.provider_ref r.provider_ref,
        or_else_left r.checkout_session_id p.checkout_session_id,
        or_else_twice r.payment_intent_id r.provider_ref p.payment_intent_id,
        or_else_left r.received_at p.received_at,
        or_else_left r.reference p.reference,
      )
      refl

pub amend-by_ref : (r : Receipt) (p : Payment) → by_ref r p ≡ true → by_ref r (amend r p) ≡ true
unfolding amend
amend-by_ref r p h = ground arith

amend-by_session :
    (id : ℕ) (r : Receipt) (p : Payment)
    → by_session id r p ≡ true
    → by_session id r (amend r p) ≡ true
unfolding amend
amend-by_session id r p h = ground arith

-- Amending a row that was found, once more, changes nothing, and finds a row again.
pub amended_again :
    (id : ℕ) (r : Receipt) (ps : List Payment)
    → let test = chosen (by_ref r) (by_session id r) ps in
      let ps' = update_first test (amend r) ps in
      let test' = chosen (by_ref r) (by_session id r) ps' in
      any_row test ps ≡ true → (any_row test' ps' ≡ true) × (update_first test' (amend r) ps' ≡ ps')
unfolding chosen
amended_again id r ps h = elim (Bool-cases (any_row (by_ref r) ps)) [
  | inl referred ↦
      let found : any_row (by_ref r) (update_first (by_ref r) (amend r) ps) ≡ true =
        any-update_first (by_ref r) (amend r) ps (amend-by_ref r) referred in
      rw (referred, found)
        (found, update_first_idem (by_ref r) (amend r) ps (amend-by_ref r) (amend_idem r))
  | inr not_referred ↦
      let h' : any_row (by_session id r) ps ≡ true = rw not_referred at h in
      let ps' = update_first (by_session id r) (amend r) ps in
      let found : any_row (by_session id r) ps' ≡ true =
        any-update_first (by_session id r) (amend r) ps (amend-by_session id r) h' in
      elim (Bool-cases (any_row (by_ref r) ps')) [
        | inl now_referred ↦
            rw (not_referred, now_referred)
              (
                now_referred,
                update_first_other (by_session id r) (amend r) (by_ref r) ps (amend_idem r)
                    not_referred now_referred,
              )
        | inr still_not ↦
            rw (not_referred, still_not)
              (
                found,
                update_first_idem (by_session id r) (amend r) ps (amend-by_session id r)
                    (amend_idem r),
              )
      ]
]
