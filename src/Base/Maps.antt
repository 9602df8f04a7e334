-- ===== src/Base/Maps.antt =====
-- A dictionary whose keys are only compared: a function from keys to what is stored under them.
use Prim.Native.Nat.{ℕ}
use mathlib.Core.Bool.{false}
use mathlib.Core.Logic.{inl, inr}
use mathlib.Core.Option.{Option, none, some, some-injective}
use mathlib.Core.Path.{◌≡◌, subst, sym, ap, ◌∙◌}
use native.Mathlib.Omega.{arith}
use clean.Base.Tests.{◌==◌, if◌then◌else◌, Bool-cases}

module _ {ℓ} {V : Type ℓ} where
  abbrev pub empty : ℕ → Option V
  empty _ = none

  -- `d[k] = v`
  abbrev pub put : ℕ → V → (ℕ → Option V) → ℕ → Option V
  put k v d j = if k == j then some v else d j

  -- `d.get(k, v)`
  abbrev pub get_or : Option V → V → V
  get_or none v = v
  get_or (some u) _ = u

  -- A property of all that is stored under other keys, and of one more thing.
  pub put-keeps_ne {κ} :
      (P : ℕ → V → Type κ) (k : ℕ) (v : V) (d : ℕ → Option V)
      → ((j : ℕ) (u : V) → (k == j) ≡ false → d j ≡ some u → P j u)
      → P k v
      → (j : ℕ) (u : V) → put k v d j ≡ some u
      → P j u
  put-keeps_ne P k v d all new j u e = elim (Bool-cases (k == j)) [
    | inl here ↦
        let same : k ≡ j = ground arith in
        let e' : some v ≡ some u = rw here at e in
        subst (λ i. P i u) same (subst (P k) (some-injective v u e') new)
    | inr other ↦ all j u other (rw other at e)
  ]

  pub put-keeps {κ} :
      (P : ℕ → V → Type κ) (k : ℕ) (v : V) (d : ℕ → Option V)
      → ((j : ℕ) (u : V) → d j ≡ some u → P j u)
      → P k v
      → (j : ℕ) (u : V) → put k v d j ≡ some u
      → P j u
  put-keeps P k v d all new = put-keeps_ne P k v d (λ j u _ e. all j u e) new

  -- Storing over `old` what follows it by `R`: every entry is still there, as it was or after `R`.
  pub put-follows {κ} :
      (R : V → V → Type κ) (k : ℕ) (old new : V) (d : ℕ → Option V)
      → ((v : V) → R v v)
      → d k ≡ some old
      → R old new
      → (j : ℕ) (u : V) → d j ≡ some u
      → (u' : V) × (put k new d j ≡ some u') × R u u'
  put-follows R k old new d same stored step j u e = elim (Bool-cases (k == j)) [
    | inl here ↦
        let eq : k ≡ j = ground arith in
        let e' : some old ≡ some u = sym stored ∙ ap d eq ∙ e in
        (new, rw here, subst (λ v. R v new) (some-injective old u e') step)
    | inr other ↦ (u, rw other e, same u)
  ]

  -- Storing under a key that holds nothing leaves every entry as it was.
  pub put-untaken :
      (k : ℕ) (v : V) (d : ℕ → Option V)
      → d k ≡ none
      → (j : ℕ) (u : V) → d j ≡ some u
      → put k v d j ≡ some u
  put-untaken k v d free j u e = elim (Bool-cases (k == j)) [
    | inl here ↦
        let eq : k ≡ j = ground arith in
        let clash : none ≡ some u = sym free ∙ ap d eq ∙ e in cc clash
    | inr other ↦ rw other e
  ]
