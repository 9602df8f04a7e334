-- ===== src/PhotoTokens/Keys.antt =====
-- A Redis that behaves as is documented.
use clean.Base.{
  ℕ, ◌+◌, ◌*◌, ◌<◌, ◌≡◌, ◌≢◌, refl, Bool, true, false, ◌&&◌, List, [], ◌∷◌, ltb, leb, any, arith,
  Bool-cases, inl, inr,
}
use clean.PhotoTokens.{Text, same_text, second, Redis, Answer, taken, created, unreachable}
use clean.PhotoTokens.Decoded.{same_text_refl}
use clean.PhotoTokens.OneTime.{IsUp}

-- The keys that are set, with the times until which they are held.
abbrev pub Entries : Type 0
Entries = List (Text × ℕ)

abbrev held_until : Text → ℕ → Text × ℕ → Bool
held_until k t (j, u) = same_text j k && leb t u

abbrev is_held : Text → ℕ → Text × ℕ → Bool
is_held k now (j, u) = same_text j k && ltb now u

abbrev pub set_if_free : Bool → Text × ℕ → Entries → Entries × Answer
set_if_free true e s = (s, taken)
set_if_free false e s = (e ∷ s, created)

abbrev pub sample_redis : Redis Entries
sample_redis = record {
  set = λ k now ex s. set_if_free (any (is_held k now) s) (k, now + ex * second) s;
}

held_still :
    (k : Text) (now until : ℕ) (s : Entries)
    → now < until
    → any (held_until k until) s ≡ true
    → any (is_held k now) s ≡ true
held_still k now until [] late h = cc h
held_still k now until ((j, u) ∷ s) late h = elim (Bool-cases (held_until k until (j, u))) [
  | inl here ↦ let held : is_held k now (j, u) ≡ true = ground arith in rw held refl
  | inr other_key ↦
      let rest : any (held_until k until) s ≡ true = rw other_key at h in
      rw (held_still k now until s late rest) (ground arith)
]

set-created :
    (free : Bool) (k : Text) (until : ℕ) (s : Entries)
    → (set_if_free free (k, until) s).1 ≡ created
    → any (held_until k until) (set_if_free free (k, until) s).0 ≡ true
set-created true k until s e = cc e
set-created false k until s e =
    let now : leb until until ≡ true = ground arith in rw (same_text_refl k, now) refl

set-keeps :
    (free : Bool) (k : Text) (until : ℕ) (e : Text × ℕ) (s : Entries)
    → any (held_until k until) s ≡ true
    → any (held_until k until) (set_if_free free e s).0 ≡ true
set-keeps true k until e s h = h
set-keeps false k until e s h = rw h (ground arith)

set-reached : (free : Bool) (e : Text × ℕ) (s : Entries) → (set_if_free free e s).1 ≢ unreachable
set-reached true e s h = cc h
set-reached false e s h = cc h

pub sample_redis-IsUp : IsUp sample_redis
sample_redis-IsUp = record {
  Held = λ k until s. any (held_until k until) s ≡ true;
  set-created-Held = λ k now ex s h. set-created (any (is_held k now) s) k (now + ex * second) s h;
  set-keeps-Held =
      λ k j now ex until s h. set-keeps (any (is_held j now) s) k until (j, now + ex * second) s h;
  set-Held-taken = λ k now ex until s h late. rw (held_still k now until s late h) refl;
  set_reached = λ k now ex s. set-reached (any (is_held k now) s) (k, now + ex * second) s;
}
