-- ===== src/PhotoTokens/Checked.antt =====
-- What a token that passes its tests has, and how Redis decides over it.
use clean.Base.{
  ℕ, suc, ◌+◌, ◌-◌, ◌*◌, ◌/◌, ◌≤◌, ◌<◌, max, ◌≡◌, ◌≢◌, refl, sym, true, not, Option, leb, arith, ok,
  err, raise_if, >>=-eq-ok, Bool-cases, inl, inr,
}
use clean.Base.Int.{ℤ, pos, negsuc, pos_part}
use mathlib.Core.Path.{subst}
use clean.PhotoTokens.{
  Text, invalid_token, already_used, normalize_variant, Library, Settings, Payload, decode_payload,
  Claims, parse_claims, check_ua, ttl_seconds, second, check_token, Passed, Answer, taken, created,
  unreachable, after_set, is_download, typ_key, as_json,
}

-- What a token that passes has in its text, and that it has not expired.
pub record InTime (l : Library) (g : Settings) (token : Text) (now : ℕ) (p : Passed) : Type 0 where
  pub payload : Payload
  pub claims : Claims
  pub is_decoded : decode_payload l g token ≡ ok (payload, p.signature)
  pub is_parsed : parse_claims l payload ≡ ok claims
  pub is_left : ttl_seconds claims.exp now ≡ ok p.ttl

pub check_token-InTime :
    (l : Library) (g : Settings) (token : Text) (ua : Option Text) (now : ℕ) (p : Passed)
    → check_token l g token ua now ≡ ok p
    → InTime l g token now p
unfolding check_token
check_token-InTime l g token ua now p went =
    let ((payload, signature), e1, w1) = >>=-eq-ok (decode_payload l g token) _ went in
    let (_, _, w2) =
      >>=-eq-ok (raise_if (not (is_download (payload typ_key))) invalid_token) _ w1 in
    let (claims, e3, w3) = >>=-eq-ok (parse_claims l payload) _ w2 in
    let (_, _, w4) = >>=-eq-ok (check_ua l claims.ua_hash ua) _ w3 in
    let (variant, _, w5) = >>=-eq-ok (normalize_variant l claims.variant) _ w4 in
    let (ttl, e6, w6) = >>=-eq-ok (ttl_seconds claims.exp now) _ w5 in
    let p_is : record {
      claims = record claims { variant = as_json variant };
      signature = signature;
      ttl = ttl;
    }
        ≡ p =
      cc w6 in
    subst (InTime l g token now) p_is
      (record { payload = payload; claims = claims; is_decoded = e1; is_parsed = e3; is_left = e6 })

pub ttl_seconds-left :
    (exp : ℤ) (now ttl : ℕ)
    → ttl_seconds exp now ≡ ok ttl
    → (now / second < pos_part exp) × (ttl ≡ pos_part exp - now / second)
unfolding ttl_seconds
ttl_seconds-left (pos n) now ttl went = elim (Bool-cases (leb (n + 0) (now / second + 0))) [
  | inl late ↦ let clash : err invalid_token ≡ ok ttl = rw late at went in cc clash
  | inr early ↦
      let e : ok (n - now / second) ≡ ok ttl = rw early at went in
      let e' : n - now / second ≡ ttl = cc e in (ground arith, sym e')
]
ttl_seconds-left (negsuc n) now ttl went =
    let late : leb 0 (now / second + suc n) ≡ true = ground arith in
    let clash : err invalid_token ≡ ok ttl = rw late at went in cc clash

pub after_set-state : {S : Type 0} (c : Claims) (a : S × Answer) → (after_set c a).0 ≡ a.0
after_set-state c (s, created) = refl
after_set-state c (s, taken) = refl
after_set-state c (s, unreachable) = refl

pub after_set-eq-ok :
    {S : Type 0} (c c' : Claims) (a : S × Answer)
    → a.1 ≢ unreachable
    → (after_set c a).1 ≡ ok c'
    → a.1 ≡ created
after_set-eq-ok c c' (s, created) up went = refl
after_set-eq-ok c c' (s, taken) up went = cc went
after_set-eq-ok c c' (s, unreachable) up went = absurd (up refl)

pub after_set-taken :
    {S : Type 0} (c : Claims) (a : S × Answer) → a.1 ≡ taken → (after_set c a).1 ≡ err already_used
after_set-taken c (s, created) e = cc e
after_set-taken c (s, taken) e = refl
after_set-taken c (s, unreachable) e = cc e

pub held_late :
    (exp now ttl : ℕ)
    → now / second < exp
    → ttl ≡ exp - now / second
    → exp * second ≤ now + max ttl 1 * second
held_late exp now ttl early left = omega (arith, early, left)

pub still_held : (exp until now : ℕ) → exp * second ≤ until → now / second < exp → now < until
still_held exp until now late early = omega (arith, late, early)
