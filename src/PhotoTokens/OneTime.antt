-- ===== src/PhotoTokens/OneTime.antt =====
-- Tokens that may be used once.
use clean.Base.{
  ℕ, ◌+◌, ◌*◌, ◌/◌, ◌≤◌, ◌<◌, max, ◌≡◌, ◌≢◌, refl, sym, ap, ◌∙◌, true, ◌&&◌, List, [], ◌∷◌, Option,
  Result, ok, err,
}
use clean.Base.Int.{pos_part}
use mathlib.Core.Path.{subst}
use clean.PhotoTokens.{
  Text, Error, already_used, Library, Settings, Payload, decode_payload, Claims, parse_claims,
  second, check_token, Passed, Redis, taken, created, unreachable, after_set, after_check,
  enforce_one_time, verify_photo_download_token,
}
use clean.PhotoTokens.Checked.{
  InTime, check_token-InTime, ttl_seconds-left, after_set-state, after_set-eq-ok, after_set-taken,
  held_late, still_held,
}

-- Redis while it can be reached: a key that is set is held for the seconds it was given, whatever is
-- set in between, and as long as it is held it cannot be set again.
pub record IsUp {S : Type 0} (r : Redis S) : Type 1 where
  pub Held : Text → ℕ → S → Type 0  -- until a time
  pub set-created-Held :
      (k : Text) (now ex : ℕ) (s : S)
      → (r.set k now ex s).1 ≡ created
      → Held k (now + ex * second) (r.set k now ex s).0
  pub set-keeps-Held :
      (k j : Text) (now ex until : ℕ) (s : S) → Held k until s → Held k until (r.set j now ex s).0
  pub set-Held-taken :
      (k : Text) (now ex until : ℕ) (s : S)
      → Held k until s
      → now < until
      → (r.set k now ex s).1 ≡ taken
  pub set_reached : (k : Text) (now ex : ℕ) (s : S) → (r.set k now ex s).1 ≢ unreachable

-- A call of `verify_photo_download_token`.
pub record Visit : Type 0 where
  pub token : Text
  pub user_agent : Option Text
  pub now : ℕ

-- What is left of Redis after some visits.
unfoldable pub run : {S : Type 0} → Redis S → Library → Settings → List Visit → S → S
run r l g [] s = s
run r l g (v ∷ vs) s =
    run r l g vs (verify_photo_download_token r l g v.token v.user_agent v.now s).0

module _ {S : Type 0} (r : Redis S) (l : Library) (g : Settings) (up : IsUp r)
    (once : (g.photo_token_one_time && g.redis_url) ≡ true) where
  enforced :
      (now : ℕ) (p : Passed) (s : S)
      → enforce_one_time r g now p s ≡ after_set p.claims (r.set p.signature now (max p.ttl 1) s)
  unfolding enforce_one_time
  enforced now p s = rw once refl

  after_check-keeps-Held :
      (k : Text) (until now : ℕ) (c : Result Error Passed) (s : S)
      → up.Held k until s
      → up.Held k until (after_check r g now c s).0
  after_check-keeps-Held k until now (err e) s held = held
  after_check-keeps-Held k until now (ok p) s held =
      let kept = up.set-keeps-Held k p.signature now (max p.ttl 1) until s held in
      let state =
        ap (λ (a : S × Result Error Claims). a.0) (enforced now p s)
        ∙ after_set-state p.claims (r.set p.signature now (max p.ttl 1) s) in
      subst (up.Held k until) (sym state) kept

  run-keeps-Held :
      (k : Text) (until : ℕ) (vs : List Visit) (s : S)
      → up.Held k until s
      → up.Held k until (run r l g vs s)
  unfolding run verify_photo_download_token
  run-keeps-Held k until [] s held = held
  run-keeps-Held k until (v ∷ vs) s held =
      run-keeps-Held k until vs _
        (after_check-keeps-Held k until v.now (check_token l g v.token v.user_agent v.now) s held)

  -- A token that was accepted is held until it expires.
  record Used (token : Text) (s : S) : Type 0 where
    signature : Text
    payload : Payload
    claims : Claims
    until : ℕ
    is_decoded : decode_payload l g token ≡ ok (payload, signature)
    is_parsed : parse_claims l payload ≡ ok claims
    is_late : pos_part claims.exp * second ≤ until
    is_held : up.Held signature until s

  after_check-Used :
      (token : Text) (now : ℕ) (c : Result Error Passed) (claims : Claims) (s : S)
      → ((p : Passed) → c ≡ ok p → InTime l g token now p)
      → (after_check r g now c s).1 ≡ ok claims
      → Used token (after_check r g now c s).0
  after_check-Used token now (err e) claims s passed went = cc went
  after_check-Used token now (ok p) claims s passed went =
      let t = passed p refl in
      let a = r.set p.signature now (max p.ttl 1) s in
      let (early, left) = ttl_seconds-left t.claims.exp now p.ttl t.is_left in
      let e = enforced now p s in
      let went' = subst (λ (o : S × Result Error Claims). o.1 ≡ ok claims) e went in
      let set =
        after_set-eq-ok p.claims claims a (up.set_reached p.signature now (max p.ttl 1) s) went' in
      let held = up.set-created-Held p.signature now (max p.ttl 1) s set in
      let state = ap (λ (o : S × Result Error Claims). o.0) e ∙ after_set-state p.claims a in
      record {
        signature = p.signature;
        payload = t.payload;
        claims = t.claims;
        until = now + max p.ttl 1 * second;
        is_decoded = t.is_decoded;
        is_parsed = t.is_parsed;
        is_late = held_late (pos_part t.claims.exp) now p.ttl early left;
        is_held = subst (up.Held p.signature (now + max p.ttl 1 * second)) (sym state) held;
      }

  refused :
      (token token' : Text) (now : ℕ) (c : Result Error Passed) (s : S)
      → ((p : Passed) → c ≡ ok p → InTime l g token' now p)
      → decode_payload l g token' ≡ decode_payload l g token
      → Used token s
      → (e : Error) × ((after_check r g now c s).1 ≡ err e)
  refused token token' now (err e) s passed same u = (e, refl)
  refused token token' now (ok p) s passed same u =
      let t = passed p refl in
      let both : ◌≡◌ {A = Result Error (Payload × Text)} (ok (t.payload, p.signature))
          (ok (u.payload, u.signature)) =
        sym t.is_decoded ∙ same ∙ u.is_decoded in
      let payload_is : t.payload ≡ u.payload = cc both in
      let signature_is : u.signature ≡ p.signature = cc both in
      let claims_are : ◌≡◌ {A = Result Error Claims} (ok t.claims) (ok u.claims) =
        sym t.is_parsed ∙ ap (parse_claims l) payload_is ∙ u.is_parsed in
      let exp_is : t.claims ≡ u.claims = cc claims_are in
      let (early, _) = ttl_seconds-left t.claims.exp now p.ttl t.is_left in
      let early' = subst (λ (c : Claims). now / second < pos_part c.exp) exp_is early in
      let held = subst (λ k. up.Held k u.until s) signature_is u.is_held in
      let answer =
        up.set-Held-taken p.signature now (max p.ttl 1) u.until s held
          (still_held (pos_part u.claims.exp) u.until now u.is_late early') in
      let raised = after_set-taken p.claims (r.set p.signature now (max p.ttl 1) s) answer in
      (
        already_used,
        subst (λ (o : S × Result Error Claims). o.1 ≡ err already_used) (sym (enforced now p s))
            raised,
      )

-- Where tokens may be used once and Redis is up, a token that was accepted is refused from then on:
-- after any other visits, at any time and for any user agent, also as another text with the same
-- payload and signature.
pub used_token_is_refused :
    {S : Type 0} (r : Redis S) (l : Library) (g : Settings) (token token' : Text)
    (ua ua' : Option Text) (now now' : ℕ) (vs : List Visit) (claims : Claims) (s : S)
    → IsUp r
    → (g.photo_token_one_time && g.redis_url) ≡ true
    → decode_payload l g token' ≡ decode_payload l g token
    → (verify_photo_download_token r l g token ua now s).1 ≡ ok claims
    → let s' = run r l g vs (verify_photo_download_token r l g token ua now s).0 in
      (e : Error) × ((verify_photo_download_token r l g token' ua' now' s').1 ≡ err e)
unfolding verify_photo_download_token
used_token_is_refused r l g token token' ua ua' now now' vs claims s up once same went =
    let c = check_token l g token ua now in
    let u =
      after_check-Used r l g up once token now c claims s (check_token-InTime l g token ua now)
        went in
    let s' = run r l g vs (after_check r g now c s).0 in
    let u' : Used r l g up once token s' = record {
      signature = u.signature;
      payload = u.payload;
      claims = u.claims;
      until = u.until;
      is_decoded = u.is_decoded;
      is_parsed = u.is_parsed;
      is_late = u.is_late;
      is_held = run-keeps-Held r l g up once u.signature u.until vs _ u.is_held;
    } in
    refused r l g up once token token' now' (check_token l g token' ua' now') s'
      (check_token-InTime l g token' ua' now') same u'
