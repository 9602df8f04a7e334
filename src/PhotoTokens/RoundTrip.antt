-- ===== src/PhotoTokens/RoundTrip.antt =====
-- Tokens of photos that are built and then verified.
use clean.Base.{
  ℕ, ◌+◌, ◌-◌, ◌/◌, max, ◌<◌, ◌≡◌, ◌≢◌, refl, ap, true, false, not, ◌&&◌, Option, none, some, leb,
  is_empty, arith, ok, err, >>=-eq-ok, Bool-cases, inl, inr,
}
use clean.Base.Int.{pos}
use mathlib.Core.Path.{subst}
use clean.PhotoTokens.{
  Text, strip, every, is_allowed, normalize_text, normalize_variant, Library, Settings, Payload,
  encode_payload, decode_payload, photo_signing_secret, as_json, unless_null, Claims, parse_claims,
  payload_of, check_ua, bound_ua, hash_user_agent, photo_download, ttl_seconds, second, Request,
  expiry, build_photo_download_token, check_token, Passed, Redis, Answer, taken, created,
  unreachable, enforce_one_time, after_set, verify_photo_download_token,
}
use clean.PhotoTokens.Decoded.{
  IsLibrary, every_imp, strip-free, compare_digest_refl, decode-encode_payload,
}

normalize_kept :
    (l : Library) (t : Text)
    → IsLibrary l
    → is_empty t ≡ false
    → every is_allowed t ≡ true
    → normalize_text l.is_space t ≡ ok (some t)
unfolding normalize_text
normalize_kept l t v filled allowed =
    let free : every (λ c. not (l.is_space c)) t ≡ true =
      every_imp is_allowed (λ c. not (l.is_space c)) t (λ c h. ap not (v.allowed_is_no_space c h))
        allowed in
    rw (strip-free l.is_space t free, filled, allowed) refl

-- A variant that is normalized is not changed again.
normalize_again :
    (l : Library) (t : Text) (r : Option Text)
    → IsLibrary l
    → normalize_text l.is_space t ≡ ok r
    → normalize_variant l (as_json r) ≡ ok r
unfolding normalize_text
normalize_again l t r v went = elim (Bool-cases (is_empty (strip l.is_space t))) [
  | inl blank ↦
      let e : ok none ≡ ok r = rw blank at went in
      let e' : none ≡ r = cc e in subst (λ o. normalize_variant l (as_json o) ≡ ok o) e' refl
  | inr filled ↦ elim (Bool-cases (every is_allowed (strip l.is_space t))) [
    | inl allowed ↦
        let e : ok (some (strip l.is_space t)) ≡ ok r = rw (filled, allowed) at went in
        let e' : some (strip l.is_space t) ≡ r = cc e in
        subst (λ o. normalize_variant l (as_json o) ≡ ok o) e' (normalize_kept l _ v filled allowed)
    | inr foul ↦ let clash : err _ ≡ ok r = rw (filled, foul) at went in cc clash
  ]
]

normalize_variant_again :
    (l : Library) (o r : Option Text)
    → IsLibrary l
    → normalize_variant l (as_json o) ≡ ok r
    → normalize_variant l (as_json r) ≡ ok r
normalize_variant_again l none r v went =
    let e : none ≡ r = cc went in subst (λ o. normalize_variant l (as_json o) ≡ ok o) e refl
normalize_variant_again l (some t) r v went = normalize_again l t r v went

unless_null-as_json : (o : Option Text) → unless_null (as_json o) ≡ as_json o
unless_null-as_json none = refl
unless_null-as_json (some t) = refl

check_ua-bound_ua :
    (l : Library) (g : Settings) (ua : Option Text)
    → IsLibrary l
    → check_ua l (as_json (bound_ua l g ua)) ua ≡ ok tt
check_ua-bound_ua l g ua v = elim (Bool-cases g.photo_token_bind_ua) [
  | inl bound ↦ rw (bound, compare_digest_refl (hash_user_agent l ua) (v.sha256_hex _)) refl
  | inr free ↦ rw free refl
]

ttl_seconds-lt :
    (exp now : ℕ) → now / second < exp → ttl_seconds (pos exp) now ≡ ok (exp - now / second)
unfolding ttl_seconds
ttl_seconds-lt exp now h =
    let early : leb (exp + 0) (now / second + 0) ≡ false = ground arith in rw early refl

-- The claims that a token is asked for with.
pub asked_claims : Library → Settings → Request → ℕ → Option Text → Claims
asked_claims l g q now variant = record {
  org_id = q.org_id;
  order_id = strip l.is_space q.order_id;
  photo_id = strip l.is_space q.photo_id;
  exp = pos (expiry g q.ttl_seconds now);
  ua_hash = as_json (bound_ua l g q.user_agent);
  variant = as_json variant;
}

parse_claims-payload_of :
    (l : Library) (g : Settings) (q : Request) (now : ℕ) (jti : Text) (variant : Option Text)
    → IsLibrary l
    → is_empty (strip l.is_space q.order_id) ≡ false
    → is_empty (strip l.is_space q.photo_id) ≡ false
    → parse_claims l (
        payload_of l q.org_id q.order_id q.photo_id
          (expiry g q.ttl_seconds now)
          photo_download
          jti
          variant
          (bound_ua l g q.user_agent))
      ≡ ok (asked_claims l g q now variant)
unfolding parse_claims payload_of asked_claims
parse_claims-payload_of l g q now jti variant v order photo =
    rw
      (
        v.uuid-str q.org_id,
        v.str-text q.order_id,
        v.str-text q.photo_id,
        v.int-number (expiry g q.ttl_seconds now),
        order,
        photo,
        unless_null-as_json variant,
        unless_null-as_json (bound_ua l g q.user_agent),
      )
      refl

check_token-build :
    (l : Library) (g : Settings) (q : Request) (jti : Text) (now later : ℕ) (variant : Option Text)
    → IsLibrary l
    → normalize_variant l (as_json q.variant) ≡ ok variant
    → is_empty (strip l.is_space q.order_id) ≡ false
    → is_empty (strip l.is_space q.photo_id) ≡ false
    → later / second < expiry g q.ttl_seconds now
    → let p =
        payload_of l q.org_id q.order_id q.photo_id
          (expiry g q.ttl_seconds now)
          photo_download
          jti
          variant
          (bound_ua l g q.user_agent) in
      check_token l g (encode_payload l g p) q.user_agent later
      ≡ ok (record {
        claims = asked_claims l g q now variant;
        signature = l.hmac (photo_signing_secret g) (l.dumps p);
        ttl = expiry g q.ttl_seconds now - later / second;
      })
unfolding check_token payload_of asked_claims
check_token-build l g q jti now later variant v normal order photo early =
    let p =
      payload_of l q.org_id q.order_id q.photo_id (expiry g q.ttl_seconds now) photo_download jti
        variant (bound_ua l g q.user_agent) in
    let decoded = decode-encode_payload l g p v in
    let claims = parse_claims-payload_of l g q now jti variant v order photo in
    let bound = check_ua-bound_ua l g q.user_agent v in
    let again = normalize_variant_again l q.variant variant v normal in
    let left = ttl_seconds-lt (expiry g q.ttl_seconds now) later early in
    rw (decoded, claims, bound, again, left) refl

after_set-untaken :
    {S : Type 0} (c : Claims) (a : S × Answer) → a.1 ≢ taken → (after_set c a).1 ≡ ok c
after_set-untaken c (s, created) free = refl
after_set-untaken c (s, taken) free = absurd (free refl)
after_set-untaken c (s, unreachable) free = refl

enforce_one_time-untaken :
    {S : Type 0} (r : Redis S) (g : Settings) (now : ℕ) (p : Passed) (s : S)
    → ((ex : ℕ) → (r.set p.signature now ex s).1 ≢ taken)
    → (enforce_one_time r g now p s).1 ≡ ok p.claims
unfolding enforce_one_time
enforce_one_time-untaken r g now p s free =
    elim (Bool-cases (g.photo_token_one_time && g.redis_url)) [
      | inl once ↦ rw once (after_set-untaken p.claims _ (free (max p.ttl 1)))
      | inr often ↦ rw often refl
    ]

-- A token that is built for a photo, and verified before it expires for the user agent that asked for
-- it, gives the claims it was asked for with: the organisation, the order and the photo without
-- surrounding space, which are not blank, the expiry, the user agent's hash where tokens are bound to
-- it, and the variant, normalized. Redis does not answer that the token's signature is taken.
pub verify-build_photo_download_token :
    {S : Type 0} (r : Redis S) (l : Library) (g : Settings) (q : Request) (jti token : Text)
    (now later : ℕ) (s : S)
    → IsLibrary l
    → build_photo_download_token l g q jti now ≡ ok token
    → is_empty (strip l.is_space q.order_id) ≡ false
    → is_empty (strip l.is_space q.photo_id) ≡ false
    → later / second < expiry g q.ttl_seconds now
    → ((p : Payload) (signature : Text) (ex : ℕ)
        → decode_payload l g token ≡ ok (p, signature)
        → (r.set signature later ex s).1 ≢ taken)
    → (variant : Option Text) × (normalize_variant l (as_json q.variant) ≡ ok variant)
      × ((verify_photo_download_token r l g token q.user_agent later s).1
          ≡ ok (asked_claims l g q now variant))
unfolding build_photo_download_token verify_photo_download_token
verify-build_photo_download_token r l g q jti token now later s v built order photo early free =
    let (variant, normal, e) = >>=-eq-ok (normalize_variant l (as_json q.variant)) _ built in
    let p =
      payload_of l q.org_id q.order_id q.photo_id (expiry g q.ttl_seconds now) photo_download jti
        variant (bound_ua l g q.user_agent) in
    let is_token : encode_payload l g p ≡ token = cc e in
    let decoded =
      subst (λ t. decode_payload l g t ≡ ok (p, l.hmac (photo_signing_secret g) (l.dumps p)))
        is_token (decode-encode_payload l g p v) in
    let checked = check_token-build l g q jti now later variant v normal order photo early in
    (
      variant,
      normal,
      subst
          (λ t.
            (verify_photo_download_token r l g t q.user_agent later s).1
            ≡ ok (asked_claims l g q now variant))
          is_token
          (rw checked (enforce_one_time-untaken r g later _ s (λ ex. free p _ ex decoded))),
    )
