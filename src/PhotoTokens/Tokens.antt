-- ===== src/PhotoTokens/Tokens.antt =====
-- The tokens of app/api/photo_tokens.py: `build_photo_download_token` and
-- `verify_photo_download_token`. Times are microseconds, those of a payload seconds.
use clean.Base.{
  ℕ, ◌+◌, ◌-◌, ◌*◌, ◌/◌, Bool, false, not, ◌&&◌, ◌||◌, [], ◌∷◌, Option, none, some, max, ◌==◌,
  if◌then◌else◌, is_empty, Result, ok, err, raise_if, or_raise, ◌>>=◌, ◌>>◌,
}
use clean.Base.Int.{ℤ, pos, pos_part, leb_ℤ}
use clean.PhotoTokens.Strings.{
  Text, Error, invalid_token, already_used, type_error, strip, same_text, compare_digest,
  normalize_text,
}
use clean.PhotoTokens.Payloads.{
  Json, text, number, null, other, org_id_key, order_id_key, photo_id_key, exp_key, typ_key,
  jti_key, variant_key, ua_key, Payload, Library, Settings, hash_user_agent, encode_payload,
  decode_payload,
}

-- Redis over its states: `SET key 1 EX ex NX` at a time.
pub data Answer : Type 0 where
  created taken unreachable : Answer

pub record Redis (S : Type 0) : Type 0 where
  pub set : Text → ℕ → ℕ → S → S × Answer

abbrev pub second : ℕ
second = 1_000_000

-- `PhotoTokenClaims`, with the values that the payload has under `ua` and `variant`.
pub record Claims : Type 0 where
  pub org_id : ℕ
  pub order_id : Text
  pub photo_id : Text
  pub exp : ℤ
  pub ua_hash : Option Json
  pub variant : Option Json

-- `None` and `null` are the same.
abbrev pub unless_null : Option Json → Option Json
unless_null none = none
unless_null (some null) = none
unless_null (some (text t)) = some (text t)
unless_null (some (number n)) = some (number n)
unless_null (some other) = some other

-- `_parse_claims`
unfoldable pub parse_claims : Library → Payload → Result Error Claims
parse_claims l payload = do
  org_json ← or_raise (payload org_id_key) invalid_token
  org_id ← or_raise (l.uuid org_json) invalid_token
  order_json ← or_raise (payload order_id_key) invalid_token
  let order_id = strip l.is_space (l.str order_json)
  photo_json ← or_raise (payload photo_id_key) invalid_token
  let photo_id = strip l.is_space (l.str photo_json)
  exp_json ← or_raise (payload exp_key) invalid_token
  exp ← or_raise (l.int exp_json) invalid_token
  raise_if (is_empty order_id || is_empty photo_id) invalid_token
  ok (record {
    org_id = org_id;
    order_id = order_id;
    photo_id = photo_id;
    exp = exp;
    ua_hash = unless_null (payload ua_key);
    variant = unless_null (payload variant_key);
  })

-- `_ttl_seconds`, at a time.
unfoldable pub ttl_seconds : ℤ → ℕ → Result Error ℕ
ttl_seconds exp now = do
  raise_if (leb_ℤ exp (pos (now / second))) invalid_token
  ok (pos_part exp - now / second)

-- `normalize_variant`; a value that is no text has no `strip`.
abbrev pub normalize_variant : Library → Option Json → Result Error (Option Text)
normalize_variant l none = ok none
normalize_variant l (some (text t)) = normalize_text l.is_space t
normalize_variant l (some _) = err type_error

abbrev pub as_json : Option Text → Option Json
as_json none = none
as_json (some t) = some (text t)

-- The payload that `build_photo_download_token` signs; `jti` is a random text.
unfoldable pub payload_of :
    Library → ℕ → Text → Text → ℕ → Text → Text → Option Text → Option Text → Payload
payload_of l org order photo exp typ jti variant ua org_id_key = some (text (l.str_uuid org))
payload_of l org order photo exp typ jti variant ua order_id_key = some (text order)
payload_of l org order photo exp typ jti variant ua photo_id_key = some (text photo)
payload_of l org order photo exp typ jti variant ua exp_key = some (number (pos exp))
payload_of l org order photo exp typ jti variant ua typ_key = some (text typ)
payload_of l org order photo exp typ jti variant ua jti_key = some (text jti)
payload_of l org order photo exp typ jti variant ua variant_key = as_json variant
payload_of l org order photo exp typ jti variant ua ua_key = as_json ua

-- `"photo_download"`
abbrev pub photo_download : Text
photo_download =
    112 ∷ 104 ∷ 111 ∷ 116 ∷ 111 ∷ 95 ∷ 100 ∷ 111 ∷ 119 ∷ 110 ∷ 108 ∷ 111 ∷ 97 ∷ 100 ∷ []

-- `ttl_seconds or settings.photo_url_ttl_seconds`
abbrev pub ttl_or_default : Settings → Option ℕ → ℕ
ttl_or_default g none = g.photo_url_ttl_seconds
ttl_or_default g (some n) = if n == 0 then g.photo_url_ttl_seconds else n

abbrev pub expiry : Settings → Option ℕ → ℕ → ℕ
expiry g ttl now = (now + ttl_or_default g ttl * second) / second

abbrev pub bound_ua : Library → Settings → Option Text → Option Text
bound_ua l g ua = if g.photo_token_bind_ua then some (hash_user_agent l ua) else none

-- What a token is asked for with.
pub record Request : Type 0 where
  pub org_id : ℕ
  pub order_id : Text
  pub photo_id : Text
  pub user_agent : Option Text
  pub ttl_seconds : Option ℕ
  pub variant : Option Text

-- `build_photo_download_token`
unfoldable pub build_photo_download_token :
    Library → Settings → Request → Text → ℕ → Result Error Text
build_photo_download_token l g q jti now = do
  variant ← normalize_variant l (as_json q.variant)
  ok (
      encode_payload l g (
        payload_of l q.org_id q.order_id q.photo_id (expiry g q.ttl_seconds now) photo_download jti
          variant (bound_ua l g q.user_agent)))

abbrev pub is_download : Option Json → Bool
is_download (some (text t)) = same_text t photo_download
is_download _ = false

-- The test of the user agent; a hash that is no text cannot be compared.
abbrev pub check_ua : Library → Option Json → Option Text → Result Error (Unit {0})
check_ua l none ua = ok tt
check_ua l (some (text h)) ua =
    compare_digest h (hash_user_agent l ua) >>= λ is_same. raise_if (not is_same) invalid_token
check_ua l (some _) ua = err type_error

-- What a token that passes all tests gives: its claims, its signature and the seconds left.
pub record Passed : Type 0 where
  pub claims : Claims
  pub signature : Text
  pub ttl : ℕ

-- `verify_photo_download_token`, up to the call of `_enforce_one_time`.
unfoldable pub check_token : Library → Settings → Text → Option Text → ℕ → Result Error Passed
check_token l g token ua now = do
  (payload, signature) ← decode_payload l g token
  raise_if (not (is_download (payload typ_key))) invalid_token
  claims ← parse_claims l payload
  check_ua l claims.ua_hash ua
  variant ← normalize_variant l claims.variant
  ttl ← ttl_seconds claims.exp now
  ok (record {
    claims = record claims { variant = as_json variant };
    signature = signature;
    ttl = ttl;
  })

abbrev pub after_set : {S : Type 0} → Claims → S × Answer → S × Result Error Claims
after_set claims (s, created) = (s, ok claims)
after_set claims (s, taken) = (s, err already_used)
after_set claims (s, unreachable) = (s, ok claims)

-- `_enforce_one_time`, and the claims that are given if it does not raise.
unfoldable pub enforce_one_time :
    {S : Type 0} → Redis S → Settings → ℕ → Passed → S → S × Result Error Claims
enforce_one_time r g now p s =
    if g.photo_token_one_time && g.redis_url
    then after_set p.claims (r.set p.signature now (max p.ttl 1) s)
    else (s, ok p.claims)

abbrev pub after_check :
    {S : Type 0} → Redis S → Settings → ℕ → Result Error Passed → S → S × Result Error Claims
after_check r g now (err e) s = (s, err e)
after_check r g now (ok p) s = enforce_one_time r g now p s

-- `verify_photo_download_token`
unfoldable pub verify_photo_download_token :
    {S : Type 0}
    → Redis S
    → Library
    → Settings
    → Text
    → Option Text
    → ℕ
    → S
    → S × Result Error Claims
verify_photo_download_token r l g token ua now s =
    after_check r g now (check_token l g token ua now) s
