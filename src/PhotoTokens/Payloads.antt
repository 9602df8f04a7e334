-- ===== src/PhotoTokens/Payloads.antt =====
-- The payloads of app/api/photo_tokens.py, and how they are signed and read.
use clean.Base.{
  ℕ, ◌-◌, ◌%◌, Bool, not, [], ◌∷◌, ◌++◌, Option, none, some, ◌==◌, length, get_or, ◌or_else◌,
  Result, ok, raise_if, or_raise, ◌>>=◌, ◌>>◌,
}
use clean.Base.Int.{ℤ}
use clean.PhotoTokens.Strings.{
  Text, dot, equals_sign, Error, invalid_token, rstrip, rsplit, repeat, compare_digest,
}

-- A value of JSON; lists, objects and other values are not told apart.
pub data Json : Type 0 where
  text : Text → Json
  number : ℤ → Json
  null other : Json

-- The keys of a payload.
pub data Key : Type 0 where
  org_id_key order_id_key photo_id_key exp_key typ_key jti_key variant_key ua_key : Key

abbrev pub Payload : Type 0
Payload = Key → Option Json

-- The libraries: `json`, `base64`, `hmac` with its hex digest, `sha256`, and Python's `uuid.UUID`,
-- `str` and `int`; absent is what raises.
pub record Library : Type 0 where
  pub dumps : Payload → Text
  pub loads : Text → Option Payload
  pub b64encode : Text → Text
  pub b64decode : Text → Option Text
  pub hmac : Text → Text → Text
  pub sha256 : Text → Text
  pub str_uuid : ℕ → Text
  pub uuid : Json → Option ℕ
  pub str : Json → Text
  pub int : Json → Option ℤ
  pub is_space : ℕ → Bool

pub record Settings : Type 0 where
  pub photo_token_secret : Option Text
  pub order_photo_signing_secret : Option Text
  pub auth_secret_key : Text
  pub photo_url_ttl_seconds : ℕ
  pub photo_token_bind_ua : Bool
  pub photo_token_one_time : Bool
  pub redis_url : Bool  -- whether there is one

-- Python's truth of a text.
abbrev pub unless_empty : Option Text → Option Text
unless_empty none = none
unless_empty (some []) = none
unless_empty (some (c ∷ cs)) = some (c ∷ cs)

-- `_photo_signing_secret`
abbrev pub photo_signing_secret : Settings → Text
photo_signing_secret g =
    get_or (unless_empty g.photo_token_secret or_else unless_empty g.order_photo_signing_secret)
      g.auth_secret_key

-- `_hash_user_agent`
abbrev pub hash_user_agent : Library → Option Text → Text
hash_user_agent l ua = l.sha256 (get_or ua [])

-- `_encode_payload`
unfoldable pub encode_payload : Library → Settings → Payload → Text
encode_payload l g payload =
    let raw = l.dumps payload in
    rstrip (λ c. c == equals_sign) (l.b64encode raw) ++ dot ∷ l.hmac (photo_signing_secret g) raw

-- `"=" * (-len(encoded) % 4)`
abbrev pub padding : Text → Text
padding encoded = repeat equals_sign ((4 - length encoded % 4) % 4)

-- `_decode_payload`
unfoldable pub decode_payload : Library → Settings → Text → Result Error (Payload × Text)
decode_payload l g token = do
  (encoded, provided_sig) ← or_raise (rsplit dot token) invalid_token
  raw ← or_raise (l.b64decode (encoded ++ padding encoded)) invalid_token
  is_same ← compare_digest (l.hmac (photo_signing_secret g) raw) provided_sig
  raise_if (not is_same) invalid_token
  payload ← or_raise (l.loads raw) invalid_token
  ok (payload, provided_sig)
