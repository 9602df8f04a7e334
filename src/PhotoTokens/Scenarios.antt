-- ===== src/PhotoTokens/Scenarios.antt =====
-- A link to a photo that is bound to a browser and may be used once.
use clean.Base.{◌≡◌, refl, true, false, List, [], ◌∷◌, none, some, is_empty, ok, err, arith}
use clean.Base.Int.{pos}
use clean.PhotoTokens.{
  Text, Error, Settings, Request, Claims, text, strip, rstrip, lstrip, rsplit, compare_digest,
  normalize_text, normalize_variant, as_json, photo_download, payload_of, bound_ua, encode_payload,
  decode_payload, build_photo_download_token, verify_photo_download_token, check_token,
  parse_claims, ttl_seconds, enforce_one_time,
}
use clean.PhotoTokens.RoundTrip.{asked_claims, verify-build_photo_download_token}
use clean.PhotoTokens.OneTime.{Visit, run, used_token_is_refused}
use clean.PhotoTokens.Samples.{library, library-IsLibrary}
use clean.PhotoTokens.Keys.{sample_redis, sample_redis-IsUp}

abbrev settings : Settings
settings = record {
  photo_token_secret = none;
  order_photo_signing_secret = some (7 ∷ 8 ∷ []);
  auth_secret_key = 9 ∷ [];
  photo_url_ttl_seconds = 60;
  photo_token_bind_ua = true;
  photo_token_one_time = true;
  redis_url = true;
}

abbrev browser : Text
browser = 77 ∷ 111 ∷ 122 ∷ []

abbrev request : Request
request = record {
  org_id = 5;
  order_id = 32 ∷ 79 ∷ 49 ∷ [];
  photo_id = 80 ∷ 50 ∷ [];
  user_agent = some browser;
  ttl_seconds = none;
  variant = some (32 ∷ 116 ∷ 104 ∷ []);
}

abbrev token : Text
token = encode_payload library settings (
    payload_of library 5 (32 ∷ 79 ∷ 49 ∷ []) (80 ∷ 50 ∷ []) 61 photo_download (1 ∷ [])
      (some (116 ∷ 104 ∷ [])) (bound_ua library settings (some browser)))

is_built : build_photo_download_token library settings request (1 ∷ []) 1_500_000 ≡ ok token
unfolding build_photo_download_token normalize_text strip rstrip lstrip
is_built = refl

abbrev claims : Claims
claims = record {
  org_id = 5;
  order_id = 79 ∷ 49 ∷ [];
  photo_id = 80 ∷ 50 ∷ [];
  exp = pos 61;
  ua_hash = as_json (bound_ua library settings (some browser));
  variant = some (text (116 ∷ 104 ∷ []));
}

is_order : is_empty (strip library.is_space request.order_id) ≡ false
unfolding strip rstrip lstrip
is_order = refl

is_photo : is_empty (strip library.is_space request.photo_id) ≡ false
unfolding strip rstrip lstrip
is_photo = refl

verify-build_photo_download_token_example :
    (variant : _) × (normalize_variant library (as_json request.variant) ≡ ok variant)
    × ((verify_photo_download_token sample_redis library settings token
          (some browser)
          30_000_000
          []).1
        ≡ ok (asked_claims library settings request 1_500_000 variant))
verify-build_photo_download_token_example =
    verify-build_photo_download_token sample_redis library settings request (1 ∷ []) token 1_500_000
      30_000_000 [] library-IsLibrary is_built is_order is_photo (omega arith)
      (λ p signature ex decoded h. cc h)

is_accepted :
    (verify_photo_download_token sample_redis library settings token (some browser) 30_000_000 []).1
    ≡ ok claims
unfolding verify_photo_download_token check_token parse_claims ttl_seconds enforce_one_time
    decode_payload encode_payload payload_of compare_digest rsplit normalize_text strip rstrip
    lstrip
is_accepted = refl

abbrev visits : List Visit
visits = record { token = 3 ∷ []; user_agent = none; now = 31_000_000 } ∷ []

used_token_is_refused_example :
    let s =
      run sample_redis library settings visits
        (verify_photo_download_token sample_redis library settings token
          (some browser)
          30_000_000
          []).0 in
    (e : Error) × ((verify_photo_download_token sample_redis library settings token
        (some browser)
        32_000_000
        s).1
      ≡ err e)
used_token_is_refused_example =
    used_token_is_refused sample_redis library settings token token (some browser) (some browser)
      30_000_000 32_000_000 visits claims [] sample_redis-IsUp refl refl is_accepted
