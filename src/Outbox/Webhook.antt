-- ===== src/Outbox/Webhook.antt =====
-- Which URLs may be posted to: `validate_webhook_url` of app/infra/export.py.
use clean.Base.{
  ℕ, Bool, true, false, not, ◌&&◌, ◌||◌, ◌≡◌, ◌⊎◌, inl, inr, refl, List, [], ◌∷◌, Option, none,
  some, ◌==◌, is_empty, if◌then◌else◌, any, Bool-cases, arith,
}
use mathlib.Core.Option.{some-injective}
use clean.Outbox.Rows.{
  Refusal, invalid_url, http_not_allowed, unsupported_scheme, missing_host, host_not_allowlisted,
  allowlist_required, private_ip_blocked, dns_lookup_failed, Settings, Scheme, http, https,
  other_scheme, Address, World, Url, Lookup, found, os_error, uncaught,
}

-- `_is_private_ip` of what `ip_address` makes of the text.
unfoldable pub is_private_ip : Option Address → Bool
is_private_ip none = true
is_private_ip (some a) = a.is_private || a.is_loopback || a.is_link_local

-- `_resolve_host_ips_async`: the addresses without repetition, in order.
unfoldable pub distinct : List ℕ → List ℕ → List ℕ
distinct [] seen = []
distinct (ip ∷ ips) seen =
    let rest = distinct ips seen in
    let rest' = distinct ips (ip ∷ seen) in if any (λ b. b == ip) seen then rest else ip ∷ rest'

unfoldable pub resolve_host_ips : Lookup → Option (List ℕ)
unfolding distinct
resolve_host_ips (found ips) = some (distinct ips [])
resolve_host_ips os_error = some []
resolve_host_ips uncaught = none

-- The addresses of the host, unless looking them up raises.
unfoldable pub host_ips : World → ℕ → ℕ → Option (ℕ → Option (List ℕ)) → Option (List ℕ)
unfolding resolve_host_ips
host_ips w now host none = resolve_host_ips (w.getaddrinfo now host)
host_ips w now host (some resolver) = resolver host

-- The refusal for the addresses of the host, if any.
unfoldable pub refuse_ips : World → List ℕ → Option Refusal
unfolding is_private_ip
refuse_ips w [] = some dns_lookup_failed
refuse_ips w (ip ∷ ips) =
    if any (λ b. is_private_ip (w.ip_address b)) (ip ∷ ips) then some private_ip_blocked else none

unfoldable pub is_allowlisted : Settings → World → ℕ → Bool
is_allowlisted s w host = any (λ h. w.lower host == w.lower h) s.allowed_hosts

unfoldable pub refuse_found : World → Option (List ℕ) → Option (Option Refusal)
unfolding refuse_ips
refuse_found w none = none
refuse_found w (some ips) = some (refuse_ips w ips)

unfoldable pub refuse_blocked : Settings → World → ℕ → ℕ → Option (Option Refusal)
unfolding refuse_found
refuse_blocked s w now host =
    if not s.block_private_ips
    then some none
    else (if w.lower host == w.localhost
        then some (some private_ip_blocked)
        else refuse_found w (host_ips w now host w.export_resolver))

unfoldable pub refuse_host : Settings → World → ℕ → Option ℕ → Option (Option Refusal)
unfolding refuse_blocked is_allowlisted
refuse_host s w now none = some (some missing_host)
refuse_host s w now (some host) =
    if not (is_empty s.allowed_hosts) && not (is_allowlisted s w host)
    then some (some host_not_allowlisted)
    else (if is_empty s.allowed_hosts && s.is_prod
        then some (some allowlist_required)
        else refuse_blocked s w now host)

unfoldable pub refuse_scheme : Settings → World → ℕ → Scheme → Option ℕ → Option (Option Refusal)
unfolding refuse_host
refuse_scheme s w now http host =
    if not s.allow_http then some (some http_not_allowed) else refuse_host s w now host
refuse_scheme s w now https host = refuse_host s w now host
refuse_scheme s w now other_scheme host = some (some unsupported_scheme)

unfoldable pub refuse_url :
    Settings → World → ℕ → Bool → Option Scheme → Option ℕ → Option (Option Refusal)
unfolding refuse_scheme
refuse_url s w now true (some scheme) host = refuse_scheme s w now scheme host
refuse_url s w now _ _ host = some (some invalid_url)

unfoldable pub refuse_parsed : Settings → World → ℕ → Option Url → Option (Option Refusal)
unfolding refuse_url
refuse_parsed s w now none = none
refuse_parsed s w now (some u) = refuse_url s w now u.has_netloc u.scheme u.hostname

-- `validate_webhook_url`: `some none` is the answer `(True, "ok")`, and `none` an exception of
-- `urlparse`, of the resolver or of `getaddrinfo`, which no one catches.
unfoldable pub validate_webhook_url : Settings → World → ℕ → ℕ → Option (Option Refusal)
unfolding refuse_parsed
validate_webhook_url s w now url = refuse_parsed s w now (w.urlparse url)

-- A host that may be posted to.
pub record IsAllowedHost (s : Settings) (w : World) (now host : ℕ) : Type 0 where
  pub listed : (s.allowed_hosts ≡ []) ⊎ (is_allowlisted s w host ≡ true)
  pub listed_in_prod : (s.is_prod ≡ false) ⊎ (is_allowlisted s w host ≡ true)
  pub public :
      (s.block_private_ips ≡ false)
      ⊎ ((w.lower host == w.localhost) ≡ false)
        × (ips : List ℕ) × (host_ips w now host w.export_resolver ≡ some ips)
        × (any (λ b. is_private_ip (w.ip_address b)) ips ≡ false)

pub record IsSafe (s : Settings) (w : World) (now url : ℕ) : Type 0 where
  pub parts : Url
  pub parsed : w.urlparse url ≡ some parts
  pub scheme : (parts.scheme ≡ some https) ⊎ (parts.scheme ≡ some http) × (s.allow_http ≡ true)
  pub host : (h : ℕ) × (parts.hostname ≡ some h) × IsAllowedHost s w now h

refuse_ips-none :
    (w : World) (ips : List ℕ)
    → refuse_ips w ips ≡ none
    → any (λ b. is_private_ip (w.ip_address b)) ips ≡ false
unfolding refuse_ips
refuse_ips-none w [] e = cc
refuse_ips-none w (ip ∷ ips) e =
    elim (Bool-cases (any (λ b. is_private_ip (w.ip_address b)) (ip ∷ ips))) [
      | inl p ↦ absurd (cc (rw p at e))
      | inr p ↦ p
    ]

refuse_found-none :
    (w : World) (o : Option (List ℕ))
    → refuse_found w o ≡ some none
    → (ips : List ℕ) × (o ≡ some ips) × (any (λ b. is_private_ip (w.ip_address b)) ips ≡ false)
unfolding refuse_found
refuse_found-none w none e = cc
refuse_found-none w (some ips) e =
    (ips, refl, refuse_ips-none w ips (some-injective (refuse_ips w ips) none e))

refuse_blocked-public :
    (s : Settings) (w : World) (now host : ℕ)
    → refuse_blocked s w now host ≡ some none
    → (s.block_private_ips ≡ false)
      ⊎ ((w.lower host == w.localhost) ≡ false)
        × (ips : List ℕ) × (host_ips w now host w.export_resolver ≡ some ips)
        × (any (λ b. is_private_ip (w.ip_address b)) ips ≡ false)
unfolding refuse_blocked
refuse_blocked-public s w now host e = elim (Bool-cases s.block_private_ips) [
  | inr p ↦ inl p
  | inl p ↦ elim (Bool-cases (w.lower host == w.localhost)) [
    | inl q ↦ absurd (ground arith)
    | inr q ↦
        let (ips, at', all_open) = refuse_found-none w _ (ground arith) in
        inr (q, ips, at', all_open)
  ]
]

is_empty-eq-[] : (xs : List ℕ) → is_empty xs ≡ true → xs ≡ []
is_empty-eq-[] [] e = refl
is_empty-eq-[] (x ∷ xs) e = cc

refuse_host-allowed :
    (s : Settings) (w : World) (now : ℕ) (o : Option ℕ)
    → refuse_host s w now o ≡ some none
    → (h : ℕ) × (o ≡ some h) × IsAllowedHost s w now h
unfolding refuse_host
refuse_host-allowed s w now none e = cc
refuse_host-allowed s w now (some h) e = elim (Bool-cases (is_empty s.allowed_hosts)) [
  | inl p ↦ (
    h,
    refl,
    record {
      listed = inl (is_empty-eq-[] _ p);
      listed_in_prod = inl (ground arith);
      public = refuse_blocked-public s w now h (ground arith);
    },
  )
  | inr p ↦
      let q : is_allowlisted s w h ≡ true = ground arith in
      (
        h,
        refl,
        record {
          listed = inr q;
          listed_in_prod = inr q;
          public = refuse_blocked-public s w now h (ground arith);
        },
      )
]

refuse_url-none :
    (s : Settings) (w : World) (now : ℕ) (b : Bool) (o : Option Scheme) (h : Option ℕ)
    → refuse_url s w now b o h ≡ some none
    → ((o ≡ some https) ⊎ (o ≡ some http) × (s.allow_http ≡ true))
      × (refuse_host s w now h ≡ some none)
unfolding refuse_url refuse_scheme
refuse_url-none s w now true (some http) h e = (inr (refl, ground arith), ground arith)
refuse_url-none s w now true (some https) h e = (inl refl, e)
refuse_url-none s w now true (some other_scheme) h e = cc
refuse_url-none s w now true none h e = cc
refuse_url-none s w now false (some x) h e = cc
refuse_url-none s w now false none h e = cc

refuse_parsed-IsSafe :
    (s : Settings) (w : World) (now url : ℕ) (o : Option Url)
    → w.urlparse url ≡ o
    → refuse_parsed s w now o ≡ some none
    → IsSafe s w now url
unfolding refuse_parsed
refuse_parsed-IsSafe s w now url none p e = cc
refuse_parsed-IsSafe s w now url (some u) p e =
    let (a, b) = refuse_url-none s w now _ _ _ e in
    record { parts = u; parsed = p; scheme = a; host = refuse_host-allowed s w now _ b }

-- A URL that passes is HTTPS, or HTTP where that is allowed; its host is on the list of allowed
-- hosts if there is one, which there is in production; and where private addresses are blocked it
-- is not the local host, and none of its addresses is private, loopback, link-local or unreadable.
pub validate_webhook_url-IsSafe :
    (s : Settings) (w : World) (now url : ℕ)
    → validate_webhook_url s w now url ≡ some none
    → IsSafe s w now url
unfolding validate_webhook_url
validate_webhook_url-IsSafe s w now url e = refuse_parsed-IsSafe s w now url (w.urlparse url) refl e
