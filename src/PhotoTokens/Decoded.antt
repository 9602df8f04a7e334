-- ===== src/PhotoTokens/Decoded.antt =====
-- The text of a token, and what is decoded from it.
use clean.Base.{
  ℕ, zero, suc, ◌+◌, ◌-◌, ◌%◌, ◌<◌, ◌≡◌, refl, sym, ap, ◌∙◌, Bool, true, false, not, ◌&&◌, ◌||◌, [],
  ◌∷◌, ◌++◌, none, some, leb, ◌==◌, length, arith, ok, Bool-cases, inl, inr,
}
use clean.Base.Int.{pos}
use mathlib.Core.Path.{subst}
use clean.PhotoTokens.{
  Text, dot, equals_sign, rstrip, lstrip, strip, rsplit, repeat, every, same_text, compare_digest,
  is_ascii, is_allowed, Library, Settings, Payload, text, number, encode_payload, decode_payload,
  padding, photo_signing_secret,
}

-- A digit of a hexadecimal digest.
abbrev pub is_hex : ℕ → Bool
is_hex c = (leb 48 c && leb c 57) || (leb 97 c && leb c 102)

-- A base64 text: its characters without the padding, and the number of `=`.
pub record Padded (encoded : Text) : Type 0 where
  pub body : Text
  pub pads : ℕ
  pub is_padded : encoded ≡ body ++ repeat equals_sign pads
  pub is_body : every (λ c. not (c == equals_sign)) body ≡ true
  pub is_short : pads < 4
  pub is_whole : (length body + pads) % 4 ≡ 0

-- What is documented of the libraries.
pub record IsLibrary (l : Library) : Type 0 where
  pub loads-dumps : (p : Payload) → l.loads (l.dumps p) ≡ some p
  pub b64decode-b64encode : (raw : Text) → l.b64decode (l.b64encode raw) ≡ some raw
  pub b64encode-Padded : (raw : Text) → Padded (l.b64encode raw)
  pub hmac_hex : (key raw : Text) → every is_hex (l.hmac key raw) ≡ true
  pub sha256_hex : (t : Text) → every is_hex (l.sha256 t) ≡ true
  pub uuid-str : (u : ℕ) → l.uuid (text (l.str_uuid u)) ≡ some u
  pub str-text : (t : Text) → l.str (text t) ≡ t
  pub int-number : (n : ℕ) → l.int (number (pos n)) ≡ some (pos n)
  pub allowed_is_no_space : (c : ℕ) → is_allowed c ≡ true → l.is_space c ≡ false

pub every_imp :
    (p q : ℕ → Bool) (t : Text)
    → ((c : ℕ) → p c ≡ true → q c ≡ true)
    → every p t ≡ true
    → every q t ≡ true
every_imp p q [] imp all = refl
every_imp p q (c ∷ cs) imp all = elim (Bool-cases (p c)) [
  | inl passes ↦
      let rest : every p cs ≡ true = rw passes at all in
      let here : q c ≡ true = imp c passes in rw here (every_imp p q cs imp rest)
  | inr fails ↦ let clash : false ≡ true = rw fails at all in cc clash
]

rsplit-absent : (d : ℕ) (t : Text) → every (λ c. not (c == d)) t ≡ true → rsplit d t ≡ none
unfolding rsplit
rsplit-absent d [] free = refl
rsplit-absent d (c ∷ cs) free = elim (Bool-cases (c == d)) [
  | inl here ↦ let clash : false ≡ true = rw here at free in cc clash
  | inr other ↦
      let rest : every (λ b. not (b == d)) cs ≡ true = rw other at free in
      rw (rsplit-absent d cs rest, other) refl
]

rsplit-append :
    (d : ℕ) (a b : Text) → every (λ c. not (c == d)) b ≡ true → rsplit d (a ++ d ∷ b) ≡ some (a, b)
unfolding rsplit
rsplit-append d [] b free =
    let here : (d == d) ≡ true = ground arith in rw (rsplit-absent d b free, here) refl
rsplit-append d (c ∷ cs) b free = rw (rsplit-append d cs b free) refl

rstrip-repeat : (c n : ℕ) → rstrip (λ b. b == c) (repeat c n) ≡ []
unfolding rstrip
rstrip-repeat c zero = refl
rstrip-repeat c (suc n) =
    let here : (c == c) ≡ true = ground arith in rw (rstrip-repeat c n, here) refl

rstrip-append :
    (p : ℕ → Bool) (a b : Text)
    → every (λ c. not (p c)) a ≡ true
    → rstrip p b ≡ []
    → rstrip p (a ++ b) ≡ a
unfolding rstrip
rstrip-append p [] b free e = e
rstrip-append p (c ∷ cs) b free e = elim (Bool-cases (p c)) [
  | inl here ↦ let clash : false ≡ true = rw here at free in cc clash
  | inr other ↦
      let rest : every (λ x. not (p x)) cs ≡ true = rw other at free in
      rw (rstrip-append p cs b rest e, other) ground arith
]

rstrip-free : (p : ℕ → Bool) (t : Text) → every (λ c. not (p c)) t ≡ true → rstrip p t ≡ t
unfolding rstrip
rstrip-free p [] free = refl
rstrip-free p (c ∷ cs) free = elim (Bool-cases (p c)) [
  | inl here ↦ let clash : false ≡ true = rw here at free in cc clash
  | inr other ↦
      let rest : every (λ x. not (p x)) cs ≡ true = rw other at free in
      rw (rstrip-free p cs rest, other) ground arith
]

-- What `strip` leaves alone.
pub strip-free : (p : ℕ → Bool) (t : Text) → every (λ c. not (p c)) t ≡ true → strip p t ≡ t
unfolding strip lstrip
strip-free p [] free = rstrip-free p [] free
strip-free p (c ∷ cs) free = elim (Bool-cases (p c)) [
  | inl here ↦ let clash : false ≡ true = rw here at free in cc clash
  | inr other ↦ rw other (rstrip-free p (c ∷ cs) free)
]

pub same_text_refl : (t : Text) → same_text t t ≡ true
same_text_refl [] = refl
same_text_refl (c ∷ cs) =
    let here : (c == c) ≡ true = ground arith in rw (here, same_text_refl cs) refl

pub compare_digest_refl : (t : Text) → every is_hex t ≡ true → compare_digest t t ≡ ok true
unfolding compare_digest
compare_digest_refl t hex =
    let ascii : every is_ascii t ≡ true = every_imp is_hex is_ascii t (λ c h. ground arith) hex in
    rw (ascii, same_text_refl t) refl

-- A base64 text without its padding, and with it again.
repadded :
    (encoded : Text)
    → (b : Padded encoded)
    → (rstrip (λ c. c == equals_sign) encoded ≡ b.body) × (b.body ++ padding b.body ≡ encoded)
repadded encoded b =
    let n : (4 - length b.body % 4) % 4 ≡ b.pads = omega (arith, b.is_short, b.is_whole) in
    (
      subst (λ t. rstrip (λ c. c == equals_sign) t ≡ b.body) (sym b.is_padded)
          (rstrip-append (λ c. c == equals_sign) b.body (repeat equals_sign b.pads) b.is_body
            (rstrip-repeat equals_sign b.pads)),
      ap (λ m. b.body ++ repeat equals_sign m) n ∙ sym b.is_padded,
    )

-- A payload that is encoded and decoded again, with its signature.
pub decode-encode_payload :
    (l : Library) (g : Settings) (p : Payload)
    → IsLibrary l
    → decode_payload l g (encode_payload l g p)
      ≡ ok (p, l.hmac (photo_signing_secret g) (l.dumps p))
unfolding decode_payload encode_payload
decode-encode_payload l g p v =
    let raw = l.dumps p in
    let sig = l.hmac (photo_signing_secret g) raw in
    let b = v.b64encode-Padded raw in
    let (stripped, whole) = repadded (l.b64encode raw) b in
    let hex = v.hmac_hex (photo_signing_secret g) raw in
    let undotted : every (λ c. not (c == dot)) sig ≡ true =
      every_imp is_hex (λ c. not (c == dot)) sig (λ c h. ground arith) hex in
    let split = rsplit-append dot b.body sig undotted in
    let same = compare_digest_refl sig hex in
    rw (stripped, split, whole, v.b64decode-b64encode raw, same, v.loads-dumps p) refl
