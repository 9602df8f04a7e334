-- ===== src/PhotoTokens/Samples.antt =====
-- Libraries that behave as is documented.
use clean.Base.{
  ℕ, zero, suc, ◌+◌, ◌-◌, ◌%◌, ◌≡◌, refl, ap, sym, true, false, not, [], ◌∷◌, ◌++◌, Option, none,
  some, ◌==◌, length, take, arith,
}
use clean.Base.Int.{pos, negsuc}
use clean.PhotoTokens.{
  Text, equals_sign, every, Json, text, number, null, other, Key, org_id_key, order_id_key,
  photo_id_key, exp_key, typ_key, jti_key, variant_key, ua_key, Payload, Library,
}
use clean.PhotoTokens.Decoded.{is_hex, IsLibrary}

-- A value as numbers: its kind, then its length or its digits.
abbrev write : Option Json → Text → Text
write none rest = 0 ∷ rest
write (some (text t)) rest = 1 ∷ length t ∷ (t ++ rest)
write (some (number (pos n))) rest = 2 ∷ n ∷ rest
write (some (number (negsuc n))) rest = 3 ∷ n ∷ rest
write (some null) rest = 4 ∷ rest
write (some other) rest = 5 ∷ rest

abbrev drop : ℕ → Text → Text
drop zero t = t
drop (suc n) [] = []
drop (suc n) (_ ∷ t) = drop n t

abbrev read : Text → Option Json × Text
read [] = (none, [])
read (zero ∷ rest) = (none, rest)
read (suc zero ∷ n ∷ rest) = (some (text (take n rest)), drop n rest)
read (suc (suc zero) ∷ n ∷ rest) = (some (number (pos n)), rest)
read (suc (suc (suc zero)) ∷ n ∷ rest) = (some (number (negsuc n)), rest)
read (suc (suc (suc (suc zero))) ∷ rest) = (some null, rest)
read (suc (suc (suc (suc (suc _)))) ∷ rest) = (some other, rest)
read (_ ∷ []) = (none, [])

take_all : (t rest : Text) → take (length t) (t ++ rest) ≡ t
take_all [] rest = refl
take_all (c ∷ t) rest = ap (λ s. c ∷ s) (take_all t rest)

drop_all : (t rest : Text) → drop (length t) (t ++ rest) ≡ rest
drop_all [] rest = refl
drop_all (c ∷ t) rest = drop_all t rest

read-write : (j : Option Json) (rest : Text) → read (write j rest) ≡ (j, rest)
read-write none rest = refl
read-write (some (text t)) rest = rw (take_all t rest, drop_all t rest) refl
read-write (some (number (pos n))) rest = refl
read-write (some (number (negsuc n))) rest = refl
read-write (some null) rest = refl
read-write (some other) rest = refl

abbrev table :
    Option Json
    → Option Json
    → Option Json
    → Option Json
    → Option Json
    → Option Json
    → Option Json
    → Option Json
    → Payload
table a b c d e f g h org_id_key = a
table a b c d e f g h order_id_key = b
table a b c d e f g h photo_id_key = c
table a b c d e f g h exp_key = d
table a b c d e f g h typ_key = e
table a b c d e f g h jti_key = f
table a b c d e f g h variant_key = g
table a b c d e f g h ua_key = h

table_all :
    (p : Payload) (k : Key)
    → table
        (p org_id_key)
        (p order_id_key)
        (p photo_id_key)
        (p exp_key)
        (p typ_key)
        (p jti_key)
        (p variant_key)
        (p ua_key)
        k
      ≡ p k
table_all p org_id_key = refl
table_all p order_id_key = refl
table_all p photo_id_key = refl
table_all p exp_key = refl
table_all p typ_key = refl
table_all p jti_key = refl
table_all p variant_key = refl
table_all p ua_key = refl

abbrev dumps : Payload → Text
dumps p = write (p org_id_key) (
    write (p order_id_key) (
      write (p photo_id_key) (
        write (p exp_key)
          (write (p typ_key) (write (p jti_key) (write (p variant_key) (write (p ua_key) [])))))))

abbrev loads : Text → Option Payload
loads t =
    let (a, t1) = read t in
    let (b, t2) = read t1 in
    let (c, t3) = read t2 in
    let (d, t4) = read t3 in
    let (e, t5) = read t4 in
    let (f, t6) = read t5 in
    let (g, t7) = read t6 in let (h, _) = read t7 in some (table a b c d e f g h)

abbrev b64encode : Text → Text
b64encode [] = []
b64encode (c ∷ t) = (c + 100) ∷ 65 ∷ 65 ∷ 65 ∷ b64encode t

abbrev decoded : Text → Text
decoded (c ∷ _ ∷ _ ∷ _ ∷ t) = (c - 100) ∷ decoded t
decoded _ = []

decoded-b64encode : (t : Text) → decoded (b64encode t) ≡ t
decoded-b64encode [] = refl
decoded-b64encode (c ∷ t) =
    let e : c + 100 - 100 ≡ c = omega arith in rw (e, decoded-b64encode t) refl

abbrev digit : Text → Text
digit t = (48 + length t % 10) ∷ []

abbrev pub library : Library
library = record {
  dumps = dumps;
  loads = loads;
  b64encode = b64encode;
  b64decode = λ t. some (decoded t);
  hmac = λ key raw. digit (key ++ raw);
  sha256 = digit;
  str_uuid = λ u. u ∷ [];
  uuid = λ j. elim j [ text t ↦ elim t [ [] ↦ none | u ∷ _ ↦ some u ] | _ ↦ none ];
  str = λ j. elim j [ text t ↦ t | _ ↦ [] ];
  int = λ j. elim j [ number n ↦ some n | _ ↦ none ];
  is_space = λ c. c == 32;
}

b64encode_body : (t : Text) → every (λ c. not (c == equals_sign)) (b64encode t) ≡ true
b64encode_body [] = refl
b64encode_body (c ∷ t) =
    let here : (c + 100 == equals_sign) ≡ false = ground arith in rw (here, b64encode_body t) refl

b64encode_length : (t : Text) → length (b64encode t) % 4 ≡ 0
b64encode_length [] = refl
b64encode_length (c ∷ t) = omega (arith, b64encode_length t)

append_nil : (t : Text) → t ++ [] ≡ t
append_nil [] = refl
append_nil (c ∷ t) = ap (λ s. c ∷ s) (append_nil t)

loads-dumps : (p : Payload) → loads (dumps p) ≡ some p
loads-dumps p =
    rw
      (
        read-write (p org_id_key),
        read-write (p order_id_key),
        read-write (p photo_id_key),
        read-write (p exp_key),
        read-write (p typ_key),
        read-write (p jti_key),
        read-write (p variant_key),
        read-write (p ua_key),
      )
      (ap some (λ i k. table_all p k i))

digit_hex : (t : Text) → every is_hex (digit t) ≡ true
digit_hex t = ground arith

pub library-IsLibrary : IsLibrary library
library-IsLibrary = record {
  loads-dumps = loads-dumps;
  b64decode-b64encode = λ raw. ap some (decoded-b64encode raw);
  b64encode-Padded = λ raw. record {
    body = b64encode raw;
    pads = 0;
    is_padded = sym (append_nil (b64encode raw));
    is_body = b64encode_body raw;
    is_short = omega arith;
    is_whole = omega (arith, b64encode_length raw);
  };
  hmac_hex = λ key raw. digit_hex (key ++ raw);
  sha256_hex = digit_hex;
  uuid-str = λ u. refl;
  str-text = λ t. refl;
  int-number = λ n. refl;
  allowed_is_no_space = λ c h. ground arith;
}
