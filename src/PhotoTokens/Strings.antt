-- ===== src/PhotoTokens/Strings.antt =====
-- Texts as lists of code points, with the methods of strings that app/api/photo_tokens.py calls.
use clean.Base.{
  ℕ, zero, suc, Bool, true, false, ◌&&◌, ◌||◌, not, List, [], ◌∷◌, Option, none, some, ltb, leb,
  ◌==◌, if◌then◌else◌, is_empty, Result, ok, err, raise_if, ◌>>◌,
}

abbrev pub Text : Type 0
Text = List ℕ

abbrev pub dot : ℕ
dot = 46

abbrev pub equals_sign : ℕ
equals_sign = 61

pub data Error : Type 0 where
  invalid_token invalid_variant already_used type_error : Error

-- `s.rstrip`, of the characters that pass the test.
unfoldable pub rstrip : (ℕ → Bool) → Text → Text
rstrip p [] = []
rstrip p (c ∷ cs) = let rest = rstrip p cs in if is_empty rest && p c then [] else c ∷ rest

-- `s.lstrip`
unfoldable pub lstrip : (ℕ → Bool) → Text → Text
lstrip p [] = []
lstrip p (c ∷ cs) = let rest = lstrip p cs in if p c then rest else c ∷ cs

-- `s.strip()`
unfoldable pub strip : (ℕ → Bool) → Text → Text
strip p cs = rstrip p (lstrip p cs)

abbrev pub prepend : ℕ → Text × Text → Text × Text
prepend c (a, b) = (c ∷ a, b)

-- `s.rsplit(d, 1)`, and nothing if `d` is not in `s`.
unfoldable pub rsplit : ℕ → Text → Option (Text × Text)
rsplit d [] = none
rsplit d (c ∷ cs) = elim (rsplit d cs) [
  | some parts ↦ some (prepend c parts)
  | none ↦ if c == d then some ([], cs) else none
]

-- `c * n`
abbrev pub repeat : ℕ → ℕ → Text
repeat c zero = []
repeat c (suc n) = c ∷ repeat c n

abbrev pub same_text : Text → Text → Bool
same_text [] [] = true
same_text [] (_ ∷ _) = false
same_text (_ ∷ _) [] = false
same_text (a ∷ as') (b ∷ bs) = (a == b) && same_text as' bs

abbrev pub every : (ℕ → Bool) → Text → Bool
every p [] = true
every p (c ∷ cs) = p c && every p cs

abbrev pub is_ascii : ℕ → Bool
is_ascii c = ltb c 128

-- `hmac.compare_digest` on texts: those that are not ASCII raise a `TypeError`.
unfoldable pub compare_digest : Text → Text → Result Error Bool
compare_digest a b =
    if every is_ascii a && every is_ascii b then ok (same_text a b) else err type_error

-- What `^[A-Za-z0-9_.-]+$` allows.
abbrev pub is_allowed : ℕ → Bool
is_allowed c =
    (leb 65 c && leb c 90)
    || (leb 97 c && leb c 122)
    || (leb 48 c && leb c 57)
    || (c == 95)
    || (c == dot)
    || (c == 45)

-- `normalize_variant`, on a text.
unfoldable pub normalize_text : (ℕ → Bool) → Text → Result Error (Option Text)
normalize_text is_space value =
    let candidate = strip is_space value in
    if is_empty candidate
    then ok none
    else (do raise_if (not (every is_allowed candidate)) invalid_variant; ok (some candidate))
