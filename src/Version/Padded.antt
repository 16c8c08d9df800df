-- ===== src/Version/Padded.antt =====
-- version/version.go: the loop of `Compare` finds the first difference between two lists of tokens, the
-- shorter one filled up with "0"; what follows for whole versions.
use native.Mathlib.Numerals.{add-one}
use gofrog.Prelude.{
  ℕ, zero, suc, ◌+◌, ◌≤◌, ◌≡◌, ◌≢◌, ◌↔◌, refl, List, [], ◌∷◌, map, Bool, true, false, ◌||◌,
  if◌then◌else◌, length, ℤ, pos, negsuc, leb_ℤ, eqb_ℤ, neg, Bytes, codes, same_bytes,
  same_bytes_iff, arith, Bool-cases, inl, inr,
}
use gofrog.Version.{
  new_version, split, trim_space, compare_tokens, token_at, compare_from, max_index, development,
  compare, at_least,
}
use gofrog.Version.Order.{
  respelled, compare_tokens-zero_iff, compare_tokens-antisym, compare_tokens-respelled,
}

abbrev pub zero_token : Bytes
zero_token = codes "0"

-- The tokens of a version without the spaces round them.
abbrev pub tokens : Bytes → List Bytes
tokens version = map trim_space (split b'.' version)

abbrev or_else : ℤ → ℤ → ℤ
or_else order rest = if eqb_ℤ order (pos 0) then rest else order

-- The first difference, the shorter list filled up with "0".
unfoldable pub compare_padded : List Bytes → List Bytes → ℤ
compare_padded [] [] = pos 0
compare_padded (a ∷ xs) [] = or_else (compare_tokens a zero_token) (compare_padded xs [])
compare_padded [] (b ∷ ys) = or_else (compare_tokens zero_token b) (compare_padded [] ys)
compare_padded (a ∷ xs) (b ∷ ys) = or_else (compare_tokens a b) (compare_padded xs ys)

abbrev behind : List Bytes → List Bytes
behind [] = []
behind (_ ∷ ts) = ts

token_at-suc : (ts : List Bytes) (i : ℕ) → token_at ts (i + 1) ≡ token_at (behind ts) i
unfolding token_at
token_at-suc [] i = refl
token_at-suc (t ∷ ts) i = rw (add-one, token_at)

compare_from-behind :
    (n i : ℕ) (xs ys : List Bytes)
    → compare_from n (i + 1) xs ys ≡ compare_from n i (behind xs) (behind ys)
unfolding compare_from
compare_from-behind zero i xs ys = refl
compare_from-behind (suc n) i xs ys =
    ground (arith, token_at-suc xs i, token_at-suc ys i, compare_from-behind n (i + 1) xs ys)

compare_from-compare_padded :
    (n : ℕ) (xs ys : List Bytes)
    → length xs ≤ n
    → length ys ≤ n
    → compare_from n 0 xs ys ≡ compare_padded (map trim_space xs) (map trim_space ys)
unfolding compare_from compare_padded token_at
compare_from-compare_padded zero [] [] h k = refl
compare_from-compare_padded zero (a ∷ xs) ys h k = absurd (omega arith)
compare_from-compare_padded zero [] (b ∷ ys) h k = absurd (omega arith)
compare_from-compare_padded (suc n) [] [] h k = ground (
  arith,
  compare_from-behind n 0 [] [],
  compare_from-compare_padded n [] [] (omega arith) (omega arith),
  compare_tokens-zero_iff (token_at [] 0) (token_at [] 0),
)
compare_from-compare_padded (suc n) (x ∷ xs) [] h k = ground (
  arith,
  compare_from-behind n 0 (x ∷ xs) [],
  compare_from-compare_padded n xs [] (omega arith) (omega arith),
)
compare_from-compare_padded (suc n) [] (y ∷ ys) h k = ground (
  arith,
  compare_from-behind n 0 [] (y ∷ ys),
  compare_from-compare_padded n [] ys (omega arith) (omega arith),
)
compare_from-compare_padded (suc n) (x ∷ xs) (y ∷ ys) h k = ground (
  arith,
  compare_from-behind n 0 (x ∷ xs) (y ∷ ys),
  compare_from-compare_padded n xs ys (omega arith) (omega arith),
)

-- `v.Compare(w)` is 0 on equal texts; otherwise the text "development" is above all others; and
-- otherwise it is the order of the first tokens that differ, without spaces round them, the shorter
-- version filled up with "0".
pub compare-compare_padded :
    (v w : Bytes)
    → compare (new_version v) w ≡ (
        if same_bytes w v
        then pos 0
        else if same_bytes w development
        then pos 1
        else if same_bytes v development
        then negsuc 0
        else compare_padded (tokens w) (tokens v))
unfolding compare new_version max_index
compare-compare_padded v w =
    let xs = split b'.' w in
    let ys = split b'.' v in
    let n = max_index xs ys in
    let longest : (length xs ≤ n) × (length ys ≤ n) = (ground arith, ground arith) in
    ground (arith, compare_from-compare_padded n xs ys longest.0 longest.1)

-- Equal token by token, the shorter list filled up with "0".
abbrev pub SamePadded : List Bytes → List Bytes → Type 0
SamePadded [] [] = Unit
SamePadded (x ∷ xs) [] = (x ≡ zero_token) × SamePadded xs []
SamePadded [] (y ∷ ys) = (zero_token ≡ y) × SamePadded [] ys
SamePadded (x ∷ xs) (y ∷ ys) = (x ≡ y) × SamePadded xs ys

compare_padded-zero_iff : (xs ys : List Bytes) → (compare_padded xs ys ≡ pos 0) ↔ SamePadded xs ys
unfolding compare_padded
compare_padded-zero_iff [] [] = (λ _. tt, λ _. refl)
compare_padded-zero_iff (x ∷ xs) [] =
    ground (arith, compare_tokens-zero_iff x zero_token, compare_padded-zero_iff xs [])
compare_padded-zero_iff [] (y ∷ ys) =
    ground (arith, compare_tokens-zero_iff zero_token y, compare_padded-zero_iff [] ys)
compare_padded-zero_iff (x ∷ xs) (y ∷ ys) =
    ground (arith, compare_tokens-zero_iff x y, compare_padded-zero_iff xs ys)

-- Two different texts, neither of them "development", compare as equal exactly when their tokens are
-- the same texts without the spaces round them, the shorter version filled up with "0".
pub compare-zero_iff :
    (v w : Bytes)
    → w ≢ v
    → w ≢ development
    → v ≢ development
    → (compare (new_version v) w ≡ pos 0) ↔ SamePadded (tokens w) (tokens v)
compare-zero_iff v w a b c = ground (
  arith,
  compare-compare_padded v w,
  compare_padded-zero_iff (tokens w) (tokens v),
  same_bytes_iff w v,
  same_bytes_iff w development,
  same_bytes_iff v development,
)

-- Some two tokens at one place differ, read as the same number and have nothing behind it.
unfoldable pub respelled_somewhere : List Bytes → List Bytes → Bool
respelled_somewhere [] [] = false
respelled_somewhere (x ∷ xs) [] = respelled x zero_token || respelled_somewhere xs []
respelled_somewhere [] (y ∷ ys) = respelled zero_token y || respelled_somewhere [] ys
respelled_somewhere (x ∷ xs) (y ∷ ys) = respelled x y || respelled_somewhere xs ys

compare_padded-antisym :
    (xs ys : List Bytes)
    → respelled_somewhere xs ys ≡ false
    → compare_padded xs ys ≡ neg (compare_padded ys xs)
unfolding compare_padded respelled_somewhere
compare_padded-antisym [] [] h = refl
compare_padded-antisym (x ∷ xs) [] h =
    ground (arith, compare_tokens-antisym x zero_token, compare_padded-antisym xs [])
compare_padded-antisym [] (y ∷ ys) h =
    ground (arith, compare_tokens-antisym zero_token y, compare_padded-antisym [] ys)
compare_padded-antisym (x ∷ xs) (y ∷ ys) h =
    ground (arith, compare_tokens-antisym x y, compare_padded-antisym xs ys)

-- Comparing two versions the other way round negates the result, unless some two tokens at one place,
-- the shorter version filled up with "0", are different texts for which the code reads the same number
-- and no suffix: "1" and "01", an empty token and "0", or two numbers that are both past `int`.
pub compare-antisym :
    (v w : Bytes)
    → respelled_somewhere (tokens w) (tokens v) ≡ false
    → compare (new_version v) w ≡ neg (compare (new_version w) v)
compare-antisym v w h = ground (
  arith,
  compare-compare_padded v w,
  compare-compare_padded w v,
  compare_padded-antisym (tokens w) (tokens v),
  same_bytes_iff w v,
  same_bytes_iff v w,
  same_bytes_iff w development,
  same_bytes_iff v development,
)

-- One step of the comparison, both ways round.
or_else_total :
    (a b : Bytes) (r t : ℤ)
    → leb_ℤ r (pos 0) || leb_ℤ t (pos 0) ≡ true
    → leb_ℤ (or_else (compare_tokens a b) r) (pos 0)
        || leb_ℤ (or_else (compare_tokens b a) t) (pos 0)
      ≡ true
or_else_total a b r t h = elim (Bool-cases (respelled a b)) [
  | inl spelled ↦ ground (arith, compare_tokens-respelled a b spelled)
  | inr other ↦ ground (arith, compare_tokens-antisym a b other)
]

compare_padded_total :
    (xs ys : List Bytes)
    → leb_ℤ (compare_padded xs ys) (pos 0) || leb_ℤ (compare_padded ys xs) (pos 0) ≡ true
unfolding compare_padded
compare_padded_total [] [] = refl
compare_padded_total (x ∷ xs) [] =
    or_else_total x zero_token (compare_padded xs []) (compare_padded [] xs)
      (compare_padded_total xs [])
compare_padded_total [] (y ∷ ys) =
    or_else_total zero_token y (compare_padded [] ys) (compare_padded ys [])
      (compare_padded_total [] ys)
compare_padded_total (x ∷ xs) (y ∷ ys) =
    or_else_total x y (compare_padded xs ys) (compare_padded ys xs) (compare_padded_total xs ys)

-- Of any two versions one is at least the other.
pub at_least_total : (v w : Bytes) → at_least (new_version v) w || at_least (new_version w) v ≡ true
unfolding at_least
at_least_total v w = ground (
  arith,
  compare-compare_padded v w,
  compare-compare_padded w v,
  compare_padded_total (tokens w) (tokens v),
  same_bytes_iff w v,
  same_bytes_iff v w,
  same_bytes_iff w development,
  same_bytes_iff v development,
)
