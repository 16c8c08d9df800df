-- ===== src/Version/Suffix.antt =====
-- version/version.go: how a token falls into its number and its suffix.
use mathlib.Core.List.{append-nil, append_assoc}
use gofrog.Prelude.{
  ℕ, ◌≡◌, refl, [], ◌∷◌, ◌++◌, Bool, true, false, pos, negsuc, Bytes, codes, same_bytes, All, arith,
}
use gofrog.Version.{is_digit, atoi, take_digits, split_number_and_suffix, is_empty, compare_tokens}

atoi_one : (c : ℕ) → (atoi (c ∷ [])).1 ≡ is_digit c
unfolding atoi
atoi_one c = ground arith

abbrev pub begins_with_digit : Bytes → Bool
begins_with_digit [] = false
begins_with_digit (c ∷ _) = is_digit c

take_digits-append :
    (numeric digits rest : Bytes)
    → All (λ c. is_digit c ≡ true) digits
    → begins_with_digit rest ≡ false
    → take_digits numeric (digits ++ rest) ≡ (numeric ++ digits, rest)
unfolding take_digits
take_digits-append numeric [] [] d h = ground (arith, append-nil numeric)
take_digits-append numeric [] (c ∷ rest) d h = ground (arith, append-nil numeric, atoi_one c)
take_digits-append numeric (c ∷ digits) rest d h = ground (
  arith,
  atoi_one c,
  take_digits-append (numeric ++ c ∷ []) digits rest d.1 h,
  append_assoc numeric (c ∷ []) digits,
)

-- A token of digits and a rest that does not begin with a digit falls into just these, and a token
-- that does not begin with a digit has the number "0" and is its own suffix.
pub split_number_and_suffix_lem :
    (c : ℕ) (digits rest : Bytes)
    → All (λ d. is_digit d ≡ true) (c ∷ digits)
    → begins_with_digit rest ≡ false
    → (split_number_and_suffix ((c ∷ digits) ++ rest) ≡ (c ∷ digits, rest))
      × (split_number_and_suffix rest ≡ (codes "0", rest))
unfolding split_number_and_suffix is_empty
split_number_and_suffix_lem c digits rest d h = (
  ground (arith, take_digits-append [] (c ∷ digits) rest d h),
  ground (arith, take_digits-append [] [] rest tt h),
)

longer_differs :
    (xs : Bytes) (s : ℕ) (rest : Bytes)
    → (same_bytes (xs ++ s ∷ rest) xs ≡ false) × (same_bytes xs (xs ++ s ∷ rest) ≡ false)
unfolding same_bytes
longer_differs [] s rest = (refl, refl)
longer_differs (x ∷ xs) s rest = ground (arith, longer_differs xs s rest)

-- A token of digits with a suffix is above the same token without it, and the order turns round.
pub compare_tokens_suffix :
    (c s : ℕ) (digits rest : Bytes)
    → All (λ d. is_digit d ≡ true) (c ∷ digits)
    → is_digit s ≡ false
    → (compare_tokens ((c ∷ digits) ++ s ∷ rest) (c ∷ digits) ≡ pos 1)
      × (compare_tokens (c ∷ digits) ((c ∷ digits) ++ s ∷ rest) ≡ negsuc 0)
unfolding compare_tokens is_empty
compare_tokens_suffix c s digits rest d h =
    let plain : split_number_and_suffix (c ∷ digits) ≡ (c ∷ digits, []) =
      rw append-nil at ((split_number_and_suffix_lem c digits [] d refl).0) in
    ground (
      arith,
      plain,
      (split_number_and_suffix_lem c digits (s ∷ rest) d h).0,
      longer_differs (c ∷ digits) s rest,
    )
