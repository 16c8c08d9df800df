-- ===== src/Strings.antt =====
-- What the packages use of Go's strings, on bytes.
use mathlib.Core.List.{flat_map}
use gofrog.Prelude.{
  ℕ, List, zero, suc, ◌-◌, ◌≡◌, refl, [], ◌∷◌, ◌++◌, Bool, true, false, ◌||◌, if◌then◌else◌, ◌==◌,
  length, Bytes, arith,
}
use gofrog.Filepath.{has_prefix}

unfoldable pub contains : Bytes → Bytes → Bool
contains [] sub = has_prefix [] sub
contains (c ∷ s) sub = has_prefix (c ∷ s) sub || contains s sub

-- strings.ReplaceAll of a text that is not empty; skip bytes of an occurrence are still to be left out.
unfoldable pub replace_from : ℕ → Bytes → Bytes → Bytes → Bytes
replace_from skip [] old new = []
replace_from (suc skip) (c ∷ s) old new = replace_from skip s old new
replace_from zero (c ∷ s) old new =
    let found = has_prefix (c ∷ s) old in
    let rest = replace_from (if found then length old - 1 else 0) s old new in
    if found then new ++ rest else c ∷ rest

unfoldable pub replace_all : Bytes → Bytes → Bytes → Bytes
unfolding replace_from
replace_all s old new = replace_from 0 s old new

abbrev pub has_byte : ℕ → Bytes → Bool
has_byte d [] = false
has_byte d (c ∷ s) = c == d || has_byte d s

pub has_byte-append : (d : ℕ) (s t : Bytes) → has_byte d (s ++ t) ≡ has_byte d s || has_byte d t
has_byte-append d [] t = refl
has_byte-append d (c ∷ s) t = ground (arith, has_byte-append d s t)

pub has_byte-has_prefix :
    (d : ℕ) (s t : Bytes) → has_prefix s t ≡ true → has_byte d t ≡ true → has_byte d s ≡ true
unfolding has_prefix
has_byte-has_prefix d s [] p h = ground arith
has_byte-has_prefix d [] (b ∷ t) p h = ground arith
has_byte-has_prefix d (a ∷ s) (b ∷ t) p h = ground (arith, has_byte-has_prefix d s t)

pub has_prefix-append : (s t : Bytes) → has_prefix (s ++ t) s ≡ true
unfolding has_prefix
has_prefix-append [] t = refl
has_prefix-append (c ∷ s) t = ground (arith, has_prefix-append s t)

-- A text that lacks a byte of `old` keeps what it is.
replace_from_lacking :
    (d : ℕ) (s old new : Bytes)
    → has_byte d old ≡ true
    → has_byte d s ≡ false
    → replace_from 0 s old new ≡ s
unfolding replace_from
replace_from_lacking d [] old new h l = refl
replace_from_lacking d (c ∷ s) old new h l =
    ground (arith, has_byte-has_prefix d (c ∷ s) old, replace_from_lacking d s old new)

replace_from_skipped :
    (t s old new : Bytes) → replace_from (length t) (t ++ s) old new ≡ replace_from 0 s old new
unfolding replace_from
replace_from_skipped [] s old new = refl
replace_from_skipped (c ∷ t) s old new = replace_from_skipped t s old new

-- An occurrence before a text that lacks one of its bytes is the only one.
pub replace_all-append :
    (d : ℕ) (old s new : Bytes)
    → has_byte d old ≡ true
    → has_byte d s ≡ false
    → replace_all (old ++ s) old new ≡ new ++ s
unfolding replace_all replace_from
replace_all-append d [] s new h l = ground arith
replace_all-append d (c ∷ t) s new h l = ground (
  arith,
  has_prefix-append (c ∷ t) s,
  replace_from_skipped t s (c ∷ t) new,
  replace_from_lacking d s (c ∷ t) new,
)

pub contains-append : (s t : Bytes) → contains (s ++ t) s ≡ true
unfolding contains
contains-append s t = starts (s ++ t) s (has_prefix-append s t)
  where
    starts : (u v : Bytes) → has_prefix u v ≡ true → contains u v ≡ true
    starts [] v p = p
    starts (c ∷ u) v p = ground arith

-- Replacing one byte is a substitution.
pub replace_all-one :
    (c : ℕ) (s new : Bytes)
    → replace_all s (c ∷ []) new ≡ flat_map (λ x. if x == c then new else x ∷ []) s
unfolding replace_all replace_from has_prefix flat_map
replace_all-one c [] new = refl
replace_all-one c (x ∷ s) new = ground (arith, replace_all-one c s new)

-- strings.Join.
unfoldable pub join_texts : Bytes → List Bytes → Bytes
join_texts sep [] = []
join_texts sep (e ∷ es) =
    let rest = join_texts sep es in elim es [ [] ↦ e | _ ∷ _ ↦ e ++ sep ++ rest ]
