-- ===== src/Safeconvert/Exact.antt =====
-- safeconvert/int.go: the checked conversions keep the number or report why they cannot.
use gofrog.Prelude.{refl, ◌<◌, ◌≡◌, ◌↔◌, arith, ℕ, ℤ, pos, negsuc, ◌≤ℤ◌}
use gofrog.Safeconvert.{
  ok, err, negative_value, overflow, max_int, IsInt, IsUint, int_to_uint, uint_to_int,
  int64_to_uint64, uint64_to_int64, uint64_to_int,
}

-- For every `int`, `IntToUint` returns n exactly when the argument is the non-negative number n, and
-- its error exactly when the argument is below zero.
pub int_to_uint-exact :
    (i : ℤ) (n : ℕ)
    → IsInt i
    → ((int_to_uint i ≡ ok n) ↔ (i ≡ pos n))
      × ((int_to_uint i ≡ err negative_value) ↔ (i ≤ℤ negsuc 0))
unfolding int_to_uint
int_to_uint-exact (pos m) n h = (ground arith, ground arith)
int_to_uint-exact (negsuc m) n h = (ground arith, ground arith)

-- For every `uint`, `UintToInt` returns i exactly when i is the argument and an `int`, and its
-- error exactly when the argument exceeds the largest `int`.
pub uint_to_int-exact :
    (u : ℕ) (i : ℤ)
    → IsUint u
    → ((uint_to_int u ≡ ok i) ↔ ((i ≡ pos u) × IsInt i))
      × ((uint_to_int u ≡ err overflow) ↔ (max_int < u))
unfolding uint_to_int
uint_to_int-exact u i h = ((λ e. (ground arith, ground arith), λ e. ground arith), ground arith)

-- Whatever `Int64ToUint64` returns for an `int64`, both conversions back return that `int64`.
pub uint64_to_int64-int64_to_uint64 :
    (i : ℤ) {n : ℕ}
    → IsInt i
    → int64_to_uint64 i ≡ ok n
    → (uint64_to_int64 n ≡ ok i) × (uint64_to_int n ≡ ok i)
unfolding int64_to_uint64 uint64_to_int64 uint64_to_int
uint64_to_int64-int64_to_uint64 (pos m) h e = ground arith
uint64_to_int64-int64_to_uint64 (negsuc m) h e = ground arith

-- Whatever `Uint64ToInt64` returns for a `uint64`, `Int64ToUint64` returns that `uint64` for it.
pub int64_to_uint64-uint64_to_int64 :
    (u : ℕ) {i : ℤ} → IsUint u → uint64_to_int64 u ≡ ok i → int64_to_uint64 i ≡ ok u
unfolding int64_to_uint64 uint64_to_int64
int64_to_uint64-uint64_to_int64 u {i = pos m} h e = ground arith
int64_to_uint64-uint64_to_int64 u {i = negsuc m} h e = ground arith

-- Whatever `Int64ToUint64` returns for an `int64`, both conversions back return that `int64`; whatever
-- `Uint64ToInt64` returns for a `uint64`, `Int64ToUint64` returns that `uint64` for it.
pub int64_to_uint64-round_trip :
    (i j : ℤ) (u n : ℕ)
    → IsInt i
    → IsUint u
    → int64_to_uint64 i ≡ ok n
    → uint64_to_int64 u ≡ ok j
    → (uint64_to_int64 n ≡ ok i) × (uint64_to_int n ≡ ok i) × (int64_to_uint64 j ≡ ok u)
int64_to_uint64-round_trip i j u n h k e f =
    let (a, b) = uint64_to_int64-int64_to_uint64 i h e in
    (a, b, int64_to_uint64-uint64_to_int64 u k f)

-- For every `int` i and every `uint` u: `IntToUint` returns n exactly when i is the non-negative number
-- n, and its error exactly when i is below zero; `UintToInt` returns j exactly when j is u and an
-- `int`, and its error exactly when u exceeds the largest `int`; and the three conversions of 64 bits
-- return what these two return.
pub int_to_uint-uint_to_int :
    (i j : ℤ) (u n : ℕ)
    → IsInt i
    → IsUint u
    → ((int_to_uint i ≡ ok n) ↔ (i ≡ pos n))
      × ((int_to_uint i ≡ err negative_value) ↔ (i ≤ℤ negsuc 0))
      × ((uint_to_int u ≡ ok j) ↔ ((j ≡ pos u) × IsInt j))
      × ((uint_to_int u ≡ err overflow) ↔ (max_int < u))
      × (int64_to_uint64 i ≡ int_to_uint i)
      × (uint64_to_int64 u ≡ uint_to_int u)
      × (uint64_to_int u ≡ uint_to_int u)
unfolding int_to_uint uint_to_int int64_to_uint64 uint64_to_int64 uint64_to_int
int_to_uint-uint_to_int i j u n h k =
    let (a, b) = int_to_uint-exact i n h in
    let (c, d) = uint_to_int-exact u j k in (a, b, c, d, refl, refl, refl)
