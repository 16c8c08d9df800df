-- ===== src/Safeconvert.antt =====
-- safeconvert/int.go: checked conversions between `int` and `uint` (64 bits, as on the platforms that
-- the library is built for) and between `int64` and `uint64`.
use gofrog.Prelude.{ℕ, ◌-◌, ◌%◌, ◌≤◌, ◌<◌, ltb, leb, if◌then◌else◌, ℤ, pos, negsuc, ltb_ℤ}
mod Exact
mod Tests

-- The two messages of `errors.New`.
pub data ConvertError : Type 0 where
  negative_value overflow : ConvertError

pub data Converted (A : Type 0) : Type 0 where
  ok : A → Converted A
  err : ConvertError → Converted A

-- math.MaxInt and math.MaxInt64.
abbrev pub max_int : ℕ
max_int = 9223372036854775807

abbrev pub word : ℕ
word = 18446744073709551616

-- The range of `int` and `int64`.
abbrev pub IsInt : ℤ → Type 0
IsInt (pos n) = n ≤ max_int
IsInt (negsuc n) = n ≤ max_int

-- The range of `uint` and `uint64`.
abbrev pub IsUint : ℕ → Type 0
IsUint n = n < word

-- Go's plain conversions `uint(i)` and `int(u)`, which keep the 64 bits.
pub uint_of : ℤ → ℕ
uint_of (pos n) = n % word
uint_of (negsuc n) = word - 1 - n % word

pub int_of : ℕ → ℤ
int_of u = if leb u max_int then pos u else negsuc (word - 1 - u)

unfoldable pub int_to_uint : ℤ → Converted ℕ
unfolding uint_of
int_to_uint i = if ltb_ℤ i (pos 0) then err negative_value else ok (uint_of i)

unfoldable pub uint_to_int : ℕ → Converted ℤ
unfolding int_of
uint_to_int u = if ltb max_int u then err overflow else ok (int_of u)

unfoldable pub int64_to_uint64 : ℤ → Converted ℕ
unfolding uint_of
int64_to_uint64 i = if ltb_ℤ i (pos 0) then err negative_value else ok (uint_of i)

unfoldable pub uint64_to_int64 : ℕ → Converted ℤ
unfolding int_of
uint64_to_int64 u = if ltb max_int u then err overflow else ok (int_of u)

unfoldable pub uint64_to_int : ℕ → Converted ℤ
unfolding int_of
uint64_to_int u = if ltb max_int u then err overflow else ok (int_of u)
