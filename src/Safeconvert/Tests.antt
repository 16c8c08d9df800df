-- ===== src/Safeconvert/Tests.antt =====
-- Runs of safeconvert/int.go, and its theorems at concrete inputs.
use gofrog.Prelude.{◌+◌, ◌<◌, ◌≡◌, ◌↔◌, refl, arith, pos, negsuc, ◌≤ℤ◌}
use gofrog.Safeconvert.{
  ok, err, negative_value, overflow, max_int, IsInt, int_to_uint, uint_to_int, int64_to_uint64,
  uint64_to_int64, uint64_to_int,
}
use gofrog.Safeconvert.Exact.{int_to_uint-uint_to_int}

minus_one : int_to_uint (negsuc 0) ≡ err negative_value
unfolding int_to_uint
minus_one = refl

too_large : uint_to_int (max_int + 1) ≡ err overflow
unfolding uint_to_int
too_large = refl

int_to_uint-uint_to_int_example :
    ((int_to_uint (pos 100) ≡ ok 100) ↔ (pos 100 ≡ pos 100))
    × ((int_to_uint (pos 100) ≡ err negative_value) ↔ (pos 100 ≤ℤ negsuc 0))
    × ((uint_to_int 7 ≡ ok (pos 7)) ↔ ((pos 7 ≡ pos 7) × IsInt (pos 7)))
    × ((uint_to_int 7 ≡ err overflow) ↔ (max_int < 7))
    × (int64_to_uint64 (pos 100) ≡ int_to_uint (pos 100))
    × (uint64_to_int64 7 ≡ uint_to_int 7)
    × (uint64_to_int 7 ≡ uint_to_int 7)
int_to_uint-uint_to_int_example =
    int_to_uint-uint_to_int (pos 100) (pos 7) 7 100 (omega arith) (omega arith)
