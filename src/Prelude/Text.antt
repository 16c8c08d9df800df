-- ===== src/Prelude/Text.antt =====
-- Go's strings as lists of bytes, with their comparisons.
use Prim.Native.Nat.{ℕ}
use Prim.Native.Char.{code}
use Prim.Native.String.{String}
use mathlib.Core.Path.{◌≡◌, refl}
use mathlib.Core.Logic.{◌↔◌}
use mathlib.Core.Bool.{Bool, true, false, ◌&&◌}
use mathlib.Core.List.{List, [], ◌∷◌}
use native.Mathlib.Omega.{arith}
use gofrog.Prelude.Tests.{◌==◌, ltb, if◌then◌else◌}
use gofrog.Prelude.Int.{ℤ, pos, negsuc, neg}

abbrev pub Bytes : Type 0
Bytes = List ℕ

-- The bytes of an ASCII text.
abbrev pub codes : String → Bytes
codes String.[] = []
codes (String.◌∷◌ c s) = code c ∷ codes s

unfoldable pub same_bytes : Bytes → Bytes → Bool
same_bytes [] [] = true
same_bytes [] (_ ∷ _) = false
same_bytes (_ ∷ _) [] = false
same_bytes (a ∷ s) (b ∷ t) = a == b && same_bytes s t

-- strings.Compare.
unfoldable pub compare_bytes : Bytes → Bytes → ℤ
compare_bytes [] [] = pos 0
compare_bytes [] (_ ∷ _) = negsuc 0
compare_bytes (_ ∷ _) [] = pos 1
compare_bytes (a ∷ s) (b ∷ t) =
    let rest = compare_bytes s t in if ltb a b then negsuc 0 else if ltb b a then pos 1 else rest

pub same_bytes_iff : (s t : Bytes) → (same_bytes s t ≡ true) ↔ (s ≡ t)
unfolding same_bytes
same_bytes_iff [] [] = ground arith
same_bytes_iff [] (b ∷ t) = ground arith
same_bytes_iff (a ∷ s) [] = ground arith
same_bytes_iff (a ∷ s) (b ∷ t) = ground (arith, same_bytes_iff s t)

pub compare_bytes_antisym : (s t : Bytes) → compare_bytes s t ≡ neg (compare_bytes t s)
unfolding compare_bytes
compare_bytes_antisym [] [] = refl
compare_bytes_antisym [] (b ∷ t) = refl
compare_bytes_antisym (a ∷ s) [] = refl
compare_bytes_antisym (a ∷ s) (b ∷ t) = ground (arith, compare_bytes_antisym s t)

pub compare_bytes_zero : (s t : Bytes) → compare_bytes s t ≡ pos 0 → s ≡ t
unfolding compare_bytes
compare_bytes_zero [] [] h = refl
compare_bytes_zero [] (b ∷ t) h = ground arith
compare_bytes_zero (a ∷ s) [] h = ground arith
compare_bytes_zero (a ∷ s) (b ∷ t) h = ground (arith, compare_bytes_zero s t)

bytes_decide : (s t : Bytes) (b : Bool) → same_bytes s t ≡ b → Dec (s ≡ t)
bytes_decide s t true h = yes (ground (arith, same_bytes_iff s t))
bytes_decide s t false h = no (ground (arith, same_bytes_iff s t))

unfoldable pub bytes_discrete : Discrete Bytes
unfolding bytes_decide
bytes_discrete s t = bytes_decide s t (same_bytes s t) refl
