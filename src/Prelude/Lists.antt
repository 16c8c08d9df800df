-- ===== src/Prelude/Lists.antt =====
-- Lists measured and indexed by native numbers, under the library's names.
use Prim.Native.Nat.{ℕ, zero, suc, ◌+◌, ◌≤◌}
use mathlib.Core.Path.{◌≡◌, refl, ap}
use mathlib.Core.List.{List, [], ◌∷◌, ◌++◌}
use mathlib.Core.Option.{Option, none, some}
use native.Mathlib.Omega.{arith}

module _ {ℓ} {A : Type ℓ} where
  abbrev pub length : List A → ℕ
  length [] = 0
  length (x ∷ xs) = suc (length xs)

  abbrev pub get_elem? : List A → ℕ → Option A
  get_elem? [] i = none
  get_elem? (x ∷ xs) zero = some x
  get_elem? (x ∷ xs) (suc i) = get_elem? xs i

  pub length-append : (xs ys : List A) → length (xs ++ ys) ≡ length xs + length ys
  length-append [] ys = omega arith
  length-append (x ∷ xs) ys = omega (arith, length-append xs ys)

-- The list of a value that may be missing, as an error in a joined error.
abbrev pub parts {ℓ} : {A : Type ℓ} → Option A → List A
parts none = []
parts (some a) = a ∷ []

-- A predicate at every element.
abbrev pub All {ℓ κ} : {A : Type ℓ} → (A → Type κ) → List A → Type κ
All P [] = Unit
All P (x ∷ xs) = P x × All P xs

pub All-append {ℓ κ} :
    {A : Type ℓ} (P : A → Type κ) (xs ys : List A) → All P xs → All P ys → All P (xs ++ ys)
All-append P [] ys h k = k
All-append P (x ∷ xs) ys h k = (h.0, All-append P xs ys h.1 k)

-- The first elements of a list.
module _ {ℓ} {A : Type ℓ} where
  abbrev pub take : ℕ → List A → List A
  take zero l = []
  take (suc i) [] = []
  take (suc i) (a ∷ l) = a ∷ take i l

  pub length-take-le : (i : ℕ) (l : List A) → length (take i l) ≤ i
  length-take-le zero l = omega arith
  length-take-le (suc i) [] = omega arith
  length-take-le (suc i) (a ∷ l) = omega (arith, length-take-le i l)

  -- A list within the bound is kept whole.
  pub take_of_length-le : (i : ℕ) (l : List A) → length l ≤ i → take i l ≡ l
  take_of_length-le i [] within = elim i as (λ j. take j [] ≡ []) [ zero ↦ refl | suc j ↦ refl ]
  take_of_length-le zero (a ∷ l) within = absurd (omega arith)
  take_of_length-le (suc i) (a ∷ l) within =
      let shorter : length l ≤ i = omega arith in ap (◌∷◌ a) (take_of_length-le i l shorter)
