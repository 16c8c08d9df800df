-- ===== src/Prelude/Slots.antt =====
-- A list of slots that change one at a time, and weights summed over it.
use Prim.Native.Nat.{ℕ, zero, suc, ◌+◌}
use mathlib.Core.Path.{◌≡◌}
use mathlib.Core.List.{List, [], ◌∷◌, ◌++◌}
use mathlib.Core.Option.{some}
use native.Mathlib.Omega.{arith}
use gofrog.Prelude.Lists.{get_elem?}

module _ {ℓ} {A : Type ℓ} where
  -- A write out of bounds changes nothing.
  abbrev pub put_at : List A → ℕ → A → List A
  put_at [] i a = []
  put_at (b ∷ l) zero a = a ∷ l
  put_at (b ∷ l) (suc i) a = b ∷ put_at l i a

  abbrev pub weigh : (A → ℕ) → List A → ℕ
  weigh f [] = 0
  weigh f (a ∷ l) = f a + weigh f l

  pub weigh-put_at :
      (f : A → ℕ) (l : List A) (i : ℕ) (a b : A)
      → get_elem? l i ≡ some a
      → weigh f (put_at l i b) + f a ≡ weigh f l + f b
  weigh-put_at f [] i a b h = ground arith
  weigh-put_at f (c ∷ l) zero a b h = ground arith
  weigh-put_at f (c ∷ l) (suc i) a b h = omega (arith, weigh-put_at f l i a b h)

  pub weigh-append : (f : A → ℕ) (l m : List A) → weigh f (l ++ m) ≡ weigh f l + weigh f m
  weigh-append f [] m = omega arith
  weigh-append f (a ∷ l) m = omega (arith, weigh-append f l m)
