-- ===== src/Datastructures/Set/Keys.antt =====
-- datastructures/set.go: the keys of the map behind a set, under a write, a `delete` and a `range`.
use mathlib.Core.List.{Permᴰ}
use gofrog.Prelude.{
  ◌+◌, ◌≡◌, refl, List, [], ◌∷◌, ◌++◌, true, false, not, ◌&&◌, ◌||◌, if◌then◌else◌, holds, length,
  length-append, arith, ◌∙◌,
}
use gofrog.Datastructures.Set.{has_key, put_key, delete_key}

module _ {ℓ} {T : Type ℓ} (dec : Discrete T) where
  -- No key stands twice.
  abbrev pub Distinct : List T → Type 0
  Distinct [] = Unit
  Distinct (k ∷ m) = (has_key dec k m ≡ false) × Distinct m

  pub has_key-append :
      (j : T) (m n : List T) → has_key dec j (m ++ n) ≡ has_key dec j m || has_key dec j n
  unfolding has_key
  has_key-append j [] n = refl
  has_key-append j (k ∷ m) n = ground (arith, has_key-append j m n)

  pub has_key-put_key :
      (j k : T) (m : List T) → has_key dec j (put_key dec k m) ≡ holds (dec k j) || has_key dec j m
  unfolding put_key has_key
  has_key-put_key j k m = ground (arith, has_key-append j m (k ∷ []))

  pub has_key-delete_key :
      (j k : T) (m : List T)
      → has_key dec j (delete_key dec k m) ≡ not (holds (dec k j)) && has_key dec j m
  unfolding delete_key has_key
  has_key-delete_key j k [] = ground arith
  has_key-delete_key j k (i ∷ m) = ground (arith, has_key-delete_key j k m)

  pub length-put_key :
      (k : T) (m : List T)
      → length (put_key dec k m) ≡ (if has_key dec k m then length m else length m + 1)
  unfolding put_key
  length-put_key k m = ground (arith, length-append m (k ∷ []))

  delete_key_absent : (k : T) (m : List T) → has_key dec k m ≡ false → delete_key dec k m ≡ m
  unfolding delete_key has_key
  delete_key_absent k [] h = refl
  delete_key_absent k (i ∷ m) h = ground (arith, delete_key_absent k m)

  pub length-delete_key :
      (k : T) (m : List T)
      → Distinct m
      → has_key dec k m ≡ true
      → length (delete_key dec k m) + 1 ≡ length m
  unfolding delete_key has_key
  length-delete_key k [] d h = ground arith
  length-delete_key k (i ∷ m) d h = ground (arith, length-delete_key k m d.1, delete_key_absent k m)

  pub Distinct-append_one :
      (m : List T) (k : T) → Distinct m → has_key dec k m ≡ false → Distinct (m ++ k ∷ [])
  unfolding has_key
  Distinct-append_one [] k d h = (refl, tt)
  Distinct-append_one (i ∷ m) k d h =
      (ground (arith, has_key-append i m (k ∷ [])), Distinct-append_one m k d.1 (ground arith))

  pub Distinct-put_key : (k : T) (m : List T) → Distinct m → Distinct (put_key dec k m)
  unfolding put_key
  Distinct-put_key k m d = ground (arith, Distinct-append_one m k d)

  pub Distinct-delete_key : (k : T) (m : List T) → Distinct m → Distinct (delete_key dec k m)
  unfolding delete_key
  Distinct-delete_key k [] d = tt
  Distinct-delete_key k (i ∷ m) d =
      ground (arith, Distinct-delete_key k m d.1, has_key-delete_key i k m)

  -- What `range` visits is what the map holds.
  pub has_key-perm : {m n : List T} (j : T) → Permᴰ m n → has_key dec j m ≡ has_key dec j n
  unfolding has_key
  has_key-perm j Permᴰ.nil = refl
  has_key-perm j (Permᴰ.cons e p) = ground (arith, has_key-perm j p)
  has_key-perm j (Permᴰ.swap e f) = ground arith
  has_key-perm j (Permᴰ.trans p q) = has_key-perm j p ∙ has_key-perm j q

  pub length-perm : {m n : List T} → Permᴰ m n → length m ≡ length n
  length-perm Permᴰ.nil = refl
  length-perm (Permᴰ.cons e p) = omega (arith, length-perm p)
  length-perm (Permᴰ.swap e f) = refl
  length-perm (Permᴰ.trans p q) = length-perm p ∙ length-perm q

  pub Distinct-perm : {m n : List T} → Permᴰ m n → Distinct m → Distinct n
  unfolding has_key
  Distinct-perm Permᴰ.nil d = tt
  Distinct-perm (Permᴰ.cons {b = b} e p) d = (ground (arith, has_key-perm b p), Distinct-perm p d.1)
  Distinct-perm (Permᴰ.swap e f) d = ground arith
  Distinct-perm (Permᴰ.trans p q) d = Distinct-perm q (Distinct-perm p d)

  -- Two lists without repetition that hold the same keys are equally long.
  pub length-eq_of_same_keys :
      (m n : List T)
      → Distinct m
      → Distinct n
      → ((j : T) → has_key dec j m ≡ has_key dec j n)
      → length m ≡ length n
  unfolding has_key
  length-eq_of_same_keys [] [] d e h = refl
  length-eq_of_same_keys [] (k ∷ n) d e h = ground (arith, h k)
  length-eq_of_same_keys (k ∷ m) n d e h =
      let inside : has_key dec k n ≡ true = ground (arith, h k) in
      let shorter =
        length-eq_of_same_keys m (delete_key dec k n) d.1 (Distinct-delete_key k n e)
          (λ j. ground (arith, h j, has_key-delete_key j k n)) in
      omega (arith, length-delete_key k n e inside, shorter)
