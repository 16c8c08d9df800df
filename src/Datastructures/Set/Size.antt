-- ===== src/Datastructures/Set/Size.antt =====
-- datastructures/set.go: the sizes of unions and intersections.
use gofrog.Prelude.{
  MapRange, ℕ, none, ◌+◌, ◌||◌, ◌&&◌, ◌≡◌, refl, List, [], ◌∷◌, true, false, if◌then◌else◌, length,
  some, arith,
}
use gofrog.Datastructures.Set.{
  Set, make_set, has_key, exists_key, add, add_elements, size, add_common, intersect, union,
}
use gofrog.Datastructures.Set.Keys.{
  Distinct, has_key-put_key, length-put_key, has_key-perm, length-perm, Distinct-perm,
  length-eq_of_same_keys,
}
use gofrog.Datastructures.Set.Algebra.{
  IsValid, exists-union-intersect, exists-intersect, exists-add_elements, add_elements-IsValid,
  intersect-IsValid, exists-add_common, add_common-IsValid,
}
use mathlib.Core.List.Permᴰ

module _ {ℓ} {T : Type ℓ} (dec : Discrete T) where
  -- How many of the keys lie in the list, and how many do not.
  shared : List T → List T → ℕ
  shared m [] = 0
  shared m (k ∷ ks) = if has_key dec k m then shared m ks + 1 else shared m ks

  missing : List T → List T → ℕ
  missing m [] = 0
  missing m (k ∷ ks) = if has_key dec k m then missing m ks else missing m ks + 1

  shared-add-missing : (m ks : List T) → shared m ks + missing m ks ≡ length ks
  unfolding shared missing
  shared-add-missing m [] = refl
  shared-add-missing m (k ∷ ks) = ground (arith, shared-add-missing m ks)

  missing-same_keys :
      (m n ks : List T)
      → ((j : T) → has_key dec j ks ≡ true → has_key dec j m ≡ has_key dec j n)
      → missing m ks ≡ missing n ks
  unfolding missing has_key
  missing-same_keys m n [] h = refl
  missing-same_keys m n (k ∷ ks) h =
      ground (arith, h k, missing-same_keys m n ks (λ j e. h j (ground arith)))

  size-add_elements :
      (set : Set T) (ks : List T)
      → Distinct dec ks
      → size dec (add_elements dec set ks) ≡ size dec set + missing set.container ks
  unfolding add_elements add missing size
  size-add_elements set [] d = omega arith
  size-add_elements set (k ∷ ks) d = ground (
    arith,
    size-add_elements (add dec set k) ks d.1,
    length-put_key dec k set.container,
    missing-same_keys (add dec set k).container set.container ks
        (λ j e. ground (arith, has_key-put_key dec j k set.container)),
  )

  module _ (range : MapRange T) where
    size-add_common :
        (into big : Set T) (ks : List T)
        → Distinct dec ks
        → ((j : T) → has_key dec j ks ≡ true → has_key dec j into.container ≡ false)
        → size dec (add_common dec range into big ks) ≡ size dec into + shared big.container ks
    unfolding add_common shared size
    size-add_common into big [] d h = omega arith
    size-add_common into big (k ∷ ks) d h = ground (
      arith,
      size-add_common into big ks d.1 (λ j e. ground (arith, h j)),
      size-add_common (add dec into k) big ks d.1
          (λ j e. ground (arith, h j, has_key-put_key dec j k into.container)),
      length-put_key dec k into.container,
      h k,
    )

    size-union :
        (set set_b : Set T)
        → IsValid dec set
        → IsValid dec set_b
        → size dec (union dec range set (some set_b))
          ≡ size dec set + missing set.container (range.visit set_b.container)
    unfolding union size exists_key
    size-union set set_b va vb =
        let first = add_elements dec make_set (range.visit set.container) in
        let second = range.visit set_b.container in
        let same : (j : T) → has_key dec j first.container ≡ has_key dec j set.container = λ j.
          ground (
            arith,
            exists-add_elements dec make_set (range.visit set.container) j,
            has_key-perm dec j (range.visits_all set.container),
          ) in
        let all_first =
          length-eq_of_same_keys dec first.container set.container
            (add_elements-IsValid dec make_set (range.visit set.container) tt) va same in
        omega (
          arith,
          all_first,
          size-add_elements first second
              (Distinct-perm dec (Permᴰ.symm (range.visits_all set_b.container)) vb),
          missing-same_keys first.container set.container second (λ j e. same j),
        )

    size-intersect :
        (set set_b : Set T)
        → IsValid dec set_b
        → size dec (intersect dec range set (some set_b))
          ≡ shared set.container (range.visit set_b.container)
    unfolding size exists_key make_set
    size-intersect set set_b vb =
        let second = range.visit set_b.container in
        let same =
          length-eq_of_same_keys dec (intersect dec range set (some set_b)).container
            (add_common dec range make_set set second).container
            (intersect-IsValid dec range set set_b)
            (add_common-IsValid dec range make_set set second tt)
            (λ j. ground (
              arith,
              (exists-intersect dec range set set_b j).1,
              exists-add_common dec range make_set set second j,
              has_key-perm dec j (range.visits_all set_b.container),
            )) in
        omega (
          arith,
          same,
          size-add_common make_set set second
              (Distinct-perm dec (Permᴰ.symm (range.visits_all set_b.container)) vb) (λ j e. refl),
        )

    sizes_total :
        (set set_b : Set T)
        → IsValid dec set
        → IsValid dec set_b
        → size dec (union dec range set (some set_b))
            + size dec (intersect dec range set (some set_b))
          ≡ size dec set + size dec set_b
    unfolding size
    sizes_total set set_b va vb = omega (
      arith,
      size-union set set_b va vb,
      size-intersect set set_b vb,
      shared-add-missing set.container (range.visit set_b.container),
      length-perm dec (range.visits_all set_b.container),
    )

    -- Of two valid sets: the union is valid and holds what one of them holds, the intersection is valid
    -- and holds what both hold, and the two results together are as large as the two sets; a missing
    -- second set leaves the first as the union and nothing as the intersection.
    pub size-union-intersect :
        (set set_b : Set T) (key : T)
        → IsValid dec set
        → IsValid dec set_b
        → (IsValid dec (union dec range set (some set_b)))
          × (exists_key dec (union dec range set (some set_b)) key
              ≡ exists_key dec set key || exists_key dec set_b key)
          × (IsValid dec (intersect dec range set (some set_b)))
          × (exists_key dec (intersect dec range set (some set_b)) key
              ≡ exists_key dec set key && exists_key dec set_b key)
          × (size dec (union dec range set (some set_b))
                + size dec (intersect dec range set (some set_b))
              ≡ size dec set + size dec set_b)
          × (union dec range set none ≡ set)
          × (exists_key dec (intersect dec range set none) key ≡ false)
    size-union-intersect set set_b key va vb =
        let ((valid, held, same), (valid', shared, none_shared)) =
          exists-union-intersect dec range set set_b key in
        (valid, held, valid', shared, sizes_total set set_b va vb, same, none_shared)
