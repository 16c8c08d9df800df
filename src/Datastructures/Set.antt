-- ===== src/Datastructures/Set.antt =====
-- datastructures/set.go: `Set[T]`. The keys of the map `container` stand in a list; the order in which
-- `range` visits them, which Go leaves open, is a parameter.
mod Keys
pub mod Algebra
mod Size
mod Tests
use gofrog.Prelude.{
  ℕ, List, [], ◌∷◌, ◌++◌, Bool, true, false, if◌then◌else◌, ltb, holds, length, Option, none, some,
  MapRange,
}

pub record Set {ℓ} (T : Type ℓ) : Type ℓ where
  pub container : List T

-- The outcome of `Remove`: nil, or its error.
pub data Removed : Type 0 where
  done : Removed
  no_such_item : Removed

unfoldable pub make_set {ℓ} : {T : Type ℓ} → Set T
make_set = record { container = [] }

module _ {ℓ} {T : Type ℓ} (dec : Discrete T) where
  -- The map's lookup, write and `delete`.
  unfoldable pub has_key : T → List T → Bool
  has_key key [] = false
  has_key key (k ∷ m) = if holds (dec k key) then true else has_key key m

  unfoldable pub put_key : T → List T → List T
  unfolding has_key
  put_key key m = if has_key key m then m else m ++ key ∷ []

  unfoldable pub delete_key : T → List T → List T
  delete_key key [] = []
  delete_key key (k ∷ m) =
      let rest = delete_key key m in if holds (dec k key) then rest else k ∷ rest

  unfoldable pub exists_key : Set T → T → Bool
  unfolding has_key
  exists_key set key = has_key key set.container

  unfoldable pub add : Set T → T → Set T
  unfolding put_key
  add set key = record { container = put_key key set.container }

  -- The loops over `elements` and over a map's keys.
  unfoldable pub add_elements : Set T → List T → Set T
  unfolding add
  add_elements set [] = set
  add_elements set (element ∷ elements) = add_elements (add set element) elements

  unfoldable pub make_set_from_elements : List T → Set T
  unfolding make_set add_elements
  make_set_from_elements elements = add_elements make_set elements

  unfoldable pub remove : Set T → T → Set T × Removed
  unfolding has_key delete_key
  remove set key =
      if has_key key set.container
      then (record { container = delete_key key set.container }, done)
      else (set, no_such_item)

  unfoldable pub size : Set T → ℕ
  size set = length set.container

  module _ (range : MapRange T) where
    -- `append` of every key that the loop visits.
    unfoldable pub append_all : List T → List T → List T
    append_all slice [] = slice
    append_all slice (key ∷ keys) = append_all (slice ++ key ∷ []) keys

    unfoldable pub to_slice : Set T → List T
    unfolding append_all
    to_slice set = append_all [] (range.visit set.container)

    unfoldable pub add_common : Set T → Set T → List T → Set T
    unfolding add exists_key
    add_common into big [] = into
    add_common into big (key ∷ keys) =
        add_common (if exists_key big key then add into key else into) big keys

    unfoldable pub intersect : Set T → Option (Set T) → Set T
    unfolding make_set size add_common
    intersect set none = make_set
    intersect set (some set_b) =
        if ltb (size set_b) (size set)
        then add_common make_set set (range.visit set_b.container)
        else add_common make_set set_b (range.visit set.container)

    unfoldable pub union : Set T → Option (Set T) → Set T
    unfolding make_set add_elements
    union set none = set
    union set (some set_b) =
        add_elements (add_elements make_set (range.visit set.container))
          (range.visit set_b.container)
