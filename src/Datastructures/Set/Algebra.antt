-- ===== src/Datastructures/Set/Algebra.antt =====
-- datastructures/set.go: what the set's operations promise, for every set that they can build and for
-- every order in which Go may range over a map.
use mathlib.Core.List.{append-nil, append_assoc}
use mathlib.Core.List.Permᴰ
use gofrog.Prelude.{
  MapRange, ◌+◌, ◌≡◌, refl, sym, ◌∙◌, List, [], ◌∷◌, ◌++◌, false, not, ◌&&◌, ◌||◌, if◌then◌else◌,
  holds, length, none, some, arith,
}
use gofrog.Datastructures.Set.{
  Set, done, no_such_item, make_set, has_key, exists_key, add, add_elements, make_set_from_elements,
  remove, size, append_all, to_slice, add_common, intersect, union,
}
use gofrog.Datastructures.Set.Keys.{
  Distinct, has_key-put_key, has_key-delete_key, length-put_key, length-delete_key,
  Distinct-put_key, Distinct-delete_key, has_key-perm, length-perm, Distinct-perm,
}

module _ {ℓ} {T : Type ℓ} (dec : Discrete T) where
  abbrev pub IsValid : Set T → Type 0
  IsValid set = Distinct dec set.container

  -- After `Add` and after a `Remove` that found its item the set holds what it held, and the item or
  -- all but the item; `Remove` reports an error exactly on an item that is not there, and then
  -- changes nothing.
  pub exists-add-remove :
      (set : Set T) (key other : T)
      → (exists_key dec (add dec set key) other ≡ holds (dec key other) || exists_key dec set other)
        × (exists_key dec (remove dec set key).0 other
            ≡ not (holds (dec key other)) && exists_key dec set other)
        × ((remove dec set key).1 ≡ (if exists_key dec set key then done else no_such_item))
        × ((remove dec set key).0
            ≡ (if exists_key dec set key then (remove dec set key).0 else set))
  unfolding add remove exists_key
  exists-add-remove set key other = (
    has_key-put_key dec other key set.container,
    ground (arith, has_key-delete_key dec other key set.container),
    ground arith,
    ground arith,
  )

  -- On a valid set `Add` grows the size by one exactly if the item is new, and `Remove` lowers it by
  -- one exactly if the item is there; both results are valid.
  pub size-add-remove :
      (set : Set T) (key : T)
      → IsValid set
      → (size dec (add dec set key)
          ≡ (if exists_key dec set key then size dec set else size dec set + 1))
        × (size dec set ≡ (
            if exists_key dec set key
            then size dec (remove dec set key).0 + 1
            else size dec (remove dec set key).0))
        × IsValid (add dec set key)
        × IsValid (remove dec set key).0
  unfolding add remove exists_key size
  size-add-remove set key valid = (
    length-put_key dec key set.container,
    ground (arith, length-delete_key dec key set.container),
    Distinct-put_key dec key set.container valid,
    ground (arith, Distinct-delete_key dec key set.container),
  )

  -- On a valid set: `Add` yields a valid set that holds what the set held and the item, one larger exactly
  -- if the item is new; `Remove` yields a valid set that holds what the set held but the item, one
  -- smaller exactly if the item was there, and it reports an error exactly when it was not.
  pub add-remove :
      (set : Set T) (key other : T)
      → IsValid set
      → IsValid (add dec set key)
        × IsValid (remove dec set key).0
        × (exists_key dec (add dec set key) other
            ≡ holds (dec key other) || exists_key dec set other)
        × (exists_key dec (remove dec set key).0 other
            ≡ not (holds (dec key other)) && exists_key dec set other)
        × ((remove dec set key).1 ≡ (if exists_key dec set key then done else no_such_item))
        × (size dec (add dec set key)
            ≡ (if exists_key dec set key then size dec set else size dec set + 1))
        × (size dec set ≡ (
            if exists_key dec set key
            then size dec (remove dec set key).0 + 1
            else size dec (remove dec set key).0))
  add-remove set key other valid =
      let (held, kept, outcome, same) = exists-add-remove set key other in
      let (grown, shrunk, added, removed) = size-add-remove set key valid in
      (added, removed, held, kept, outcome, grown, shrunk)

  pub add_elements-IsValid :
      (set : Set T) (elements : List T) → IsValid set → IsValid (add_elements dec set elements)
  unfolding add_elements
  add_elements-IsValid set [] valid = valid
  add_elements-IsValid set (e ∷ es) valid =
      add_elements-IsValid (add dec set e) es (Distinct-put_key dec e set.container valid)

  pub exists-add_elements :
      (set : Set T) (elements : List T) (key : T)
      → exists_key dec (add_elements dec set elements) key
        ≡ exists_key dec set key || has_key dec key elements
  unfolding add_elements exists_key has_key
  exists-add_elements set [] key = ground arith
  exists-add_elements set (e ∷ es) key =
      ground
        (arith, exists-add_elements (add dec set e) es key, has_key-put_key dec key e set.container)

  -- A set made from a list of elements, repeated or not, is valid and holds exactly the listed ones.
  pub exists-make_set_from_elements :
      (elements : List T)
      → IsValid (make_set_from_elements dec elements)
        × ((key : T)
            → exists_key dec (make_set_from_elements dec elements) key ≡ has_key dec key elements)
  unfolding make_set_from_elements exists_key
  exists-make_set_from_elements elements =
      (add_elements-IsValid make_set elements tt, λ key. exists-add_elements make_set elements key)

  module _ (range : MapRange T) where
    append_all_lem : (slice keys : List T) → append_all dec range slice keys ≡ slice ++ keys
    unfolding append_all
    append_all_lem slice [] = sym (append-nil slice)
    append_all_lem slice (k ∷ ks) =
        append_all_lem (slice ++ k ∷ []) ks ∙ append_assoc slice (k ∷ []) ks

    -- The slice of a valid set lists every key of the set, none twice and no other.
    pub to_slice-Distinct :
        (set : Set T)
        → IsValid set
        → Distinct dec (to_slice dec range set)
          × (length (to_slice dec range set) ≡ size dec set)
          × ((key : T) → has_key dec key (to_slice dec range set) ≡ exists_key dec set key)
    unfolding to_slice size exists_key
    to_slice-Distinct set valid = rw append_all_lem (
      Distinct-perm dec (Permᴰ.symm (range.visits_all set.container)) valid,
      length-perm dec (range.visits_all set.container),
      λ key. has_key-perm dec key (range.visits_all set.container),
    )

    -- The slice of a set made from elements, repeated or not, lists no key twice and exactly the elements.
    pub to_slice-make_set_from_elements :
        (elements : List T)
        → Distinct dec (to_slice dec range (make_set_from_elements dec elements))
          × ((key : T)
              → has_key dec key (to_slice dec range (make_set_from_elements dec elements))
                ≡ has_key dec key elements)
    to_slice-make_set_from_elements elements =
        let (valid, held) = exists-make_set_from_elements elements in
        let (distinct, _, listed) = to_slice-Distinct (make_set_from_elements dec elements) valid in
        (distinct, λ key. listed key ∙ held key)

    pub add_common-IsValid :
        (into big : Set T) (keys : List T)
        → IsValid into
        → IsValid (add_common dec range into big keys)
    unfolding add_common
    add_common-IsValid into big [] valid = valid
    add_common-IsValid into big (k ∷ ks) valid =
        add_common-IsValid (if exists_key dec big k then add dec into k else into) big ks
          (ground (arith, (size-add-remove into k valid).2))

    pub exists-add_common :
        (into big : Set T) (keys : List T) (key : T)
        → exists_key dec (add_common dec range into big keys) key
          ≡ exists_key dec into key || (exists_key dec big key && has_key dec key keys)
    unfolding add_common has_key exists_key
    exists-add_common into big [] key = ground arith
    exists-add_common into big (k ∷ ks) key = ground (
      arith,
      exists-add_common (if exists_key dec big k then add dec into k else into) big ks key,
      (exists-add-remove into k key).0,
    )

    pub intersect-IsValid : (set set_b : Set T) → IsValid (intersect dec range set (some set_b))
    unfolding intersect
    intersect-IsValid set set_b = ground (
      arith,
      add_common-IsValid make_set set (range.visit set_b.container) tt,
      add_common-IsValid make_set set_b (range.visit set.container) tt,
    )

    -- `Intersect` returns a valid set that holds exactly the keys of both sets, and the empty set for
    -- a nil argument.
    pub exists-intersect :
        (set set_b : Set T) (key : T)
        → IsValid (intersect dec range set (some set_b))
          × (exists_key dec (intersect dec range set (some set_b)) key
              ≡ exists_key dec set key && exists_key dec set_b key)
          × (exists_key dec (intersect dec range set none) key ≡ false)
    unfolding intersect exists_key
    exists-intersect set set_b key = ground (
      arith,
      intersect-IsValid set set_b,
      exists-add_common make_set set (range.visit set_b.container) key,
      exists-add_common make_set set_b (range.visit set.container) key,
      has_key-perm dec key (range.visits_all set.container),
      has_key-perm dec key (range.visits_all set_b.container),
    )

    -- `Union` returns a valid set that holds exactly the keys of one set or the other, and the set
    -- itself for a nil argument.
    pub exists-union :
        (set set_b : Set T) (key : T)
        → IsValid (union dec range set (some set_b))
          × (exists_key dec (union dec range set (some set_b)) key
              ≡ exists_key dec set key || exists_key dec set_b key)
          × (union dec range set none ≡ set)
    unfolding union exists_key
    exists-union set set_b key = (
      add_elements-IsValid (add_elements dec make_set (range.visit set.container))
          (range.visit set_b.container)
          (add_elements-IsValid make_set (range.visit set.container) tt),
      ground (
        arith,
        exists-add_elements (add_elements dec make_set (range.visit set.container))
            (range.visit set_b.container) key,
        exists-add_elements make_set (range.visit set.container) key,
        has_key-perm dec key (range.visits_all set.container),
        has_key-perm dec key (range.visits_all set_b.container),
      ),
      refl,
    )

    -- The union holds the keys of either set and the intersection those of both; both are valid. Without a
    -- second set the union is the set, and the intersection holds nothing.
    pub exists-union-intersect :
        (set set_b : Set T) (key : T)
        → (IsValid (union dec range set (some set_b))
            × (exists_key dec (union dec range set (some set_b)) key
                ≡ exists_key dec set key || exists_key dec set_b key)
            × (union dec range set none ≡ set))
          × (IsValid (intersect dec range set (some set_b))
              × (exists_key dec (intersect dec range set (some set_b)) key
                  ≡ exists_key dec set key && exists_key dec set_b key)
              × (exists_key dec (intersect dec range set none) key ≡ false))
    exists-union-intersect set set_b key =
        (exists-union set set_b key, exists-intersect set set_b key)
