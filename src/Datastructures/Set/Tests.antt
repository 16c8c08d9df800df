-- ===== src/Datastructures/Set/Tests.antt =====
-- Runs of datastructures/set.go, and its theorems at concrete inputs.
use mathlib.Core.List.Permᴰ
use native.Mathlib.Decide.{ℕ_discrete as dec}
use gofrog.Prelude.{
  MapRange, ℕ, ◌+◌, ◌≡◌, refl, [], ◌∷◌, false, not, ◌&&◌, ◌||◌, if◌then◌else◌, holds, some, none,
}
use gofrog.Datastructures.Set.{
  Set, done, no_such_item, has_key, exists_key, add, make_set_from_elements, remove, size, to_slice,
  intersect, union,
}
use gofrog.Datastructures.Set.Keys.{Distinct}
use gofrog.Datastructures.Set.Algebra.{IsValid, add-remove, to_slice-make_set_from_elements}
use gofrog.Datastructures.Set.Size.{size-union-intersect}

abbrev in_order : MapRange ℕ
in_order = record { visit = λ keys. keys; visits_all = Permᴰ.refl }

abbrev low : Set ℕ
low = record { container = 1 ∷ 2 ∷ 3 ∷ [] }

abbrev high : Set ℕ
high = record { container = 3 ∷ 4 ∷ [] }

from_elements : make_set_from_elements dec (1 ∷ 2 ∷ 1 ∷ 3 ∷ []) ≡ low
unfolding make_set_from_elements dec
from_elements = refl

common : intersect dec in_order low (some high) ≡ record { container = 3 ∷ [] }
unfolding intersect dec
common = refl

missing_item : (remove dec low 7).1 ≡ no_such_item
unfolding remove dec
missing_item = refl

low-IsValid : IsValid dec low
unfolding has_key dec
low-IsValid = (refl, (refl, (refl, tt)))

high-IsValid : IsValid dec high
unfolding has_key dec
high-IsValid = (refl, (refl, tt))

add-remove_example :
    IsValid dec (add dec low 9)
    × IsValid dec (remove dec low 9).0
    × (exists_key dec (add dec low 9) 2 ≡ holds (dec 9 2) || exists_key dec low 2)
    × (exists_key dec (remove dec low 9).0 2 ≡ not (holds (dec 9 2)) && exists_key dec low 2)
    × ((remove dec low 9).1 ≡ (if exists_key dec low 9 then done else no_such_item))
    × (size dec (add dec low 9) ≡ (if exists_key dec low 9 then size dec low else size dec low + 1))
    × (size dec low ≡ (
        if exists_key dec low 9
        then size dec (remove dec low 9).0 + 1
        else size dec (remove dec low 9).0))
add-remove_example = add-remove dec low 9 2 low-IsValid

to_slice-make_set_from_elements_example :
    Distinct dec (to_slice dec in_order (make_set_from_elements dec (5 ∷ 5 ∷ [])))
    × ((key : ℕ)
        → has_key dec key (to_slice dec in_order (make_set_from_elements dec (5 ∷ 5 ∷ [])))
          ≡ has_key dec key (5 ∷ 5 ∷ []))
to_slice-make_set_from_elements_example = to_slice-make_set_from_elements dec in_order (5 ∷ 5 ∷ [])

size-union-intersect_example :
    IsValid dec (union dec in_order low (some high))
    × (exists_key dec (union dec in_order low (some high)) 3
        ≡ exists_key dec low 3 || exists_key dec high 3)
    × IsValid dec (intersect dec in_order low (some high))
    × (exists_key dec (intersect dec in_order low (some high)) 3
        ≡ exists_key dec low 3 && exists_key dec high 3)
    × (size dec (union dec in_order low (some high))
          + size dec (intersect dec in_order low (some high))
        ≡ size dec low + size dec high)
    × (union dec in_order low none ≡ low)
    × (exists_key dec (intersect dec in_order low none) 3 ≡ false)
size-union-intersect_example = size-union-intersect dec in_order low high 3 low-IsValid high-IsValid
