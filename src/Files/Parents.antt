-- ===== src/Files/Parents.antt =====
-- io/fileutils.go: the search for a file in a directory and its parents.
pub mod Climbed
mod Tests
use gofrog.Prelude.{
  ℕ, zero, suc, [], ◌∷◌, List, Bool, true, false, ◌||◌, if◌then◌else◌, Option, none, some, Bytes,
  inl, inr, ◌⊎◌, same_bytes,
}
use gofrog.Filepath.{join, dir}
use gofrog.Files.Listing.{FileSystem, is_file_exists}

pub data FindError (X : Type 0) : Type 0 where
  of_stat : X → FindError X
  could_not_find : Bytes → FindError X

-- The keys of the map.
unfoldable pub visited : List Bytes → Bytes → Bool
visited [] path = false
visited (p ∷ ps) path = same_bytes p path || visited ps path

module _ {X : Type 0} (fs : FileSystem X) (file_name : Bytes) where
  unfoldable pub holds_file : Bytes → X ⊎ Bool
  unfolding join is_file_exists
  holds_file curr_dir = is_file_exists fs (join (curr_dir ∷ file_name ∷ [])) true

  -- The directory, and the error; none is no answer within the fuel.
  unfoldable pub climb : ℕ → List Bytes → Bytes → Option (Bytes × Option (FindError X))
  unfolding holds_file visited dir
  climb zero visited_paths curr_dir = none
  climb (suc fuel) visited_paths curr_dir =
      let seen = curr_dir ∷ visited_paths in
      let rest = climb fuel seen (dir curr_dir) in
      elim (holds_file curr_dir) [
        | inl e ↦ some (curr_dir, some (of_stat e))
        | inr exists ↦
            if exists
            then some (curr_dir, none)
            else if visited seen (dir curr_dir)
            then some ([], some (could_not_find file_name))
            else rest
      ]

  unfoldable pub find_file_in_dir_and_parents : ℕ → Bytes → Option (Bytes × Option (FindError X))
  unfolding climb
  find_file_in_dir_and_parents fuel dir_path = climb fuel [] dir_path
