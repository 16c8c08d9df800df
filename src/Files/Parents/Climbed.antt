-- ===== src/Files/Parents/Climbed.antt =====
-- io/fileutils.go: the search ends at the top, and finds the first file on the way up.
use gofrog.Prelude.{
  ◌<◌, ◌≡◌, refl, sym, [], ◌∷◌, List, true, false, if◌then◌else◌, length, All, Option, none, some,
  Bytes, inl, inr, same_bytes, same_bytes_iff, arith,
}
use gofrog.Filepath.{dir}
use gofrog.Files.Listing.{FileSystem}
use gofrog.Files.Parents.{
  FindError, of_stat, could_not_find, visited, holds_file, climb, find_file_in_dir_and_parents,
}

-- The directories from a path up to the one that is its own parent, each shorter than the one before.
pub data Parents : Bytes → List Bytes → Type 0 where
  top : {p : Bytes} → dir p ≡ p → Parents p (p ∷ [])
  below :
      {p : Bytes} {ps : List Bytes}
      → length (dir p) < length p
      → Parents (dir p) ps
      → Parents p (p ∷ ps)

visited-longer :
    (ps : List Bytes) (path : Bytes)
    → All (λ p. length path < length p) ps
    → visited ps path ≡ false
unfolding visited
visited-longer [] path longer = refl
visited-longer (p ∷ ps) path longer =
    ground (arith, same_bytes_iff p path, visited-longer ps path longer.1)

All-longer :
    (ps : List Bytes) (p q : Bytes)
    → length q < length p
    → All (λ r. length p < length r) ps
    → All (λ r. length q < length r) ps
All-longer [] p q shorter longer = tt
All-longer (r ∷ ps) p q shorter longer =
    (omega (arith, longer.0), All-longer ps p q shorter longer.1)

module _ {X : Type 0} (fs : FileSystem X) (file_name : Bytes) where
  -- The description: the first of the directories that holds the file, or the first error.
  abbrev pub first_holding : List Bytes → Bytes × Option (FindError X)
  first_holding [] = ([], some (could_not_find file_name))
  first_holding (p ∷ ps) = elim (holds_file fs file_name p) [
    | inl e ↦ (p, some (of_stat e))
    | inr exists ↦ if exists then (p, none) else first_holding ps
  ]

  climb-first_holding :
      (path : Bytes) (ps seen : List Bytes)
      → Parents path ps
      → All (λ p. length path < length p) seen
      → climb fs file_name (length ps) seen path ≡ some (first_holding ps)
  unfolding climb visited
  climb-first_holding path _ seen (top same) longer =
      let stays : same_bytes path (dir path) ≡ true =
        (same_bytes_iff path (dir path)).1 (sym same) in
      ground (arith, stays)
  climb-first_holding path _ seen (below {ps = ps} shorter rest) longer =
      let above = All-longer seen path (dir path) shorter longer in
      let unseen = visited-longer (path ∷ seen) (dir path) (shorter, above) in
      ground (arith, unseen, climb-first_holding (dir path) ps (path ∷ seen) rest (shorter, above))

  -- When the directories from the path up to the one that is its own parent get shorter at each
  -- step, as many rounds of the loop as there are directories give an answer: the first directory
  -- that holds the file (a symlink counts as it is), or the first error with the directory it is
  -- about, or the error that no directory holds the file.
  pub find_file_in_dir_and_parents-first_holding :
      (path : Bytes) (ps : List Bytes)
      → Parents path ps
      → find_file_in_dir_and_parents fs file_name (length ps) path ≡ some (first_holding ps)
  unfolding find_file_in_dir_and_parents
  find_file_in_dir_and_parents-first_holding path ps up = climb-first_holding path ps [] up tt
