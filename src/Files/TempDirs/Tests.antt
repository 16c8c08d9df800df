-- ===== src/Files/TempDirs/Tests.antt =====
-- Runs of CleanOldDirs, and its theorem at a concrete input.
use gofrog.Prelude.{
  ℕ, ◌≡◌, refl, List, [], ◌∷◌, Option, none, some, Bytes, codes, inl, inr, ◌⊎◌, same_bytes,
  if◌then◌else◌,
}
use gofrog.Version.{is_empty, split}
use gofrog.Filepath.{has_prefix, join}
use gofrog.Files.TempDirs.{is_old, extract_timestamp, after_remove, clean_old_dirs}
use gofrog.Files.TempDirs.Cleaned.{Entry, own, foreign, clean_old_dirs-remove_each}

-- Knows three texts.
abbrev parse : Bytes → ℕ ⊎ ℕ
parse s =
    if same_bytes s (codes "10")
    then inr 10
    else if same_bytes s (codes "90000")
    then inr 90000
    else inl 22

-- The state is the list of what was removed, last first.
abbrev remove : List Bytes → Bytes → List Bytes × Option ℕ
remove s path = (path ∷ s, none)

abbrev entries : List (Entry parse remove)
entries =
    own (codes "10") 10 (codes "1")
    ∷ foreign (codes "data")
    ∷ own (codes "90000") 90000 (codes "2")
    ∷ []

-- A name of another program stops the loop.
stopped :
    clean_old_dirs parse remove 100000000000000
      (codes "/tmp")
      (inr (codes "temp-abc" ∷ codes "temp-10-1" ∷ []))
      []
    ≡ some ([], some 22)
unfolding clean_old_dirs has_prefix extract_timestamp same_bytes
stopped = refl

clean_old_dirs-remove_each_example :
    clean_old_dirs parse remove 100000000000000
      (codes "/tmp")
      (inr (codes "temp-10-1" ∷ codes "data" ∷ codes "temp-90000-2" ∷ []))
      []
    ≡ some (codes "/tmp/temp-10-1" ∷ [], none)
unfolding is_old after_remove join is_empty split same_bytes has_prefix
clean_old_dirs-remove_each_example =
    clean_old_dirs-remove_each parse remove 100000000000000 (codes "/tmp") entries []
      ((refl, refl, refl), (refl, ((refl, refl, refl), tt)))
