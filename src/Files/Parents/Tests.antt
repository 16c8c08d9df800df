-- ===== src/Files/Parents/Tests.antt =====
-- Runs of FindFileInDirAndParents, and its theorem at a concrete input.
use gofrog.Prelude.{
  ◌≡◌, refl, [], ◌∷◌, true, false, if◌then◌else◌, none, some, Bytes, codes, inl, inr, ◌⊎◌,
  same_bytes, ℕ, arith,
}
use gofrog.Version.{split, is_empty}
use gofrog.Filepath.{dir}
use gofrog.Files.Listing.{FileInfo, FileSystem}
use gofrog.Files.Parents.{could_not_find, holds_file, find_file_in_dir_and_parents}
use gofrog.Files.Parents.Climbed.{Parents, top, below, find_file_in_dir_and_parents-first_holding}

abbrev plain : FileInfo
plain = record { is_dir = false; is_symlink = false }

-- One file, "/a/go.mod".
abbrev answers : Bytes → ℕ ⊎ FileInfo
answers path = if same_bytes path (codes "/a/go.mod") then inr plain else inl 2

abbrev one_file : FileSystem ℕ
one_file = record { lstat = answers; stat = answers; is_not_exist = λ e. true; read_dir = λ p. [] }

upwards : Parents (codes "/a/b") (codes "/a/b" ∷ codes "/a" ∷ codes "/" ∷ [])
unfolding dir is_empty split same_bytes
upwards = below (omega arith) (below (omega arith) (top refl))

missing :
    find_file_in_dir_and_parents one_file (codes "x") 3 (codes "/a/b")
    ≡ some ([], some (could_not_find (codes "x")))
unfolding find_file_in_dir_and_parents same_bytes is_empty split
missing = refl

find_file_in_dir_and_parents-first_holding_example :
    find_file_in_dir_and_parents one_file (codes "go.mod") 3 (codes "/a/b")
    ≡ some (codes "/a", none)
unfolding holds_file same_bytes is_empty split
find_file_in_dir_and_parents-first_holding_example =
    find_file_in_dir_and_parents-first_holding one_file (codes "go.mod") (codes "/a/b")
      (codes "/a/b" ∷ codes "/a" ∷ codes "/" ∷ []) upwards
