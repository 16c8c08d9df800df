-- ===== src/Files/Tree.antt =====
-- Directories as trees, and what a file system answers about one. A description for the proofs about
-- io/fileutils.go; a link is one that is not followed.
use gofrog.Prelude.{ℕ, suc, ◌+◌, List, [], ◌∷◌, true, false, Bytes}
use gofrog.Files.Listing.{FileInfo}

mutual
  pub data Tree : Type 0 where
    file link : Tree
    dir : Entries → Tree

  pub data Entries : Type 0 where
    end : Entries
    entry : Bytes → Tree → Entries → Entries

abbrev pub info_of : Tree → FileInfo
info_of file = record { is_dir = false; is_symlink = false }
info_of link = record { is_dir = false; is_symlink = true }
info_of (dir es) = record { is_dir = true; is_symlink = false }

abbrev pub names_of : Entries → List Bytes
names_of end = []
names_of (entry name t es) = name ∷ names_of es

-- At least the depth of a tree.
abbrev mutual
  pub height : Tree → ℕ
  height file = 0
  height link = 0
  height (dir es) = suc (height_entries es)

  pub height_entries : Entries → ℕ
  height_entries end = 0
  height_entries (entry name t es) = height t + height_entries es
