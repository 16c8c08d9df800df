-- ===== src/Files/Removing.antt =====
-- io/fileutils.go: CreateTempDir and RemoveTempDir. The operating system is a parameter: S is the state of the
-- file system, X the type of the errors; a joined error is the list of its parts.
pub mod Removed
mod Tests
use gofrog.Prelude.{
  parts, ℕ, List, [], ◌∷◌, ◌++◌, Bool, true, false, if◌then◌else◌, Option, none, some, Bytes, inl,
  inr, ◌⊎◌,
}
use gofrog.Filepath.{join}
use gofrog.Files.Listing.{FileSystem, is_dir_exists}
use gofrog.Files.TempDirs.{temp_dir_prefix}

pub record TempSystem (S X : Type 0) : Type 0 where
  pub temp_dir : Bytes
  -- strconv.FormatInt of the time in seconds.
  pub timestamp : Bytes
  -- os.MkdirTemp.
  pub mkdir_temp : S → Bytes → Bytes → S × (X ⊎ Bytes)
  -- What paths lead to.
  pub fs : S → FileSystem X
  pub remove_all : S → Bytes → S × Option X
  -- os.Open of a directory, its names, and Close.
  pub open_dir : S → Bytes → Option X
  pub read_dir_names : S → Bytes → X ⊎ List Bytes
  pub close_dir : S → Bytes → Option X

module _ {S X : Type 0} (sys : TempSystem S X) where
  unfoldable pub create_temp_dir : S → S × (X ⊎ Bytes)
  create_temp_dir s =
      sys.mkdir_temp s sys.temp_dir ((temp_dir_prefix ++ sys.timestamp) ++ (b'-' ∷ b'*' ∷ []))

  after_remove : (S → S × Option X) → S × Option X → S × Option X
  after_remove next (s, some e) = (s, some e)
  after_remove next (s, none) = next s

  remove_each : Bytes → List Bytes → S → S × Option X
  unfolding after_remove
  remove_each dir_path [] s = (s, none)
  remove_each dir_path (name ∷ names) s =
      after_remove (remove_each dir_path names) (sys.remove_all s (join (dir_path ∷ name ∷ [])))

  -- The deferred Close.
  closing : Bytes → S × Option X → S × List X
  closing dir_path (s, e) = (s, parts e ++ parts (sys.close_dir s dir_path))

  remove_named : Bytes → S → X ⊎ List Bytes → S × Option X
  unfolding remove_each
  remove_named dir_path s (inl e) = (s, some e)
  remove_named dir_path s (inr names) = remove_each dir_path names s

  unfoldable pub remove_dir_contents : S → Bytes → S × List X
  unfolding closing remove_named
  remove_dir_contents s dir_path = elim (sys.open_dir s dir_path) [
    | some e ↦ (s, e ∷ [])
    | none ↦ closing dir_path (remove_named dir_path s (sys.read_dir_names s dir_path))
  ]

  fall_back : Bytes → S × Option X → S × List X
  unfolding remove_dir_contents
  fall_back dir_path (s, none) = (s, [])
  fall_back dir_path (s, some e) = remove_dir_contents s dir_path

  unfoldable pub remove_temp_dir : S → Bytes → S × List X
  unfolding fall_back
  remove_temp_dir s dir_path = elim (is_dir_exists (sys.fs s) dir_path false) [
    | inl e ↦ (s, e ∷ [])
    | inr exists ↦ if exists then fall_back dir_path (sys.remove_all s dir_path) else (s, [])
  ]
