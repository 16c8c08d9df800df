-- ===== src/Files/Copying.antt =====
-- io/fileutils.go: CopyDir, CopyFile and MoveDir. What is read of the source is a file system that the
-- writes do not change: the destination lies outside it. S is the state of the destination, X the type of
-- the errors; a joined error is the list of its parts. Each directory takes one unit of fuel, and none is no
-- answer within the fuel.
pub mod Plan
pub mod Planned
mod Moved
mod Tests
use gofrog.Prelude.{
  parts, ℕ, zero, suc, List, [], ◌∷◌, ◌++◌, Bool, true, false, ◌||◌, if◌then◌else◌, Option, none,
  some, Bytes, inl, inr, ◌⊎◌,
}
use gofrog.Version.{is_empty}
use gofrog.Filepath.{join, base}
use gofrog.Files.Listing.{FileSystem, is_dir_exists, list_files}
use gofrog.Files.Names.{get_file_and_dir_from_path}
use gofrog.Files.Parents.{visited}
use gofrog.Files.Moving.{Call, Answers, move_file}

-- A source that is open: the errors of Stat and of Close.
pub record Source (X : Type 0) : Type 0 where
  pub stat_error : Option X
  pub close_error : Option X

pub record Disk (S X : Type 0) : Type 0 where
  pub fs : FileSystem X
  pub open_source : Bytes → X ⊎ Source X
  -- Of the destination: what its paths lead to, MkdirAll, OpenFile, io.Copy and Close.
  pub dest : S → FileSystem X
  pub make_all : S → Bytes → S × Option X
  pub open_dest : S → Bytes → S × Option X
  pub copy : S → Bytes → Bytes → S × Option X
  pub close_dest : S → Bytes → S × Option X
  -- What the calls of MoveFile answer, and the state after those it makes.
  pub move_answers : S → Bytes → Bytes → Answers X
  pub after_calls : S → Bytes → Bytes → List Call → S

module _ {S X : Type 0} (disk : Disk S X) where
  made : S × Option X → Bytes → S × (X ⊎ Bytes)
  made (s, some e) path = (s, inl e)
  made (s, none) path = (s, inr path)

  unfoldable pub create_file_path : S → Bytes → Bytes → S × (X ⊎ Bytes)
  unfolding made
  create_file_path s local_path file_name =
      if is_empty local_path
      then (s, inr file_name)
      else made (disk.make_all s local_path) (join (local_path ∷ file_name ∷ []))

  error_of : S × (X ⊎ Bytes) → S × Option X
  error_of (s, inl e) = (s, some e)
  error_of (s, inr path) = (s, none)

  unfoldable pub create_dir_if_not_exist : S → Bytes → S × Option X
  unfolding error_of create_file_path
  create_dir_if_not_exist s path = elim (is_dir_exists (disk.dest s) path false) [
    | inl e ↦ (s, some e)
    | inr exist ↦ if exist then (s, none) else error_of (create_file_path s path [])
  ]

  -- The deferred Close of the destination, by what io.Copy returns.
  closed_dest : Bytes → S × Option X → S × List X
  closed_dest dst_path (s, e) =
      ((disk.close_dest s dst_path).0, parts e ++ parts (disk.close_dest s dst_path).1)

  copied : Bytes → Bytes → S × Option X → S × List X
  unfolding closed_dest
  copied src dst_path (s, some e) = (s, e ∷ [])
  copied src dst_path (s, none) = closed_dest dst_path (disk.copy s dst_path src)

  opened : Bytes → S × (X ⊎ Bytes) → S × List X
  unfolding copied
  opened src (s, inl e) = (s, e ∷ [])
  opened src (s, inr dst_path) = copied src dst_path (disk.open_dest s dst_path)

  -- The deferred Close of the source.
  closed_source : Option X → S × List X → S × List X
  closed_source close_error (s, errors) = (s, errors ++ parts close_error)

  unfoldable pub copy_file : S → Bytes → Bytes → S × List X
  unfolding opened closed_source create_file_path get_file_and_dir_from_path
  copy_file s dst src = elim (disk.open_source src) [
    | inl e ↦ (s, e ∷ [])
    | inr source ↦ closed_source source.close_error (elim source.stat_error [
      | some e ↦ (s, e ∷ [])
      | none ↦ opened src (create_file_path s dst (get_file_and_dir_from_path src).0)
    ])
  ]

  -- After an entry: the next ones, unless there is an error.
  unfoldable pub after_copy : (S → Option (S × List X)) → Option (S × List X) → Option (S × List X)
  after_copy next none = none
  after_copy next (some (s, [])) = next s
  after_copy next (some (s, e ∷ es)) = some (s, e ∷ es)

  -- The recursive call is a parameter of the loop.
  unfoldable pub copy_entries :
      (Bytes → Bytes → S → Option (S × List X))
      → Bytes
      → List Bytes
      → List Bytes
      → S
      → Option (S × List X)
  unfolding after_copy
  copy_entries copy_one to_path exclude_names [] s = some (s, [])
  copy_entries copy_one to_path exclude_names (file ∷ files) s =
      let rest = copy_entries copy_one to_path exclude_names files in
      if visited exclude_names (base file)
      then rest s
      else elim (is_dir_exists disk.fs file false) [
        | inl e ↦ some (s, e ∷ [])
        | inr is_dir ↦ after_copy rest (
            if is_dir
            then copy_one file (join (to_path ∷ base file ∷ [])) s
            else some (copy_file s to_path file))
      ]

  unfoldable pub after_create : (S → Option (S × List X)) → S × Option X → Option (S × List X)
  after_create next (s, some e) = some (s, e ∷ [])
  after_create next (s, none) = next s

  copy_listed : (List Bytes → S → Option (S × List X)) → X ⊎ List Bytes → S → Option (S × List X)
  copy_listed copy_all (inl e) s = some (s, e ∷ [])
  copy_listed copy_all (inr files) s = copy_all files s

  unfoldable pub copy_dir : ℕ → Bytes → Bytes → Bool → List Bytes → S → Option (S × List X)
  unfolding copy_entries after_create copy_listed
  copy_dir zero from_path to_path include_dirs exclude_names s = none
  copy_dir (suc fuel) from_path to_path include_dirs exclude_names s =
      after_create
        (copy_listed (copy_entries (λ from to. copy_dir fuel from to true []) to_path exclude_names)
          (list_files disk.fs from_path include_dirs))
        (create_dir_if_not_exist s to_path)

  unfoldable pub move_file_to : S → Bytes → Bytes → S × List X
  move_file_to s source_path dest_path =
      let (calls, errors) = move_file (disk.move_answers s source_path dest_path) in
      (disk.after_calls s source_path dest_path calls, errors)

  unfoldable pub move_entries :
      (Bytes → Bytes → S → Option (S × List X)) → Bytes → List Bytes → S → Option (S × List X)
  unfolding after_copy move_file_to
  move_entries move_one to_path [] s = some (s, [])
  move_entries move_one to_path (v ∷ files) s = elim (is_dir_exists disk.fs v true) [
    | inl e ↦ some (s, e ∷ [])
    | inr is_dir ↦ after_copy (move_entries move_one to_path files) (
        if is_dir
        then move_one v (to_path ++ (b'/' ∷ base v)) s
        else some (move_file_to s v (join (to_path ∷ base v ∷ []))))
  ]

  unfoldable pub move_dir : ℕ → Bytes → Bytes → S → Option (S × List X)
  unfolding move_entries after_create copy_listed
  move_dir zero from_path to_path s = none
  move_dir (suc fuel) from_path to_path s =
      after_create
        (copy_listed (move_entries (move_dir fuel) to_path) (list_files disk.fs from_path true))
        (create_dir_if_not_exist s to_path)
