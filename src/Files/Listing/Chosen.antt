-- ===== src/Files/Listing/Chosen.antt =====
-- io/fileutils.go: the entries that a listing of a directory returns.
use gofrog.Prelude.{
  ◌≡◌, refl, List, [], ◌∷◌, ◌++◌, Bool, false, not, ◌&&◌, ◌||◌, if◌then◌else◌, Option, none, some,
  Bytes, inl, inr, ◌⊎◌, map, arith,
}
use gofrog.Files.Listing.{
  FileInfo, FileSystem, trim_here, with_separator, get_file_info, answer, is_file_exists,
  is_dir_exists, link_of, is_path_symlink, keep_if, lists, list_entries, list_files, leads_to_file,
  lists_file, satisfies, filter_entries, list_files_by_filter_func,
}

-- The description: the first error that a path gives, or else the paths that are chosen, in order.
module _ {X : Type 0} (fault : Bytes → Option X) (chosen : Bytes → Bool) where
  abbrev pub first_fault : List Bytes → Option X
  first_fault [] = none
  first_fault (p ∷ ps) = elim (fault p) [ none ↦ first_fault ps | some e ↦ some e ]

  abbrev pub chosen_of : List Bytes → List Bytes
  chosen_of [] = []
  chosen_of (p ∷ ps) = let rest = chosen_of ps in if chosen p then p ∷ rest else rest

  abbrev pub selected : List Bytes → X ⊎ List Bytes
  selected ps = elim (first_fault ps) [ none ↦ inr (chosen_of ps) | some e ↦ inl e ]

module _ {X : Type 0} (fs : FileSystem X) where
  -- The paths of the entries, as a listing names them.
  abbrev pub paths_of : Bytes → List Bytes
  paths_of path =
      map (λ name. trim_here (with_separator path) ++ name) (fs.read_dir (with_separator path))

  -- The error of a path, unless the path does not exist.
  abbrev pub stat_fault : Bytes → Option X
  stat_fault path = elim (fs.stat path) [
    | inl e ↦ if fs.is_not_exist e then none else some e
    | inr info ↦ none
  ]

  abbrev pub leads_to : (FileInfo → Bool) → Bytes → Bool
  leads_to test path = elim (fs.stat path) [ inl e ↦ false | inr info ↦ test info ]

  abbrev pub is_entry : Bool → Bytes → Bool
  is_entry include_dirs path =
      is_path_symlink fs path || leads_to (λ info. include_dirs || not info.is_dir) path

  list_entries-selected :
      (include_dirs : Bool) (path : Bytes) (names : List Bytes)
      → list_entries fs include_dirs path names
        ≡ selected stat_fault (is_entry include_dirs) (map (λ name. path ++ name) names)
  unfolding list_entries keep_if lists is_file_exists is_dir_exists get_file_info answer
  list_entries-selected include_dirs path [] = refl
  list_entries-selected include_dirs path (name ∷ names) =
      ground (arith, list_entries-selected include_dirs path names)

  -- The error of a path that satisfies the filter: a symlink that leads nowhere is one.
  abbrev pub link_fault : Bytes → Option X
  link_fault path = elim (fs.stat path) [
    | inl e ↦ if fs.is_not_exist e && not (is_path_symlink fs path) then none else some e
    | inr info ↦ none
  ]

  abbrev pub filter_fault : (Bytes → X ⊎ Bool) → Bytes → Option X
  filter_fault filter_func path = elim (filter_func path) [
    | inl e ↦ some e
    | inr satisfy ↦ if satisfy then link_fault path else none
  ]

  abbrev pub is_filtered : (Bytes → X ⊎ Bool) → Bytes → Bool
  is_filtered filter_func path = elim (filter_func path) [
    | inl e ↦ false
    | inr satisfy ↦ satisfy && leads_to (λ info. not info.is_dir) path
  ]

  filter_entries-selected :
      (filter_func : Bytes → X ⊎ Bool) (path : Bytes) (names : List Bytes)
      → filter_entries fs filter_func path names
        ≡ selected
            (filter_fault filter_func)
            (is_filtered filter_func)
            (map (λ name. path ++ name) names)
  unfolding filter_entries keep_if satisfies lists_file leads_to_file is_file_exists get_file_info
      answer is_path_symlink link_of
  filter_entries-selected filter_func path [] = refl
  filter_entries-selected filter_func path (name ∷ names) =
      ground (arith, filter_entries-selected filter_func path names)

  -- ListFiles returns the first error of os.Stat that is not about a missing path; when there is
  -- none, it returns, in the order of the directory, the symlinks, what leads to a file, and with
  -- includeDirs what leads to a directory. ListFilesByFilterFunc returns the first error of the
  -- filter, or of os.Stat at a path that satisfies it (a missing path is an error when it is a
  -- symlink); when there is none, it returns, in the order of the directory, the paths that satisfy
  -- the filter and lead to a file.
  pub list_files-list_files_by_filter_func :
      (path : Bytes) (include_dirs : Bool) (filter_func : Bytes → X ⊎ Bool)
      → (list_files fs path include_dirs
          ≡ selected stat_fault (is_entry include_dirs) (paths_of path))
        × (list_files_by_filter_func fs path filter_func
            ≡ selected (filter_fault filter_func) (is_filtered filter_func) (paths_of path))
  unfolding list_files list_files_by_filter_func
  list_files-list_files_by_filter_func path include_dirs filter_func =
      let here = trim_here (with_separator path) in
      let names = fs.read_dir (with_separator path) in
      (
        list_entries-selected include_dirs here names,
        filter_entries-selected filter_func here names,
      )
