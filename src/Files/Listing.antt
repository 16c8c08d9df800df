-- ===== src/Files/Listing.antt =====
-- io/fileutils.go: what a path points at, and the entries of a directory. The file system is a
-- parameter, and X the type of its errors; a failure of `os.ReadDir` leaves the names read before it.
pub mod Chosen
mod Tests
use gofrog.Prelude.{
  ℕ, ◌≡◌, refl, List, [], ◌∷◌, ◌++◌, Bool, true, false, not, ◌&&◌, ◌||◌, if◌then◌else◌, ◌==◌, Bytes,
  inl, inr, ◌⊎◌,
}
use gofrog.Version.{is_empty}
use gofrog.Filepath.{has_prefix, separator}

pub record FileInfo : Type 0 where
  pub is_dir : Bool
  pub is_symlink : Bool

-- `lstat` is about the link itself, `stat` about what it leads to.
pub record FileSystem (X : Type 0) : Type 0 where
  pub lstat : Bytes → X ⊎ FileInfo
  pub stat : Bytes → X ⊎ FileInfo
  pub is_not_exist : X → Bool
  pub read_dir : Bytes → List Bytes

-- strings.HasSuffix and strings.TrimPrefix, for the separator and "./".
unfoldable pub ends_in_separator : Bytes → Bool
ends_in_separator [] = false
ends_in_separator (c ∷ s) = if is_empty s then c == separator else ends_in_separator s

unfoldable pub trim_here : Bytes → Bytes
trim_here [] = []
trim_here (c ∷ []) = c ∷ []
trim_here (c ∷ d ∷ s) = if c == 46 && d == separator then s else c ∷ d ∷ s

unfoldable pub with_separator : Bytes → Bytes
unfolding ends_in_separator
with_separator path = if ends_in_separator path then path else path ++ (separator ∷ [])

module _ {X : Type 0} (fs : FileSystem X) where
  unfoldable pub get_file_info : Bytes → Bool → X ⊎ FileInfo
  get_file_info path follow_symlink = if follow_symlink then fs.lstat path else fs.stat path

  -- A path that does not exist is no error.
  answer : (FileInfo → Bool) → X ⊎ FileInfo → X ⊎ Bool
  answer test (inl e) = if fs.is_not_exist e then inr false else inl e
  answer test (inr info) = inr (test info)

  unfoldable pub is_file_exists : Bytes → Bool → X ⊎ Bool
  unfolding answer get_file_info
  is_file_exists path follow_symlink =
      answer (λ info. not info.is_dir) (get_file_info path follow_symlink)

  unfoldable pub is_dir_exists : Bytes → Bool → X ⊎ Bool
  unfolding answer get_file_info
  is_dir_exists path follow_symlink =
      answer (λ info. info.is_dir) (get_file_info path follow_symlink)

  link_of : X ⊎ FileInfo → Bool
  link_of (inl e) = false
  link_of (inr info) = info.is_symlink

  unfoldable pub is_path_symlink : Bytes → Bool
  unfolding link_of
  is_path_symlink path = link_of (fs.lstat path)

  -- `os.IsNotExist` of no error is false.
  exists_of : X ⊎ FileInfo → Bool
  exists_of (inl e) = not (fs.is_not_exist e)
  exists_of (inr info) = true

  unfoldable pub is_path_exists : Bytes → Bool
  unfolding exists_of
  is_path_exists path = exists_of (fs.stat path)

  keep_if : Bytes → X ⊎ Bool → X ⊎ List Bytes → X ⊎ List Bytes
  keep_if path (inl e) rest = inl e
  keep_if path (inr kept) (inl e) = inl e
  keep_if path (inr kept) (inr files) = inr (if kept then path ∷ files else files)

  -- Whether ListFiles takes the path.
  lists : Bool → Bytes → X ⊎ Bool → X ⊎ Bool
  unfolding is_dir_exists is_path_symlink
  lists include_dirs path (inl e) = inl e
  lists include_dirs path (inr exists) =
      if exists || is_path_symlink path
      then inr true
      else if include_dirs
      then is_dir_exists path false
      else inr false

  list_entries : Bool → Bytes → List Bytes → X ⊎ List Bytes
  unfolding keep_if lists is_file_exists
  list_entries include_dirs path [] = inr []
  list_entries include_dirs path (name ∷ names) =
      keep_if (path ++ name)
        (lists include_dirs (path ++ name) (is_file_exists (path ++ name) false))
        (list_entries include_dirs path names)

  unfoldable pub list_files : Bytes → Bool → X ⊎ List Bytes
  unfolding list_entries with_separator trim_here
  list_files path include_dirs =
      list_entries include_dirs (trim_here (with_separator path))
        (fs.read_dir (with_separator path))

  leads_to_file : X ⊎ FileInfo → X ⊎ Bool
  leads_to_file (inl e) = inl e
  leads_to_file (inr info) = inr (not info.is_dir)

  -- Whether ListFilesByFilterFunc takes a path that satisfies the filter.
  lists_file : Bytes → X ⊎ Bool → X ⊎ Bool
  unfolding leads_to_file get_file_info is_path_symlink
  lists_file path (inl e) = inl e
  lists_file path (inr exists) =
      if exists
      then inr true
      else if is_path_symlink path
      then leads_to_file (get_file_info path false)
      else inr false

  satisfies : Bytes → X ⊎ Bool → X ⊎ Bool
  unfolding lists_file is_file_exists
  satisfies path (inl e) = inl e
  satisfies path (inr satisfy) =
      if satisfy then lists_file path (is_file_exists path false) else inr false

  filter_entries : (Bytes → X ⊎ Bool) → Bytes → List Bytes → X ⊎ List Bytes
  unfolding keep_if satisfies
  filter_entries filter_func path [] = inr []
  filter_entries filter_func path (name ∷ names) =
      keep_if (path ++ name) (satisfies (path ++ name) (filter_func (path ++ name)))
        (filter_entries filter_func path names)

  unfoldable pub list_files_by_filter_func : Bytes → (Bytes → X ⊎ Bool) → X ⊎ List Bytes
  unfolding filter_entries with_separator trim_here
  list_files_by_filter_func path filter_func =
      filter_entries filter_func (trim_here (with_separator path))
        (fs.read_dir (with_separator path))
