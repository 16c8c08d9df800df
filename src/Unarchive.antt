-- ===== src/Unarchive.antt =====
-- unarchive/archive.go: the choice of the archive library's format, and the inspection of an archive
-- before it is extracted. The library is a parameter: what it recognises, what it can do with a
-- format, and the entries it walks over, with the error of the walk itself. Paths are those of Unix.
mod Recorded
mod Inspected
mod Admitted
mod Formats
mod Tests
use gofrog.Prelude.{
  inl, inr, ◌⊎◌, ℕ, List, [], ◌∷◌, Bool, true, false, not, ◌||◌, if◌then◌else◌, ltb, length, Option,
  none, some, ℤ, Bytes, same_bytes, bytes_discrete, MapRange,
}
use gofrog.Version.{trim_space, is_empty}
use gofrog.Datastructures.Set.{Set, make_set, add, exists_key}
use gofrog.Filepath.{has_prefix, trim_separator, count_separators, is_abs, clean, join, dir}

pub data Format : Type 0 where
  tar_brotli tar_bz2 tar_gz tar_lz4 tar_sz tar_xz tar_zstd rar tar zip brotli gz bz2 lz4 snappy xz
        zstd :
      Format

pub record Unarchiver : Type 0 where
  pub bypass_inspection : Bool
  pub strip_components : ℤ

pub record ArchiveHeader : Type 0 where
  pub entry_path : Bytes
  pub target_link : Bytes

-- An entry of an archive: its header or an error of JSON, its mode, and its content or a read error.
pub record File (X : Type 0) : Type 0 where
  pub header : X ⊎ ArchiveHeader
  pub is_symlink : Bool
  pub is_dir : Bool
  pub content : X ⊎ Bytes

-- The archive library; X is the type of its errors and of those of reading.
pub record Library (X : Type 0) : Type 0 where
  pub check_ext : Format → Bytes → Bool
  pub by_extension : Bytes → Option Bool
  pub is_unarchiver : Format → Bool
  pub is_walker : Format → Bool
  pub walk : Format → Bytes → List (File X) × Option X

-- The library's object for a format, with its options where the code sets them.
pub record Instance : Type 0 where
  pub format : Format
  pub options : Option (Bool × ℤ)

pub data UnarchiveError (X : Type 0) : Type 0 where
  unrecognized not_an_archive cannot_inspect : Bytes → UnarchiveError X
  illegal_path illegal_link illegal_uplink : Bytes → Bytes → UnarchiveError X
  other : X → UnarchiveError X

pub data Result (X A : Type 0) : Type 0 where
  err : UnarchiveError X → Result X A
  ok : A → Result X A

-- The links to an ancestor, by the path of the link, and the entries that are no directories.
pub record UplinksValidator : Type 0 where
  pub entry_files : Set Bytes
  pub target_parent_links : List (Bytes × Bytes)

abbrev pub supported_archives : List Format
supported_archives =
    tar_brotli ∷ tar_bz2 ∷ tar_gz ∷ tar_lz4 ∷ tar_sz ∷ tar_xz ∷ tar_zstd ∷ rar ∷ tar ∷ zip ∷ brotli
    ∷ gz ∷ bz2 ∷ lz4 ∷ snappy ∷ xz ∷ zstd ∷ []

unfoldable pub new_uplinks_validator : UplinksValidator
unfolding make_set
new_uplinks_validator = record { entry_files = make_set; target_parent_links = [] }

put_link : Bytes → Bytes → List (Bytes × Bytes) → List (Bytes × Bytes)
put_link path link [] = (path, link) ∷ []
put_link path link ((p, l) ∷ m) =
    if same_bytes p path then (path, link) ∷ m else (p, l) ∷ put_link path link m

unfoldable pub add_target_link : Bytes → Bytes → UplinksValidator → UplinksValidator
unfolding put_link
add_target_link path link v =
    if ltb (count_separators link) (count_separators path)
    then record v { target_parent_links = put_link path link v.target_parent_links }
    else v

unfoldable pub add_entry_file : Bytes → Bool → UplinksValidator → UplinksValidator
add_entry_file path is_dir v =
    if not is_dir then record v { entry_files = add bytes_discrete v.entry_files path } else v

unfoldable pub get_path_in_archive : Bytes → Bytes → Bytes → Bytes
get_path_in_archive destination_dir entry_dir path =
    let path' = clean (trim_space path) in
    if not (is_abs path') then join (destination_dir ∷ entry_dir ∷ path' ∷ []) else path'

-- Each instance of the switch in `byExtension`; a brotli file has none.
unfoldable pub new_instance : ℤ → Format → Option Instance
new_instance strip brotli = none
new_instance strip gz = some (record { format = gz; options = none })
new_instance strip bz2 = some (record { format = bz2; options = none })
new_instance strip lz4 = some (record { format = lz4; options = none })
new_instance strip snappy = some (record { format = snappy; options = none })
new_instance strip xz = some (record { format = xz; options = none })
new_instance strip zstd = some (record { format = zstd; options = none })
new_instance strip f = some (record { format = f; options = some (true, strip) })

module _ {X : Type 0} where
  unfoldable pub ensure_links : UplinksValidator → List (Bytes × Bytes) → Option (UnarchiveError X)
  ensure_links v [] = none
  ensure_links v ((path, link) ∷ links) =
      let rest = ensure_links v links in
      if exists_key bytes_discrete v.entry_files link then rest else some (illegal_uplink path link)

  unfoldable pub ensure_no_uplink_dirs :
      MapRange (Bytes × Bytes) → UplinksValidator → Option (UnarchiveError X)
  unfolding ensure_links
  ensure_no_uplink_dirs range v = ensure_links v (range.visit v.target_parent_links)

  unfoldable pub is_supported_archive : Library X → Bytes → Bool
  is_supported_archive lib path = elim (lib.by_extension path) [ none ↦ false | some can ↦ can ]

  -- The target of a link stands in the header, or else in the content.
  unfoldable pub target_of : ArchiveHeader → File X → Result X Bytes
  target_of header f =
      if is_empty header.target_link
      then elim f.content [ inl e ↦ err (other e) | inr content ↦ ok content ]
      else ok header.target_link

  check_target : Bytes → Bytes → Bytes → Result X Bytes
  check_target destination_dir target path =
      if has_prefix path destination_dir then ok path else err (illegal_link target destination_dir)

  unfoldable pub check_symlink_entry : ArchiveHeader → File X → Bytes → Result X Bytes
  unfolding target_of check_target
  check_symlink_entry header f destination_dir = elim (target_of header f) [
    | err e ↦ err e
    | ok target ↦
        check_target destination_dir target
          (get_path_in_archive destination_dir (dir header.entry_path) target)
  ]

  unfoldable pub is_link : ArchiveHeader → File X → Bool
  is_link header f = f.is_symlink || not (is_empty header.target_link)

  add_link : Bytes → UplinksValidator → Result X Bytes → Result X UplinksValidator
  add_link path v (err e) = err e
  add_link path v (ok link) = ok (add_target_link path link v)

  -- The function that the walk calls, on an entry with a header at its path.
  unfoldable pub inspect_entry_at :
      Bytes → Bytes → ArchiveHeader → File X → UplinksValidator → Result X UplinksValidator
  unfolding add_link check_symlink_entry is_link
  inspect_entry_at destination_dir path header f v =
      let linked : Result X UplinksValidator =
        if is_link header f
        then add_link path v (check_symlink_entry header f destination_dir)
        else ok v in
      if has_prefix path destination_dir
      then elim linked [ err e ↦ err e | ok v' ↦ ok (add_entry_file path f.is_dir v') ]
      else err (illegal_path header.entry_path destination_dir)

  unfoldable pub inspect_entry : Bytes → File X → UplinksValidator → Result X UplinksValidator
  unfolding inspect_entry_at
  inspect_entry destination_dir f v = elim f.header [
    | inl e ↦ err (other e)
    | inr header ↦
        inspect_entry_at destination_dir (get_path_in_archive destination_dir [] header.entry_path)
          header f v
  ]

  -- The walk stops at the first error of the function.
  unfoldable pub inspect_entries :
      Bytes → List (File X) → UplinksValidator → Result X UplinksValidator
  unfolding inspect_entry
  inspect_entries destination_dir [] v = ok v
  inspect_entries destination_dir (f ∷ files) v = elim (inspect_entry destination_dir f v) [
    | err e ↦ err e
    | ok v' ↦ inspect_entries destination_dir files v'
  ]

  walked :
      MapRange (Bytes × Bytes) → Option X → Result X UplinksValidator → Option (UnarchiveError X)
  unfolding ensure_no_uplink_dirs
  walked range failure (err e) = some e
  walked range (some x) (ok v) = some (other x)
  walked range none (ok v) = ensure_no_uplink_dirs range v

  unfoldable pub inspect_archive :
      Library X → MapRange (Bytes × Bytes) → Format → Bytes → Bytes → Option (UnarchiveError X)
  unfolding inspect_entries walked new_uplinks_validator
  inspect_archive lib range format archive_path destination =
      let destination_dir = trim_separator destination in
      let walk = lib.walk format archive_path in
      if lib.is_walker format
      then walked range walk.1 (inspect_entries destination_dir walk.0 new_uplinks_validator)
      else some (cannot_inspect archive_path)

  -- The loop over `supportedArchives`, and the switch.
  unfoldable pub first_format : Library X → Bytes → List Format → Option Format
  first_format lib filename [] = none
  first_format lib filename (c ∷ cs) =
      let rest = first_format lib filename cs in if lib.check_ext c filename then some c else rest

  unfoldable pub by_extension : Unarchiver → Library X → Bytes → Option Instance
  unfolding first_format new_instance
  by_extension u lib filename = elim (first_format lib filename supported_archives) [
    | none ↦ none
    | some f ↦ new_instance u.strip_components f
  ]

  -- What `Unarchive` comes to: an error, or the library's extraction, whose error it then returns.
  extract_unless :
      Option (UnarchiveError X) → Instance → Bytes → Bytes → Result X (Instance × Bytes × Bytes)
  extract_unless (some e) archive archive_path destination = err e
  extract_unless none archive archive_path destination = ok (archive, archive_path, destination)

  unfoldable pub unarchive :
      Unarchiver
      → Library X
      → MapRange (Bytes × Bytes)
      → Bytes
      → Bytes
      → Bytes
      → Result X (Instance × Bytes × Bytes)
  unfolding by_extension inspect_archive extract_unless
  unarchive u lib range archive_path archive_name destination =
      elim (by_extension u lib archive_name) [
        | none ↦ err (unrecognized archive_name)
        | some archive ↦
            let inspected : Option (UnarchiveError X) =
              if not u.bypass_inspection
              then inspect_archive lib range archive.format archive_path destination
              else none in
            if not (lib.is_unarchiver archive.format)
            then err (not_an_archive archive_name)
            else extract_unless inspected archive archive_path destination
      ]
