-- ===== src/Unarchive/Inspected.antt =====
-- unarchive/archive.go: what an archive that passes the inspection is like, and what is extracted.
use mathlib.Core.List.{Permᴰ}
use gofrog.Prelude.{
  ◌≡◌, refl, ◌∙◌, ◌↔◌, inr, List, [], ◌∷◌, Bool, true, ◌&&◌, none, Bytes, bytes_discrete, MapRange,
  All, arith,
}
use gofrog.Datastructures.Set.{exists_key}
use gofrog.Unarchive.Recorded.{is_among, is_linked, climbs_among}
use gofrog.Filepath.{has_prefix, dir}
use gofrog.Unarchive.{
  Format, File, ArchiveHeader, Library, ok, UplinksValidator, new_uplinks_validator,
  get_path_in_archive, target_of, is_link, inspect_entries, ensure_links, ensure_no_uplink_dirs,
}

-- Every link of a list leads to an entry that is no directory.
abbrev pub links_to_files : UplinksValidator → List (Bytes × Bytes) → Bool
links_to_files v [] = true
links_to_files v ((path, link) ∷ links) =
    exists_key bytes_discrete v.entry_files link && links_to_files v links

links_to_files-perm :
    (v : UplinksValidator) {m n : List (Bytes × Bytes)}
    → Permᴰ m n
    → links_to_files v m ≡ links_to_files v n
links_to_files-perm v Permᴰ.nil = refl
links_to_files-perm v (Permᴰ.cons e p) = ground (arith, links_to_files-perm v p)
links_to_files-perm v (Permᴰ.swap e f) = ground arith
links_to_files-perm v (Permᴰ.trans p q) = links_to_files-perm v p ∙ links_to_files-perm v q

module _ {X : Type 0} where
  -- The target of a link, taken from the entry's directory, is inside the destination.
  pub record IsTargetInside (destination_dir : Bytes) (header : ArchiveHeader) (f : File X)
      : Type 0 where
    pub target : Bytes
    pub is_target : target_of header f ≡ ok target
    pub target_inside :
        has_prefix
          (get_path_in_archive destination_dir (dir header.entry_path) target)
          destination_dir
        ≡ true

  -- The entry, and the target of a link, are inside the destination.
  pub record IsInside (destination_dir : Bytes) (f : File X) : Type 0 where
    pub header : ArchiveHeader
    pub has_header : f.header ≡ inr header
    pub path_inside :
        has_prefix (get_path_in_archive destination_dir [] header.entry_path) destination_dir ≡ true
    pub link_inside : is_link header f ≡ true → IsTargetInside destination_dir header f

  ensure_links_lem :
      (v : UplinksValidator) (m : List (Bytes × Bytes))
      → (ensure_links {X = X} v m ≡ none) ↔ (links_to_files v m ≡ true)
  unfolding ensure_links
  ensure_links_lem v [] = ground arith
  ensure_links_lem v ((path, link) ∷ m) = ground (arith, ensure_links_lem v m)

  -- In whatever order Go ranges over the links, the validator raises no error exactly when every
  -- recorded link leads to an entry that is no directory.
  pub ensure_no_uplink_dirs-links_to_files :
      (range : MapRange (Bytes × Bytes)) (v : UplinksValidator)
      → (ensure_no_uplink_dirs {X = X} range v ≡ none)
        ↔ (links_to_files v v.target_parent_links ≡ true)
  unfolding ensure_no_uplink_dirs
  ensure_no_uplink_dirs-links_to_files range v = ground (
    arith,
    ensure_links_lem v (range.visit v.target_parent_links),
    links_to_files-perm v (range.visits_all v.target_parent_links),
  )

  -- Every link of a list leads to an entry of the walk that is no directory.
  unfoldable pub lead_to_files : Bytes → List (File X) → List (Bytes × Bytes) → Bool
  lead_to_files destination_dir files [] = true
  lead_to_files destination_dir files ((path, link) ∷ links) =
      is_among destination_dir link files && lead_to_files destination_dir files links

  -- What the walk has recorded when it ends without an error, and that its links are harmless.
  pub record IsAccepted (lib : Library X) (format : Format) (archive_path destination_dir : Bytes)
      : Type 0 where
    pub validator : UplinksValidator
    pub is_walker : lib.is_walker format ≡ true
    pub no_failure : (lib.walk format archive_path).1 ≡ none
    pub is_recorded :
        inspect_entries destination_dir (lib.walk format archive_path).0 new_uplinks_validator
        ≡ ok validator
    pub all_inside : All (IsInside destination_dir) (lib.walk format archive_path).0
    pub all_recorded :
        (path : Bytes)
        → is_linked path validator.target_parent_links
          ≡ climbs_among destination_dir path (lib.walk format archive_path).0
    pub no_uplinks :
        lead_to_files destination_dir (lib.walk format archive_path).0 validator.target_parent_links
        ≡ true
