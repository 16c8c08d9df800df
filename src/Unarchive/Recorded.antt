-- ===== src/Unarchive/Recorded.antt =====
-- unarchive/archive.go: which entries of a walk the validator keeps as files, and for which paths it records links.
use gofrog.Prelude.{
  holds, ltb, same_bytes, same_bytes_iff, ◌≡◌, refl, inl, inr, ◌⊎◌, List, [], ◌∷◌, Bool, true,
  false, not, ◌||◌, ◌&&◌, Bytes, bytes_discrete, arith,
}
use gofrog.Datastructures.Set.{make_set, exists_key}
use gofrog.Datastructures.Set.Algebra.{exists-add-remove}
use gofrog.Filepath.{count_separators}
use gofrog.Unarchive.{
  put_link, is_link, File, ArchiveHeader, Result, err, ok, UplinksValidator, new_uplinks_validator,
  add_target_link, add_entry_file, get_path_in_archive, check_symlink_entry, add_link,
  inspect_entry_at, inspect_entry, inspect_entries,
}

abbrev pub kept : UplinksValidator → Bytes → Bool
kept v path = exists_key bytes_discrete v.entry_files path

kept-add_entry_file :
    (path other : Bytes) (is_dir : Bool) (v : UplinksValidator)
    → kept (add_entry_file path is_dir v) other
      ≡ (not is_dir && holds (bytes_discrete path other)) || kept v other
unfolding add_entry_file
kept-add_entry_file path other true v = refl
kept-add_entry_file path other false v =
    (exists-add-remove bytes_discrete v.entry_files path other).0

kept-add_target_link :
    (path link other : Bytes) (v : UplinksValidator)
    → kept (add_target_link path link v) other ≡ kept v other
unfolding add_target_link
kept-add_target_link path link other v = ground arith

-- A link is recorded for the path.
abbrev pub is_linked : Bytes → List (Bytes × Bytes) → Bool
is_linked path [] = false
is_linked path ((p, l) ∷ links) = same_bytes p path || is_linked path links

is_linked-put_link :
    (other path link : Bytes) (links : List (Bytes × Bytes))
    → is_linked other (put_link path link links) ≡ same_bytes path other || is_linked other links
unfolding put_link
is_linked-put_link other path link [] = ground arith
is_linked-put_link other path link ((p, l) ∷ links) = ground (
  arith,
  is_linked-put_link other path link links,
  same_bytes_iff p path,
  same_bytes_iff p other,
  same_bytes_iff path other,
)

is_linked-add_target_link :
    (other path link : Bytes) (v : UplinksValidator)
    → is_linked other (add_target_link path link v).target_parent_links
      ≡ (ltb (count_separators link) (count_separators path) && same_bytes path other)
        || is_linked other v.target_parent_links
unfolding add_target_link
is_linked-add_target_link other path link v =
    ground (arith, is_linked-put_link other path link v.target_parent_links)

is_linked-add_entry_file :
    (other path : Bytes) (is_dir : Bool) (v : UplinksValidator)
    → is_linked other (add_entry_file path is_dir v).target_parent_links
      ≡ is_linked other v.target_parent_links
unfolding add_entry_file
is_linked-add_entry_file other path is_dir v = ground arith

module _ {X : Type 0} where
  -- The entry is no directory, and stands at the path.
  unfoldable pub is_file_at : Bytes → Bytes → File X → Bool
  is_file_at destination_dir path f = elim f.header [
    | inl e ↦ false
    | inr h ↦
        not f.is_dir
        && holds (bytes_discrete (get_path_in_archive destination_dir [] h.entry_path) path)
  ]

  unfoldable pub is_among : Bytes → Bytes → List (File X) → Bool
  unfolding is_file_at
  is_among destination_dir path [] = false
  is_among destination_dir path (f ∷ files) =
      is_file_at destination_dir path f || is_among destination_dir path files

  kept-inspect_entry_at :
      (d path other : Bytes) (h : ArchiveHeader) (f : File X) (v w : UplinksValidator)
      (r : Result X Bytes)
      → check_symlink_entry h f d ≡ r
      → inspect_entry_at d path h f v ≡ ok w
      → kept w other ≡ (not f.is_dir && holds (bytes_discrete path other)) || kept v other
  unfolding inspect_entry_at add_link
  kept-inspect_entry_at d path other h f v w (err e) q c =
      ground (arith, kept-add_entry_file path other f.is_dir v)
  kept-inspect_entry_at d path other h f v w (ok link) q c = ground (
    arith,
    kept-add_entry_file path other f.is_dir v,
    kept-add_entry_file path other f.is_dir (add_target_link path link v),
    kept-add_target_link path link other v,
  )

  kept-inspect_entry :
      (d other : Bytes) (f : File X) (v w : UplinksValidator) (x : X ⊎ ArchiveHeader)
      → f.header ≡ x
      → inspect_entry d f v ≡ ok w
      → kept w other ≡ is_file_at d other f || kept v other
  unfolding inspect_entry is_file_at
  kept-inspect_entry d other f v w (inl e) q c = absurd (ground arith)
  kept-inspect_entry d other f v w (inr h) q c = ground (
    arith,
    kept-inspect_entry_at d (get_path_in_archive d [] h.entry_path) other h f v w
        (check_symlink_entry h f d) refl,
  )

  kept-step :
      (d other : Bytes) (f : File X) (files : List (File X)) (v w : UplinksValidator)
      (r : Result X UplinksValidator)
      → inspect_entry d f v ≡ r
      → inspect_entries d (f ∷ files) v ≡ ok w
      → ((v' : UplinksValidator)
          → inspect_entries d files v' ≡ ok w
          → kept w other ≡ is_among d other files || kept v' other)
      → kept w other ≡ is_among d other (f ∷ files) || kept v other
  unfolding inspect_entries is_among
  kept-step d other f files v w (err e) q c rest = absurd (ground arith)
  kept-step d other f files v w (ok v') q c rest =
      ground (arith, rest v', kept-inspect_entry d other f v v' f.header refl)

  -- After a walk over all entries the validator keeps what it kept, and the paths of the entries that
  -- are no directories.
  pub kept-inspect_entries :
      (d other : Bytes) (files : List (File X)) (v w : UplinksValidator)
      → inspect_entries d files v ≡ ok w
      → kept w other ≡ is_among d other files || kept v other
  unfolding inspect_entries is_among
  kept-inspect_entries d other [] v w c = ground arith
  kept-inspect_entries d other (f ∷ files) v w c =
      kept-step d other f files v w (inspect_entry d f v) refl c
        (λ v'. kept-inspect_entries d other files v' w)

  pub kept-new_uplinks_validator :
      (d other : Bytes) (files : List (File X)) (w : UplinksValidator)
      → inspect_entries d files new_uplinks_validator ≡ ok w
      → kept w other ≡ is_among d other files
  unfolding new_uplinks_validator make_set exists_key
  kept-new_uplinks_validator d other files w c =
      ground (arith, kept-inspect_entries d other files new_uplinks_validator w)

  abbrev climbs_to : Bytes → Result X Bytes → Bool
  climbs_to path (err e) = false
  climbs_to path (ok link) = ltb (count_separators link) (count_separators path)

  -- The entry is a link at the path, whose target has fewer separators than the path.
  unfoldable pub climbs_at : Bytes → Bytes → File X → Bool
  climbs_at destination_dir path f = elim f.header [
    | inl e ↦ false
    | inr h ↦
        is_link h f
        && climbs_to (get_path_in_archive destination_dir [] h.entry_path)
            (check_symlink_entry h f destination_dir)
        && same_bytes (get_path_in_archive destination_dir [] h.entry_path) path
  ]

  unfoldable pub climbs_among : Bytes → Bytes → List (File X) → Bool
  unfolding climbs_at
  climbs_among destination_dir path [] = false
  climbs_among destination_dir path (f ∷ files) =
      climbs_at destination_dir path f || climbs_among destination_dir path files

  is_linked-inspect_entry_at :
      (d path other : Bytes) (h : ArchiveHeader) (f : File X) (v w : UplinksValidator)
      (r : Result X Bytes)
      → check_symlink_entry h f d ≡ r
      → inspect_entry_at d path h f v ≡ ok w
      → is_linked other w.target_parent_links
        ≡ (is_link h f && climbs_to path r && same_bytes path other)
          || is_linked other v.target_parent_links
  unfolding inspect_entry_at add_link
  is_linked-inspect_entry_at d path other h f v w (err e) q c =
      ground (arith, is_linked-add_entry_file other path f.is_dir v)
  is_linked-inspect_entry_at d path other h f v w (ok link) q c = ground (
    arith,
    is_linked-add_entry_file other path f.is_dir v,
    is_linked-add_entry_file other path f.is_dir (add_target_link path link v),
    is_linked-add_target_link other path link v,
  )

  is_linked-inspect_entry :
      (d other : Bytes) (f : File X) (v w : UplinksValidator) (x : X ⊎ ArchiveHeader)
      → f.header ≡ x
      → inspect_entry d f v ≡ ok w
      → is_linked other w.target_parent_links
        ≡ climbs_at d other f || is_linked other v.target_parent_links
  unfolding inspect_entry climbs_at
  is_linked-inspect_entry d other f v w (inl e) q c = absurd (ground arith)
  is_linked-inspect_entry d other f v w (inr h) q c = ground (
    arith,
    is_linked-inspect_entry_at d (get_path_in_archive d [] h.entry_path) other h f v w
        (check_symlink_entry h f d) refl,
  )

  is_linked-step :
      (d other : Bytes) (f : File X) (files : List (File X)) (v w : UplinksValidator)
      (r : Result X UplinksValidator)
      → inspect_entry d f v ≡ r
      → inspect_entries d (f ∷ files) v ≡ ok w
      → ((v' : UplinksValidator)
          → inspect_entries d files v' ≡ ok w
          → is_linked other w.target_parent_links
            ≡ climbs_among d other files || is_linked other v'.target_parent_links)
      → is_linked other w.target_parent_links
        ≡ climbs_among d other (f ∷ files) || is_linked other v.target_parent_links
  unfolding inspect_entries climbs_among
  is_linked-step d other f files v w (err e) q c rest = absurd (ground arith)
  is_linked-step d other f files v w (ok v') q c rest =
      ground (arith, rest v', is_linked-inspect_entry d other f v v' f.header refl)

  -- After a walk over all entries a link is recorded for the paths it was recorded for, and for those at
  -- which the walk has a link that climbs.
  pub is_linked-inspect_entries :
      (d other : Bytes) (files : List (File X)) (v w : UplinksValidator)
      → inspect_entries d files v ≡ ok w
      → is_linked other w.target_parent_links
        ≡ climbs_among d other files || is_linked other v.target_parent_links
  unfolding inspect_entries climbs_among
  is_linked-inspect_entries d other [] v w c = ground arith
  is_linked-inspect_entries d other (f ∷ files) v w c =
      is_linked-step d other f files v w (inspect_entry d f v) refl c
        (λ v'. is_linked-inspect_entries d other files v' w)

  pub is_linked-new_uplinks_validator :
      (d other : Bytes) (files : List (File X)) (w : UplinksValidator)
      → inspect_entries d files new_uplinks_validator ≡ ok w
      → is_linked other w.target_parent_links ≡ climbs_among d other files
  unfolding new_uplinks_validator
  is_linked-new_uplinks_validator d other files w c =
      ground (arith, is_linked-inspect_entries d other files new_uplinks_validator w)
