-- ===== src/Unarchive/Admitted.antt =====
-- unarchive/archive.go: the inspection lets every archive pass that stays inside its destination.
use gofrog.Prelude.{◌≡◌, refl, List, [], ◌∷◌, Bool, true, false, Bytes, All, arith}
use gofrog.Filepath.{has_prefix}
use gofrog.Unarchive.{
  File, ArchiveHeader, Result, err, ok, UplinksValidator, get_path_in_archive, check_target,
  check_symlink_entry, is_link, add_link, inspect_entry_at, inspect_entry, inspect_entries,
}
use gofrog.Unarchive.Inspected.{IsTargetInside, IsInside}

module _ {X : Type 0} where
  abbrev pub is_ok : {A : Type 0} → Result X A → Bool
  is_ok (err _) = false
  is_ok (ok _) = true

  check_symlink_entry-ok :
      (d : Bytes) (h : ArchiveHeader) (f : File X)
      → IsTargetInside d h f
      → is_ok (check_symlink_entry h f d) ≡ true
  unfolding check_symlink_entry check_target
  check_symlink_entry-ok d h f i = ground (arith, i.is_target, i.target_inside)

  inspect_entry_at-ok :
      (d : Bytes) (h : ArchiveHeader) (f : File X) (v : UplinksValidator) (r : Result X Bytes)
      → check_symlink_entry h f d ≡ r
      → (is_link h f ≡ true → is_ok r ≡ true)
      → has_prefix (get_path_in_archive d [] h.entry_path) d ≡ true
      → is_ok (inspect_entry_at d (get_path_in_archive d [] h.entry_path) h f v) ≡ true
  unfolding inspect_entry_at add_link
  inspect_entry_at-ok d h f v (err e) q l i = ground arith
  inspect_entry_at-ok d h f v (ok t) q l i = ground arith

  inspect_entry-ok :
      (d : Bytes) (f : File X) (v : UplinksValidator)
      → IsInside d f
      → is_ok (inspect_entry d f v) ≡ true
  unfolding inspect_entry
  inspect_entry-ok d f v i = ground (
    arith,
    i.has_header,
    inspect_entry_at-ok d i.header f v (check_symlink_entry i.header f d) refl
        (λ l. check_symlink_entry-ok d i.header f (i.link_inside l)) i.path_inside,
  )

  inspect_entries_next :
      (d : Bytes) (f : File X) (files : List (File X)) (v : UplinksValidator)
      (r : Result X UplinksValidator)
      → inspect_entry d f v ≡ r
      → is_ok r ≡ true
      → ((w : UplinksValidator) → is_ok (inspect_entries d files w) ≡ true)
      → is_ok (inspect_entries d (f ∷ files) v) ≡ true
  unfolding inspect_entries
  inspect_entries_next d f files v (err e) q k rest = absurd (ground arith)
  inspect_entries_next d f files v (ok w) q k rest = ground (arith, rest w)

  -- A walk over entries that are all inside the destination, with the targets of their links, ends
  -- without an error, whatever was recorded before.
  pub inspect_entries-All :
      (d : Bytes) (files : List (File X)) (v : UplinksValidator)
      → All (IsInside d) files
      → is_ok (inspect_entries d files v) ≡ true
  unfolding inspect_entries
  inspect_entries-All d [] v i = refl
  inspect_entries-All d (f ∷ files) v i =
      inspect_entries_next d f files v (inspect_entry d f v) refl (inspect_entry-ok d f v i.0)
        (λ w. inspect_entries-All d files w i.1)
