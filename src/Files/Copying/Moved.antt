-- ===== src/Files/Copying/Moved.antt =====
-- io/fileutils.go: MoveDir moves a tree, directory by directory.
use gofrog.Prelude.{
  ℕ, zero, suc, ◌≤◌, ◌<◌, ◌≡◌, refl, ◌∙◌, List, [], ◌∷◌, ◌++◌, Bool, true, false, if◌then◌else◌,
  Option, some, Bytes, inr, arith,
}
use gofrog.Filepath.{join, base}
use gofrog.Files.Listing.{is_dir_exists, list_files}
use gofrog.Files.Tree.{Tree, file, link, dir, Entries, end, entry, info_of, height, height_entries}
use gofrog.Files.Copying.{
  Disk, create_dir_if_not_exist, after_copy, copy_listed, move_file_to, move_entries, move_dir,
}
use gofrog.Files.Copying.Plan.{child, children, with_errors, then_run}
use gofrog.Files.Copying.Planned.{after_copy-run, after_create-run}

module _ {S X : Type 0} (disk : Disk S X) where
  -- What the file system answers about the source; IsDirExists asks the link itself here.
  abbrev mutual
    TreeMoves : Bytes → Tree → Type 0
    TreeMoves path file = is_dir_exists disk.fs path true ≡ inr false
    TreeMoves path link = is_dir_exists disk.fs path true ≡ inr false
    TreeMoves path (dir es) =
        (is_dir_exists disk.fs path true ≡ inr true)
        × (list_files disk.fs path true ≡ inr (children path es))
        × EntriesMove path es

    EntriesMove : Bytes → Entries → Type 0
    EntriesMove path end = Unit
    EntriesMove path (entry name t es) =
        (base (child path name) ≡ name) × TreeMoves (child path name) t × EntriesMove path es

  -- The description: each file is moved, and each directory made before what is in it is moved.
  unfoldable mutual
    moved_tree : Bytes → Bytes → Bytes → Tree → S → S × List X
    moved_tree path to name file s = move_file_to disk s path (join (to ∷ name ∷ []))
    moved_tree path to name link s = move_file_to disk s path (join (to ∷ name ∷ []))
    moved_tree path to name (dir es) s =
        then_run disk (moved_entries path (to ++ (b'/' ∷ name)) es)
          (with_errors disk (create_dir_if_not_exist disk s (to ++ (b'/' ∷ name))))

    moved_entries : Bytes → Bytes → Entries → S → S × List X
    moved_entries from to end s = (s, [])
    moved_entries from to (entry name t es) s =
        then_run disk (moved_entries from to es) (moved_tree (child from name) to name t s)

  TreeMoves-is_dir :
      (path : Bytes) (t : Tree)
      → TreeMoves path t
      → is_dir_exists disk.fs path true ≡ inr (info_of t).is_dir
  TreeMoves-is_dir path file h = h
  TreeMoves-is_dir path link h = h
  TreeMoves-is_dir path (dir es) h = h.0

  move_entries-next :
      (move_one : Bytes → Bytes → S → Option (S × List X)) (to path name : Bytes)
      (files : List Bytes) (s : S) (is_dir : Bool)
      → base path ≡ name
      → is_dir_exists disk.fs path true ≡ inr is_dir
      → move_entries disk move_one to (path ∷ files) s
        ≡ after_copy disk (move_entries disk move_one to files) (
            if is_dir
            then move_one path (to ++ (b'/' ∷ name)) s
            else some (move_file_to disk s path (join (to ∷ name ∷ []))))
  unfolding move_entries
  move_entries-next move_one to path name files s is_dir named found =
      rw (← named) (rw (found, move_entries) refl)

  mutual
    unfolding move_dir move_entries moved_tree copy_listed

    move_tree-moved :
        (fuel : ℕ) (t : Tree) (path to name : Bytes) (s : S)
        → height t ≤ fuel
        → TreeMoves path t
        → (if (info_of t).is_dir
            then move_dir disk fuel path (to ++ (b'/' ∷ name)) s
            else some (move_file_to disk s path (join (to ∷ name ∷ []))))
          ≡ some (moved_tree path to name t s)
    move_tree-moved fuel file path to name s l h = refl
    move_tree-moved fuel link path to name s l h = refl
    move_tree-moved zero (dir es) path to name s l h = absurd (omega arith)
    move_tree-moved (suc fuel) (dir es) path to name s l h =
        let dest = to ++ (b'/' ∷ name) in
        after_create-run disk
          (copy_listed disk (move_entries disk (move_dir disk fuel) dest)
            (list_files disk.fs path true))
          (moved_entries path dest es) (create_dir_if_not_exist disk s dest)
          (λ s'. rw (h.1, copy_listed) (move_entries-moved fuel es path dest s' (omega arith) h.2))

    move_entries-moved :
        (fuel : ℕ) (es : Entries) (from to : Bytes) (s : S)
        → height_entries es ≤ fuel
        → EntriesMove from es
        → move_entries disk (move_dir disk fuel) to (children from es) s
          ≡ some (moved_entries from to es s)
    move_entries-moved fuel end from to s l h = refl
    move_entries-moved fuel (entry name t es) from to s l h =
        move_entries-next (move_dir disk fuel) to (child from name) name (children from es) s
          (info_of t).is_dir h.0 (TreeMoves-is_dir (child from name) t h.1)
        ∙ rw (move_tree-moved fuel t (child from name) to name s (omega arith) h.1) (
            after_copy-run disk (move_entries disk (move_dir disk fuel) to (children from es))
              (moved_entries from to es) (moved_tree (child from name) to name t s)
              (λ s'. move_entries-moved fuel es from to s' (omega arith) h.2))

  -- When the file system shows a tree of entries under a directory, as ListFiles and os.Lstat tell it: with
  -- fuel for its depth MoveDir makes the destination and then, entry by entry, moves each file and
  -- link and makes each directory before what is in it, up to the first error. The directories of the
  -- source stay.
  move_dir-moved :
      (fuel : ℕ) (es : Entries) (from to : Bytes) (s : S)
      → height_entries es < fuel
      → list_files disk.fs from true ≡ inr (children from es)
      → EntriesMove from es
      → move_dir disk fuel from to s
        ≡ some (
            then_run disk
              (moved_entries from to es)
              (with_errors disk (create_dir_if_not_exist disk s to)))
  unfolding move_dir copy_listed
  move_dir-moved zero es from to s l found h = absurd (omega arith)
  move_dir-moved (suc fuel) es from to s l found h =
      after_create-run disk
        (copy_listed disk (move_entries disk (move_dir disk fuel) to)
          (list_files disk.fs from true))
        (moved_entries from to es) (create_dir_if_not_exist disk s to)
        (λ s'. rw (found, copy_listed) (move_entries-moved fuel es from to s' (omega arith) h))
