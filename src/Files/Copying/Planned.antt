-- ===== src/Files/Copying/Planned.antt =====
-- io/fileutils.go: CopyDir copies a tree, directory by directory.
use gofrog.Prelude.{
  ℕ, zero, suc, ◌≤◌, ◌<◌, ◌≡◌, refl, ap, sym, ◌∙◌, List, [], ◌∷◌, Bool, true, false, not, ◌||◌,
  if◌then◌else◌, Bool-cases, Option, none, some, Bytes, inl, inr, arith,
}
use gofrog.Filepath.{join, base}
use gofrog.Files.Listing.{is_dir_exists, list_files}
use gofrog.Files.Parents.{visited}
use gofrog.Files.Tree.{Tree, file, link, dir, Entries, end, entry, info_of, height, height_entries}
use gofrog.Files.Copying.Plan.{
  child, children, listed, without, ensure_dir, plan_tree, plan_entries, height_entries-listed,
  without_none, with_errors, then_run, run, run-append, then_run-done,
}
use gofrog.Files.Copying.{
  Disk, create_dir_if_not_exist, copy_file, after_copy, copy_entries, after_create, copy_listed,
  copy_dir,
}

module _ {S X : Type 0} (disk : Disk S X) where
  -- What the file system answers about the source.
  abbrev mutual
    pub TreeHolds : Bytes → Tree → Type 0
    TreeHolds path file = is_dir_exists disk.fs path false ≡ inr false
    TreeHolds path link = is_dir_exists disk.fs path false ≡ inr false
    TreeHolds path (dir es) =
        (is_dir_exists disk.fs path false ≡ inr true)
        × (list_files disk.fs path true ≡ inr (children path es))
        × EntriesHold path es

    pub EntriesHold : Bytes → Entries → Type 0
    EntriesHold path end = Unit
    EntriesHold path (entry name t es) =
        (base (child path name) ≡ name) × TreeHolds (child path name) t × EntriesHold path es

  TreeHolds-is_dir :
      (path : Bytes) (t : Tree)
      → TreeHolds path t
      → is_dir_exists disk.fs path false ≡ inr (info_of t).is_dir
  TreeHolds-is_dir path file h = h
  TreeHolds-is_dir path link h = h
  TreeHolds-is_dir path (dir es) h = h.0

  pub after_copy-run :
      (next : S → Option (S × List X)) (f : S → S × List X) (r : S × List X)
      → ((s : S) → next s ≡ some (f s))
      → after_copy disk next (some r) ≡ some (then_run disk f r)
  unfolding after_copy then_run
  after_copy-run next f (s, []) same = same s
  after_copy-run next f (s, e ∷ es) same = refl

  pub after_create-run :
      (next : S → Option (S × List X)) (f : S → S × List X) (r : S × Option X)
      → ((s : S) → next s ≡ some (f s))
      → after_create disk next r ≡ some (then_run disk f (with_errors disk r))
  unfolding after_create then_run with_errors
  after_create-run next f (s, none) same = same s
  after_create-run next f (s, some e) same = refl

  module _ (copy_one : Bytes → Bytes → S → Option (S × List X)) (to : Bytes)
      (exclude_names : List Bytes) (path name : Bytes) (files : List Bytes) (s : S)
      (named : base path ≡ name) where
    copy_entries-excluded :
        visited exclude_names name ≡ true
        → copy_entries disk copy_one to exclude_names (path ∷ files) s
          ≡ copy_entries disk copy_one to exclude_names files s
    unfolding copy_entries
    copy_entries-excluded excluded = ground arith

    copy_entries-kept :
        (is_dir : Bool)
        → visited exclude_names name ≡ false
        → is_dir_exists disk.fs path false ≡ inr is_dir
        → copy_entries disk copy_one to exclude_names (path ∷ files) s
          ≡ after_copy disk (copy_entries disk copy_one to exclude_names files) (
              if is_dir
              then copy_one path (join (to ∷ name ∷ [])) s
              else some (copy_file disk s to path))
    unfolding copy_entries
    copy_entries-kept is_dir kept found =
        let kept' : visited exclude_names (base path) ≡ false = rw (named) kept in
        rw (← named) (rw (kept', found, copy_entries) refl)

  mutual
    unfolding copy_dir copy_entries plan_tree run copy_listed

    copy_tree-run :
        (fuel : ℕ) (t : Tree) (path to name : Bytes) (s : S)
        → height t ≤ fuel
        → TreeHolds path t
        → (if (info_of t).is_dir
            then copy_dir disk fuel path (join (to ∷ name ∷ [])) true [] s
            else some (copy_file disk s to path))
          ≡ some (run disk (plan_tree path to name t) s)
    copy_tree-run fuel file path to name s l h =
        rw (then_run-done disk (copy_file disk s to path)) refl
    copy_tree-run fuel link path to name s l h =
        rw (then_run-done disk (copy_file disk s to path)) refl
    copy_tree-run zero (dir es) path to name s l h = absurd (omega arith)
    copy_tree-run (suc fuel) (dir es) path to name s l h =
        let dest = join (to ∷ name ∷ []) in
        after_create-run
          (copy_listed disk (copy_entries disk (λ f t. copy_dir disk fuel f t true []) dest [])
            (list_files disk.fs path true))
          (run disk (plan_entries path dest es)) (create_dir_if_not_exist disk s dest)
          (λ s'.
            rw (h.1, copy_listed)
              (rw (without_none es) at
                (copy_entries-run fuel es path dest [] s' (omega arith) h.2)))

    copy_entries-run :
        (fuel : ℕ) (es : Entries) (from to : Bytes) (exclude_names : List Bytes) (s : S)
        → height_entries es ≤ fuel
        → EntriesHold from es
        → copy_entries disk
            (λ f t. copy_dir disk fuel f t true [])
            to
            exclude_names
            (children from es)
            s
          ≡ some (run disk (plan_entries from to (without exclude_names es)) s)
    copy_entries-run fuel end from to exclude_names s l h = refl
    copy_entries-run fuel (entry name t es) from to exclude_names s l h =
        let copy_one : Bytes → Bytes → S → Option (S × List X) =
          λ f t. copy_dir disk fuel f t true [] in
        elim (Bool-cases (visited exclude_names name)) [
          | inl excluded ↦
              rw
                (
                  copy_entries-excluded copy_one to exclude_names (child from name) name
                      (children from es) s h.0 excluded,
                  excluded,
                )
                (copy_entries-run fuel es from to exclude_names s (omega arith) h.2)
          | inr kept ↦
              copy_entries-kept copy_one to exclude_names (child from name) name (children from es)
                s h.0 (info_of t).is_dir kept (TreeHolds-is_dir (child from name) t h.1)
              ∙ rw (kept) (
                  rw (copy_tree-run fuel t (child from name) to name s (omega arith) h.1) (
                    after_copy-run (copy_entries disk copy_one to exclude_names (children from es))
                      (run disk (plan_entries from to (without exclude_names es)))
                      (run disk (plan_tree (child from name) to name t) s)
                      (λ s'. copy_entries-run fuel es from to exclude_names s' (omega arith) h.2)
                    ∙ ap (λ r. some r)
                        (sym (
                          run-append disk (plan_tree (child from name) to name t)
                            (plan_entries from to (without exclude_names es)) s))))
        ]

  EntriesHold-listed :
      (include_dirs : Bool) (path : Bytes) (es : Entries)
      → EntriesHold path es
      → EntriesHold path (listed include_dirs es)
  EntriesHold-listed include_dirs path end h = tt
  EntriesHold-listed include_dirs path (entry name t es) h =
      elim (Bool-cases (include_dirs || not (info_of t).is_dir)) [
        | inl kept ↦ rw (kept) (h.0, h.1, EntriesHold-listed include_dirs path es h.2)
        | inr other ↦ rw (other) (EntriesHold-listed include_dirs path es h.2)
      ]

  -- When the file system shows a tree of entries under a directory, as ListFiles and os.Stat tell it:
  -- with fuel for its depth CopyDir gives the result of making the destination and then, entry by
  -- entry, copying each file and making each directory before what is in it, up to the first
  -- error; the excluded names are left out in the first layer only, and so are its directories
  -- unless they are asked for.
  pub copy_dir-run :
      (fuel : ℕ) (es : Entries) (from to : Bytes) (include_dirs : Bool) (exclude_names : List Bytes)
      (s : S)
      → height_entries es < fuel
      → list_files disk.fs from include_dirs ≡ inr (children from (listed include_dirs es))
      → EntriesHold from es
      → copy_dir disk fuel from to include_dirs exclude_names s
        ≡ some (
            run disk
              (ensure_dir to
                ∷ plan_entries from to (without exclude_names (listed include_dirs es)))
              s)
  unfolding copy_dir copy_listed run then_run
  copy_dir-run zero es from to include_dirs exclude_names s l found h = absurd (omega arith)
  copy_dir-run (suc fuel) es from to include_dirs exclude_names s l found h =
      let copy_one : Bytes → Bytes → S → Option (S × List X) =
        λ f t. copy_dir disk fuel f t true [] in
      after_create-run
        (copy_listed disk (copy_entries disk copy_one to exclude_names)
          (list_files disk.fs from include_dirs))
        (run disk (plan_entries from to (without exclude_names (listed include_dirs es))))
        (create_dir_if_not_exist disk s to)
        (λ s'.
          rw (found, copy_listed)
            (copy_entries-run fuel (listed include_dirs es) from to exclude_names s'
              (omega (arith, height_entries-listed include_dirs es))
              (EntriesHold-listed include_dirs from es h)))
