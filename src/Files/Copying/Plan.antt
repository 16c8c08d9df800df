-- ===== src/Files/Copying/Plan.antt =====
-- io/fileutils.go: what a copy of a tree comes to: directories that are made and files that are copied.
use gofrog.Prelude.{
  ◌≤◌, ◌≡◌, refl, List, [], ◌∷◌, ◌++◌, Bool, not, ◌||◌, if◌then◌else◌, Option, none, some, Bytes,
  arith,
}
use gofrog.Filepath.{join}
use gofrog.Files.Listing.{trim_here, with_separator}
use gofrog.Files.Parents.{visited}
use gofrog.Files.Tree.{Tree, file, link, dir, Entries, end, entry, info_of, height_entries}
use gofrog.Files.Copying.{Disk, create_dir_if_not_exist, copy_file}

-- The path of an entry, as ListFiles gives it.
abbrev pub child : Bytes → Bytes → Bytes
child path name = trim_here (with_separator path) ++ name

abbrev pub children : Bytes → Entries → List Bytes
children path end = []
children path (entry name t es) = child path name ∷ children path es

-- The entries that are listed: directories only with includeDirs.
abbrev pub listed : Bool → Entries → Entries
listed include_dirs end = end
listed include_dirs (entry name t es) =
    let rest = listed include_dirs es in
    if include_dirs || not (info_of t).is_dir then entry name t rest else rest

abbrev pub without : List Bytes → Entries → Entries
without exclude_names end = end
without exclude_names (entry name t es) =
    let rest = without exclude_names es in
    if visited exclude_names name then rest else entry name t rest

pub data Action : Type 0 where
  ensure_dir : Bytes → Action
  copy_to : Bytes → Bytes → Action

-- The description: each directory is made before what is in it is copied.
unfoldable mutual
  pub plan_tree : Bytes → Bytes → Bytes → Tree → List Action
  plan_tree path to name file = copy_to to path ∷ []
  plan_tree path to name link = copy_to to path ∷ []
  plan_tree path to name (dir es) =
      ensure_dir (join (to ∷ name ∷ [])) ∷ plan_entries path (join (to ∷ name ∷ [])) es

  pub plan_entries : Bytes → Bytes → Entries → List Action
  plan_entries from to end = []
  plan_entries from to (entry name t es) =
      plan_tree (child from name) to name t ++ plan_entries from to es

pub height_entries-listed :
    (include_dirs : Bool) (es : Entries)
    → height_entries (listed include_dirs es) ≤ height_entries es
height_entries-listed include_dirs end = omega arith
height_entries-listed include_dirs (entry name t es) =
    ground (arith, height_entries-listed include_dirs es)

pub without_none : (es : Entries) → without [] es ≡ es
unfolding visited
without_none end = refl
without_none (entry name t es) = ground (arith, without_none es)

module _ {S X : Type 0} (disk : Disk S X) where
  unfoldable pub with_errors : S × Option X → S × List X
  with_errors (s, none) = (s, [])
  with_errors (s, some e) = (s, e ∷ [])

  unfoldable pub perform : Action → S → S × List X
  unfolding with_errors
  perform (ensure_dir path) s = with_errors (create_dir_if_not_exist disk s path)
  perform (copy_to to path) s = copy_file disk s to path

  unfoldable pub then_run : (S → S × List X) → S × List X → S × List X
  then_run next (s, []) = next s
  then_run next (s, e ∷ es) = (s, e ∷ es)

  -- The actions in order, up to the first one that fails.
  unfoldable pub run : List Action → S → S × List X
  unfolding perform then_run
  run [] s = (s, [])
  run (a ∷ actions) s = then_run (run actions) (perform a s)

  then_run_twice :
      (f g h : S → S × List X) (r : S × List X)
      → ((s : S) → h s ≡ then_run g (f s))
      → then_run h r ≡ then_run g (then_run f r)
  unfolding then_run
  then_run_twice f g h (s, []) same = same s
  then_run_twice f g h (s, e ∷ es) same = refl

  pub run-append :
      (first later : List Action) (s : S)
      → run (first ++ later) s ≡ then_run (run later) (run first s)
  unfolding run
  run-append [] later s = ground arith
  run-append (a ∷ first) later s =
      then_run_twice (run first) (run later) (run (first ++ later)) (perform a s)
        (run-append first later)

  pub then_run-done : (r : S × List X) → then_run (run []) r ≡ r
  unfolding then_run run
  then_run-done (s, []) = refl
  then_run-done (s, e ∷ es) = refl
