-- ===== src/Files/Walk/Traversed.antt =====
-- io/fileutils.go: without links to follow, Walk goes through the tree under a path.
use gofrog.Prelude.{
  ℕ, zero, suc, ◌<◌, ◌≡◌, refl, [], ◌∷◌, Bool, true, false, not, ◌||◌, if◌then◌else◌, Option, none,
  some, Bytes, inr, arith,
}
use gofrog.Filepath.{join}
use gofrog.Files.Listing.{is_dir_exists}
use gofrog.Files.Tree.{
  Tree, file, link, dir, Entries, end, entry, info_of, names_of, height, height_entries,
}
use gofrog.Files.Walk.{
  WalkSystem, WalkFunc, Walking, read_dir_names, real_path, enter, is_known, call, after_entry,
  visit_entry, handle, walk_names, walk_entries, after_call, walk, walk_root,
}

module _ {X : Type 0} (sys : WalkSystem X) where
  -- What the system answers about a path under which a tree stands.
  abbrev mutual
    pub Stands : Bytes → Tree → Type 0
    Stands path file =
        (sys.fs.lstat path ≡ inr (info_of file))
        × (is_dir_exists sys.fs (real_path sys path) false ≡ inr false)
    Stands path link =
        (sys.fs.lstat path ≡ inr (info_of link))
        × (b : Bool) × (is_dir_exists sys.fs (real_path sys path) false ≡ inr b)
    Stands path (dir es) =
        (sys.fs.lstat path ≡ inr (info_of (dir es)))
        × (is_dir_exists sys.fs (real_path sys path) false ≡ inr true)
        × (read_dir_names sys path ≡ inr (names_of es))
        × EntriesStand path es

    pub EntriesStand : Bytes → Entries → Type 0
    EntriesStand path end = Unit
    EntriesStand path (entry name t es) = Stands (join (path ∷ name ∷ [])) t × EntriesStand path es

  module _ {S : Type 0} (walk_fn : WalkFunc S X) where
    unfoldable pub go_below : (S → S × Option X) → S × Option X → S × Option X
    go_below next (s, none) = next s
    go_below next (s, some e) = if sys.is_skip_dir e then (s, none) else (s, some e)

    unfoldable pub go_on : Bool → (S → S × Option X) → S × Option X → S × Option X
    go_on is_dir next (s, none) = next s
    go_on is_dir next (s, some e) =
        if not is_dir || not (sys.is_skip_dir e) then (s, some e) else next s

    -- The description: the callback at a path and then, in the order of their names, at what is under it.
    -- ErrSkipDir leaves out what is under a directory, or what is still left of the directory of a file.
    unfoldable mutual
      unfolding go_below go_on

      pub traverse : Tree → Bytes → S → S × Option X
      traverse file path s = walk_fn s path (some (info_of file)) none
      traverse link path s = walk_fn s path (some (info_of link)) none
      traverse (dir es) path s =
          go_below (traverse_entries es path) (walk_fn s path (some (info_of (dir es))) none)

      pub traverse_entries : Entries → Bytes → S → S × Option X
      traverse_entries end path s = (s, none)
      traverse_entries (entry name t es) path s =
          go_on (info_of t).is_dir (traverse_entries es path)
            (traverse t (join (path ∷ name ∷ [])) s)

    abbrev pub start : S → Walking S
    start s = record { kept = s; visited_links = [] }

    abbrev pub result_of : S × Option X → Option (Walking S × Option X)
    result_of r = some (start r.0, r.1)

    after_call-go_below :
        (f : Walking S → Option (Walking S × Option X)) (g : S → S × Option X) (es : Entries)
        (r : S × Option X)
        → ((s : S) → f (start s) ≡ result_of (g s))
        → after_call sys walk_fn false f (info_of (dir es)) (start r.0, r.1)
          ≡ result_of (go_below g r)
    unfolding after_call go_below
    after_call-go_below f g es (s, none) same = same s
    after_call-go_below f g es (s, some e) same = ground arith

    after_entry-go_on :
        (f : Walking S → Option (Walking S × Option X)) (g : S → S × Option X) (is_dir : Bool)
        (r : S × Option X)
        → ((s : S) → f (start s) ≡ result_of (g s))
        → after_entry sys walk_fn false is_dir f (result_of r) ≡ result_of (go_on is_dir g r)
    unfolding after_entry go_on
    after_entry-go_on f g is_dir (s, none) same = same s
    after_entry-go_on f g is_dir (s, some e) same = ground (arith, same s)

    enter-Stands : (t : Tree) (path : Bytes) → Stands path t → enter sys false path [] ≡ inr []
    unfolding enter
    enter-Stands file path h = ground arith
    enter-Stands link path h = ground arith
    enter-Stands (dir es) path h = ground arith

    lstat-Stands : (t : Tree) (path : Bytes) → Stands path t → sys.fs.lstat path ≡ inr (info_of t)
    lstat-Stands file path h = h.0
    lstat-Stands link path h = h.0
    lstat-Stands (dir es) path h = h.0

    after_call-file :
        (t : Tree) (f : Walking S → Option (Walking S × Option X)) (r : S × Option X)
        → (info_of t).is_dir ≡ false
        → f (start r.0) ≡ some (start r.0, none)
        → after_call sys walk_fn false f (info_of t) (start r.0, r.1) ≡ result_of r
    unfolding after_call
    after_call-file t f (s, none) h same = same
    after_call-file t f (s, some e) h same = rw (h) refl

    mutual
      unfolding walk traverse walk_entries walk_names handle visit_entry is_known call

      walk-traverse_tree :
          (fuel : ℕ) (t : Tree) (path : Bytes) (s : S)
          → height t < fuel
          → Stands path t
          → walk sys walk_fn false fuel path (info_of t) (start s) ≡ result_of (traverse t path s)
      walk-traverse_tree zero t path s l h = absurd (omega arith)
      walk-traverse_tree (suc fuel) file path s l h =
          rw (enter-Stands file path h, walk)
            (after_call-file file
              (walk_entries sys walk_fn false (walk sys walk_fn false fuel) path (info_of file))
              (walk_fn s path (some (info_of file)) none) refl refl)
      walk-traverse_tree (suc fuel) link path s l h =
          rw (enter-Stands link path h, walk)
            (after_call-file link
              (walk_entries sys walk_fn false (walk sys walk_fn false fuel) path (info_of link))
              (walk_fn s path (some (info_of link)) none) refl refl)
      walk-traverse_tree (suc fuel) (dir es) path s l h =
          rw (enter-Stands (dir es) path h, walk)
            (after_call-go_below
              (walk_entries sys walk_fn false (walk sys walk_fn false fuel) path (info_of (dir es)))
              (traverse_entries es path) es (walk_fn s path (some (info_of (dir es))) none)
              (λ s'.
                rw (h.2, walk_entries) (walk_names-traverse fuel es path s' (omega arith) h.3)))

      walk_names-traverse :
          (fuel : ℕ) (es : Entries) (path : Bytes) (s : S)
          → height_entries es < fuel
          → EntriesStand path es
          → walk_names sys walk_fn false (walk sys walk_fn false fuel) path (names_of es) (start s)
            ≡ result_of (traverse_entries es path s)
      walk_names-traverse fuel end path s l h = refl
      walk_names-traverse fuel (entry name t es) path s l h =
          rw (lstat-Stands t (join (path ∷ name ∷ [])) h.0, walk_names)
            (rw (walk-traverse_tree fuel t (join (path ∷ name ∷ [])) s (omega arith) h.0) (
              after_entry-go_on
                (walk_names sys walk_fn false (walk sys walk_fn false fuel) path (names_of es))
                (traverse_entries es path) (info_of t).is_dir
                (traverse t (join (path ∷ name ∷ [])) s)
                (λ s'. walk_names-traverse fuel es path s' (omega arith) h.1)))

    -- With links that are not followed, and a tree under the root: Walk returns, it calls the
    -- callback at the root and then, directory by directory in the order of the names, at all that
    -- is under it, up to the first error, with ErrSkipDir as the description has it; and it returns
    -- the error that ends the traversal, ErrSkipDir included.
    pub walk_root-traverse :
        (fuel : ℕ) (t : Tree) (root : Bytes) (s : S)
        → height t < fuel
        → sys.fs.stat root ≡ inr (info_of t)
        → Stands root t
        → walk_root sys walk_fn false fuel root s ≡ result_of (traverse t root s)
    unfolding walk_root
    walk_root-traverse fuel t root s l found h =
        rw (found, walk_root) (walk-traverse_tree fuel t root s l h)
