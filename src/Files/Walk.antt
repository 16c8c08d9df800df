-- ===== src/Files/Walk.antt =====
-- io/fileutils.go: Walk. The file system and the callback are parameters: X is the type of the errors, S what
-- the callback keeps. Each call of walk takes one unit of fuel, and none is no answer within the fuel.
pub mod Traversed
pub mod Budget
pub mod Halting
mod Tests
use gofrog.Prelude.{
  ℕ, zero, suc, ◌≡◌, pos, List, [], ◌∷◌, Bool, true, false, not, ◌&&◌, ◌||◌, if◌then◌else◌, leb_ℤ,
  compare_bytes, Option, none, some, Bytes, inl, inr, ◌⊎◌,
}
use gofrog.Filepath.{join, dir, base}
use gofrog.Files.Listing.{FileInfo, FileSystem, is_dir_exists, is_path_symlink}
use gofrog.Files.Parents.{visited}

-- An open directory: what Readdirnames and Close answer.
pub record OpenDir (X : Type 0) : Type 0 where
  pub names : X ⊎ List Bytes
  pub close_error : Option X

pub record WalkSystem (X : Type 0) : Type 0 where
  pub fs : FileSystem X
  pub eval_symlinks : Bytes → X ⊎ Bytes
  pub open_dir : Bytes → X ⊎ OpenDir X
  pub is_skip_dir : X → Bool

-- The callback gets the path, the info unless it is nil, and the error unless it is nil.
abbrev pub WalkFunc : Type 0 → Type 0 → Type 0
WalkFunc S X = S → Bytes → Option FileInfo → Option X → S × Option X

-- What the callback keeps, and the keys of the map of links.
pub record Walking (S : Type 0) : Type 0 where
  pub kept : S
  pub visited_links : List Bytes

-- sort.Strings.
insert_name : Bytes → List Bytes → List Bytes
insert_name n [] = n ∷ []
insert_name n (m ∷ ms) =
    let rest = insert_name n ms in
    if leb_ℤ (compare_bytes n m) (pos 0) then n ∷ m ∷ ms else m ∷ rest

unfoldable pub sort_names : List Bytes → List Bytes
unfolding insert_name
sort_names [] = []
sort_names (n ∷ ns) = insert_name n (sort_names ns)

module _ {X : Type 0} (sys : WalkSystem X) where
  sorted_names : X ⊎ List Bytes → Option X → X ⊎ List Bytes
  sorted_names (inl e) closing = inl e
  sorted_names (inr names) (some e) = inl e
  sorted_names (inr names) none = inr (sort_names names)

  unfoldable pub read_dir_names : Bytes → X ⊎ List Bytes
  unfolding sorted_names
  read_dir_names dirname = elim (sys.open_dir dirname) [
    | inl e ↦ inl e
    | inr d ↦ sorted_names d.names d.close_error
  ]

  unfoldable pub eval_path_of_symlink : Bytes → X ⊎ Bytes
  eval_path_of_symlink path = elim (sys.eval_symlinks (dir path)) [
    | inl e ↦ inl e
    | inr dir ↦ inr (join (dir ∷ base path ∷ []))
  ]

  unfoldable pub real_path : Bytes → Bytes
  real_path path = elim (sys.eval_symlinks path) [ inl e ↦ path | inr p ↦ p ]

  -- The map after a path is entered.
  unfoldable pub enter : Bool → Bytes → List Bytes → X ⊎ List Bytes
  unfolding real_path
  enter into path links = elim (is_dir_exists sys.fs (real_path path) false) [
    | inl e ↦ inl e
    | inr is_dir ↦
        if into && is_path_symlink sys.fs path && is_dir
        then elim (eval_path_of_symlink path) [ inl e ↦ inl e | inr link ↦ inr (link ∷ links) ]
        else inr links
  ]

  -- Whether an entry is passed over, as a link that was visited.
  unfoldable pub is_known : Bool → Bytes → List Bytes → X ⊎ Bool
  is_known into filename links =
      if into && is_path_symlink sys.fs filename
      then elim (eval_path_of_symlink filename) [
        | inl e ↦ inl e
        | inr link ↦ inr (visited links link)
      ]
      else inr false

  module _ {S : Type 0} (walk_fn : WalkFunc S X) (into : Bool) where
    unfoldable pub call : Bytes → Option FileInfo → Option X → Walking S → Walking S × Option X
    call path info err w =
        (record w { kept = (walk_fn w.kept path info err).0 }, (walk_fn w.kept path info err).1)

    -- After an entry: what is no ErrSkipDir of a directory ends the loop.
    unfoldable pub after_entry :
        Bool
        → (Walking S → Option (Walking S × Option X))
        → Option (Walking S × Option X)
        → Option (Walking S × Option X)
    after_entry is_dir next none = none
    after_entry is_dir next (some (w, none)) = next w
    after_entry is_dir next (some (w, some e)) =
        if not is_dir || not (sys.is_skip_dir e) then some (w, some e) else next w

    handle : Bytes → X ⊎ FileInfo
    handle filename = if into then sys.fs.stat filename else sys.fs.lstat filename

    -- An entry by its info; the callback's ErrSkipDir for an error is ignored.
    visit_entry :
        (Bytes → FileInfo → Walking S → Option (Walking S × Option X))
        → Bytes
        → (Walking S → Option (Walking S × Option X))
        → Walking S
        → X ⊎ FileInfo
        → Option (Walking S × Option X)
    unfolding call after_entry
    visit_entry walk_one filename next w (inl e) =
        after_entry true next (some (call filename none (some e) w))
    visit_entry walk_one filename next w (inr info) =
        after_entry info.is_dir next (walk_one filename info w)

    unfoldable pub walk_names :
        (Bytes → FileInfo → Walking S → Option (Walking S × Option X))
        → Bytes
        → List Bytes
        → Walking S
        → Option (Walking S × Option X)
    unfolding handle visit_entry
    walk_names walk_one path [] w = some (w, none)
    walk_names walk_one path (name ∷ names) w =
        elim (is_known into (join (path ∷ name ∷ [])) w.visited_links) [
          | inl e ↦ some (w, some e)
          | inr known ↦
              if known
              then walk_names walk_one path names w
              else visit_entry walk_one (join (path ∷ name ∷ [])) (walk_names walk_one path names) w
                  (handle (join (path ∷ name ∷ [])))
        ]

    -- The entries of a directory, once the callback has returned nil for it.
    walk_entries :
        (Bytes → FileInfo → Walking S → Option (Walking S × Option X))
        → Bytes
        → FileInfo
        → Walking S
        → Option (Walking S × Option X)
    unfolding walk_names
    walk_entries walk_one path info w =
        if not info.is_dir then some (w, none) else elim (read_dir_names path) [
          | inl e ↦ some (call path (some info) (some e) w)
          | inr names ↦ walk_names walk_one path names w
        ]

    after_call :
        (Walking S → Option (Walking S × Option X))
        → FileInfo
        → Walking S × Option X
        → Option (Walking S × Option X)
    after_call next info (w, none) = next w
    after_call next info (w, some e) =
        if info.is_dir && sys.is_skip_dir e then some (w, none) else some (w, some e)

    unfoldable pub walk : ℕ → Bytes → FileInfo → Walking S → Option (Walking S × Option X)
    unfolding walk_entries after_call call
    walk zero path info w = none
    walk (suc fuel) path info w = elim (enter into path w.visited_links) [
      | inl e ↦ some (w, some e)
      | inr links ↦
          after_call (walk_entries (walk fuel) path info) info
            (call path (some info) none (record w { visited_links = links }))
    ]

    unfoldable pub walk_root : ℕ → Bytes → S → Option (Walking S × Option X)
    unfolding walk call
    walk_root fuel root s =
        let w : Walking S = record { kept = s; visited_links = [] } in
        elim (sys.fs.stat root) [
          | inl e ↦ some (call root none (some e) w)
          | inr info ↦ walk fuel root info w
        ]
