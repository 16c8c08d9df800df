-- ===== src/Files/Walk/Tests.antt =====
-- Runs of Walk, and its theorems at concrete inputs.
use gofrog.Prelude.{
  ℕ, ◌≡◌, refl, List, [], ◌∷◌, ◌++◌, Bool, true, false, ◌||◌, if◌then◌else◌, Bool-cases, All,
  Option, none, some, Bytes, codes, inl, inr, ◌⊎◌, same_bytes, same_bytes_iff, arith, ltb,
  compare_bytes,
}
use gofrog.Version.{is_empty, split}
use gofrog.Filepath.{join, base, dir}
use gofrog.Files.Listing.{FileInfo, is_dir_exists, is_path_symlink}
use gofrog.Files.Tree.{Tree, file, end, entry}
use gofrog.Files.Parents.{visited}
use gofrog.Files.Walk.{
  OpenDir, WalkSystem, WalkFunc, Walking, read_dir_names, eval_path_of_symlink, real_path, enter,
  is_known, walk_root, sort_names,
}
use gofrog.Files.Walk.Traversed.{traverse, walk_root-traverse}
use gofrog.Files.Walk.Budget.{IsFinite}
use gofrog.Files.Walk.Halting.{walk_root-IsFinite}

abbrev info : Bool → Bool → FileInfo
info is_dir is_symlink = record { is_dir = is_dir; is_symlink = is_symlink }

abbrev holds : List Bytes → ℕ ⊎ OpenDir ℕ
holds names = inr (record { names = inr names; close_error = none })

-- The callback keeps the paths, and skips what is left after a file "b".
abbrev record_paths : WalkFunc (List Bytes) ℕ
record_paths paths path i e =
    (paths ++ (path ∷ []), if same_bytes path (codes "d/b") then some 1 else none)

-- A directory "d" with the files "a", "b" and "c".
abbrev flat_stat : Bytes → ℕ ⊎ FileInfo
flat_stat p = inr (if same_bytes p (codes "d") then info true false else info false false)

abbrev flat : WalkSystem ℕ
flat = record {
  fs = record {
    lstat = flat_stat;
    stat = flat_stat;
    is_not_exist = λ e. false;
    read_dir = λ p. [];
  };
  eval_symlinks = λ p. inr p;
  open_dir = λ p. holds (codes "c" ∷ codes "a" ∷ codes "b" ∷ []);
  is_skip_dir = λ e. true;
}

abbrev three_files : Tree
three_files =
    Tree.dir (entry (codes "a") file (entry (codes "b") file (entry (codes "c") file end)))

-- The skip of the last file is the result of Walk.
walk_root-traverse_example :
    walk_root flat record_paths false 2 (codes "d") []
    ≡ some
        (record { kept = codes "d" ∷ codes "d/a" ∷ codes "d/b" ∷ []; visited_links = [] }, some 1)
unfolding read_dir_names is_dir_exists real_path traverse join is_empty split same_bytes sort_names
    compare_bytes
walk_root-traverse_example =
    walk_root-traverse flat record_paths 2 three_files (codes "d") [] (omega arith) refl
      (refl, refl, refl, ((refl, refl), ((refl, refl), ((refl, refl), tt))))

-- A directory "/d" with a link "l" to itself.
abbrev leads_to_directory : Bytes → Bool
leads_to_directory p = same_bytes p (codes "/d/l") || same_bytes p (codes "/d/l/l")

abbrev is_loop : Bytes → Bool
is_loop p = same_bytes p (codes "/d") || same_bytes p (codes "/d/l")

abbrev looped : WalkSystem ℕ
looped = record {
  fs = record {
    lstat = λ p. inr (if leads_to_directory p then info false true else info true false);
    stat = λ p. inr (info true false);
    is_not_exist = λ e. false;
    read_dir = λ p. [];
  };
  eval_symlinks = λ p. inr (codes "/d");
  open_dir = λ p. if is_loop p then holds (codes "l" ∷ []) else inl 2;
  is_skip_dir = λ e. false;
}

looped-is_path_symlink :
    (p : Bytes) → is_loop p ≡ true → is_path_symlink looped.fs (join (p ∷ codes "l" ∷ [])) ≡ true
unfolding is_path_symlink join is_empty split same_bytes
looped-is_path_symlink p h = elim (Bool-cases (same_bytes p (codes "/d"))) [
  | inl here ↦ rw ((same_bytes_iff p (codes "/d")).0 here) refl
  | inr other ↦
      let below : same_bytes p (codes "/d/l") ≡ true = ground arith in
      rw ((same_bytes_iff p (codes "/d/l")).0 below) refl
]

looped-read_dir_names :
    (p : Bytes) (names : List Bytes)
    → read_dir_names looped p ≡ inr names
    → (is_loop p ≡ true) × (names ≡ codes "l" ∷ [])
unfolding read_dir_names sort_names
looped-read_dir_names p names found = ground arith

looped-lower :
    (p : Bytes) (names : List Bytes)
    → read_dir_names looped p ≡ inr names
    → All (λ name. (is_path_symlink looped.fs (join (p ∷ name ∷ [])) || ltb 0 0) ≡ true) names
looped-lower p names found =
    let (here, same) = looped-read_dir_names p names found in
    rw (same) (ground (arith, looped-is_path_symlink p here), tt)

abbrev loop_links : List Bytes
loop_links = codes "/d/l" ∷ []

looped-link :
    (p l : Bytes)
    → is_path_symlink looped.fs p ≡ true
    → eval_path_of_symlink looped p ≡ inr l
    → visited loop_links l ≡ true
unfolding is_path_symlink eval_path_of_symlink base join is_empty split same_bytes visited
looped-link p l h found = elim (Bool-cases (same_bytes p (codes "/d/l"))) [
  | inl here ↦
      let e : eval_path_of_symlink looped (codes "/d/l") ≡ inr l =
        rw ((same_bytes_iff p (codes "/d/l")).0 here) at found in
      ground arith
  | inr other ↦
      let below : same_bytes p (codes "/d/l/l") ≡ true = ground arith in
      let e : eval_path_of_symlink looped (codes "/d/l/l") ≡ inr l =
        rw ((same_bytes_iff p (codes "/d/l/l")).0 below) at found in
      ground arith
]

looped-IsFinite : IsFinite looped (λ p. 0) 0 loop_links
unfolding is_dir_exists
looped-IsFinite = record {
  lower = looped-lower;
  bounded = λ p. omega arith;
  listed = looped-link;
  leads = λ p i h found is_dir. refl;
}

-- The link is entered once, and is passed over below itself.
once :
    walk_root looped record_paths true 3 (codes "/d") []
    ≡ some
        (record { kept = codes "/d" ∷ codes "/d/l" ∷ []; visited_links = codes "/d/l" ∷ [] }, none)
unfolding walk_root read_dir_names is_dir_exists is_path_symlink real_path eval_path_of_symlink
    enter is_known sort_names base dir join is_empty split same_bytes visited
once = refl

walk_root-IsFinite_example :
    (w : Walking (List Bytes)) × (e : Option ℕ) × (walk_root looped record_paths true 3
        (codes "/d")
        []
      ≡ some (w, e))
unfolding visited
walk_root-IsFinite_example =
    walk_root-IsFinite looped record_paths (λ p. 0) 0 loop_links looped-IsFinite 3 (codes "/d") []
      (omega arith)
