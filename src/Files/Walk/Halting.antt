-- ===== src/Files/Walk/Halting.antt =====
-- io/fileutils.go: Walk into links comes to an end.
use gofrog.Prelude.{
  answer_cases, either_cases, ℕ, zero, suc, ◌+◌, ◌≤◌, ◌<◌, ◌≡◌, refl, List, [], ◌∷◌, Bool, true,
  not, ◌&&◌, ◌||◌, ltb, Bool-cases, All, Option, none, some, Bytes, inl, inr, ◌⊎◌, arith,
}
use gofrog.Filepath.{join}
use gofrog.Files.Listing.{FileInfo, is_path_symlink}
use gofrog.Files.Walk.Budget.{
  count_left, room, room_mono, IsFinite, need, need-dir, need-entry, enter-left, need-bounded,
}
use gofrog.Files.Walk.{
  WalkSystem, WalkFunc, Walking, read_dir_names, enter, is_known, call, after_entry, visit_entry,
  handle, walk_names, walk_entries, after_call, walk, walk_root,
}

module _ {S X : Type 0} (sys : WalkSystem X) (walk_fn : WalkFunc S X) (height : Bytes → ℕ)
    (depth : ℕ) (links : List Bytes) (finite : IsFinite sys height depth links) where
  abbrev left : Walking S → ℕ
  left w = count_left w.visited_links links

  -- An answer, with no link forgotten.
  abbrev Halts : ℕ → Option (Walking S × Option X) → Type 0
  Halts n r = (w : Walking S) × (e : Option X) × (r ≡ some (w, e)) × (left w ≤ n)

  after_entry-Halts :
      (n : ℕ) (is_dir : Bool) (next : Walking S → Option (Walking S × Option X))
      (r : Option (Walking S × Option X))
      → Halts n r
      → ((w : Walking S) → left w ≤ n → Halts n (next w))
      → Halts n (after_entry sys walk_fn true is_dir next r)
  unfolding after_entry
  after_entry-Halts n is_dir next r (w, none, same, less) h = rw (same) (h w less)
  after_entry-Halts n is_dir next r (w, some e, same, less) h =
      elim (Bool-cases (not is_dir || not (sys.is_skip_dir e))) [
        | inl stops ↦ rw (same) (rw (stops) (w, some e, refl, less))
        | inr goes ↦ rw (same) (rw (goes) (h w less))
      ]

  after_call-Halts :
      (n : ℕ) (next : Walking S → Option (Walking S × Option X)) (info : FileInfo)
      (r : Walking S × Option X)
      → left r.0 ≤ n
      → Halts n (next r.0)
      → Halts n (after_call sys walk_fn true next info r)
  unfolding after_call
  after_call-Halts n next info (w, none) less h = h
  after_call-Halts n next info (w, some e) less h =
      elim (Bool-cases (info.is_dir && sys.is_skip_dir e)) [
        | inl skips ↦ rw (skips) (w, none, refl, less)
        | inr stops ↦ rw (stops) (w, some e, refl, less)
      ]

  module _ (walk_one : Bytes → FileInfo → Walking S → Option (Walking S × Option X)) (fuel : ℕ)
      (each : (path : Bytes) (info : FileInfo) (w : Walking S)
        → need sys height depth links path info w.visited_links < fuel
        → Halts (left w) (walk_one path info w)) where
    visit_entry-Halts :
        (filename : Bytes) (next : Walking S → Option (Walking S × Option X)) (w : Walking S)
        (n : ℕ) (found : X ⊎ FileInfo)
        → ((info : FileInfo)
            → found ≡ inr info
            → need sys height depth links filename info w.visited_links < fuel)
        → left w ≤ n
        → ((w : Walking S) → left w ≤ n → Halts n (next w))
        → Halts n (visit_entry sys walk_fn true walk_one filename next w found)
    unfolding visit_entry call
    visit_entry-Halts filename next w n (inl e) small less h =
        after_entry-Halts n true next (some (call sys walk_fn true filename none (some e) w))
          (
            (call sys walk_fn true filename none (some e) w).0,
            (call sys walk_fn true filename none (some e) w).1,
            refl,
            less,
          )
          h
    visit_entry-Halts filename next w n (inr info) small less h =
        let (w', e, same, fewer) = each filename info w (small info refl) in
        after_entry-Halts n info.is_dir next (walk_one filename info w) (w', e, same, omega arith) h

    walk_names-Halts :
        (path : Bytes) (names : List Bytes) (w : Walking S) (n : ℕ)
        → All
            (λ name.
              (is_path_symlink sys.fs (join (path ∷ name ∷ []))
                || ltb (height (join (path ∷ name ∷ []))) (height path))
              ≡ true)
            names
        → room depth n + height path ≤ fuel
        → left w ≤ n
        → Halts n (walk_names sys walk_fn true walk_one path names w)
    unfolding walk_names handle
    walk_names-Halts path [] w n lower enough less = (w, none, refl, less)
    walk_names-Halts path (name ∷ names) w n lower enough less =
        let filename = join (path ∷ name ∷ []) in
        elim (answer_cases (is_known sys true filename w.visited_links)) [
          | inl (e, known) ↦ rw (known, walk_names) (w, some e, refl, less)
          | inr (inl known) ↦
              rw (known, walk_names) (walk_names-Halts path names w n lower.1 enough less)
          | inr (inr fresh) ↦
              rw (fresh, walk_names)
                (visit_entry-Halts filename (walk_names sys walk_fn true walk_one path names) w n
                  (sys.fs.stat filename)
                  (λ info found. omega (
                    arith,
                    enough,
                    room_mono depth (left w) n less,
                    need-entry sys height depth links finite path filename info w.visited_links
                        lower.0 found fresh,
                  ))
                  less (λ w' less'. walk_names-Halts path names w' n lower.1 enough less'))
        ]

    walk_entries-Halts :
        (path : Bytes) (info : FileInfo) (w : Walking S) (n : ℕ)
        → (info.is_dir ≡ true → room depth n + height path ≤ fuel)
        → left w ≤ n
        → Halts n (walk_entries sys walk_fn true walk_one path info w)
    unfolding walk_entries call
    walk_entries-Halts path info w n enough less = elim (Bool-cases info.is_dir) [
      | inl is_dir ↦ elim (either_cases (read_dir_names sys path)) [
        | inl (e, failed) ↦
            rw (is_dir, failed, walk_entries)
              (
                (call sys walk_fn true path (some info) (some e) w).0,
                (call sys walk_fn true path (some info) (some e) w).1,
                refl,
                less,
              )
        | inr (names, found) ↦
            rw (is_dir, found, walk_entries)
              (walk_names-Halts path names w n (finite.lower path names found) (enough is_dir) less)
      ]
      | inr other ↦ rw (other, walk_entries) (w, none, refl, less)
    ]

  walk-Halts :
      (fuel : ℕ) (path : Bytes) (info : FileInfo) (w : Walking S)
      → need sys height depth links path info w.visited_links < fuel
      → Halts (left w) (walk sys walk_fn true fuel path info w)
  unfolding walk call
  walk-Halts zero path info w enough = absurd (omega arith)
  walk-Halts (suc fuel) path info w enough =
      elim (either_cases (enter sys true path w.visited_links)) [
        | inl (e, failed) ↦ rw (failed, walk) (w, some e, refl, omega arith)
        | inr (seen, entered) ↦
            let after =
              call sys walk_fn true path (some info) none (record w { visited_links = seen }) in
            let less : count_left seen links ≤ left w =
              enter-left sys height depth links finite path w.visited_links seen entered in
            let (w', e, same, fewer) =
              after_call-Halts (count_left seen links)
                (walk_entries sys walk_fn true (walk sys walk_fn true fuel) path info) info after
                (omega arith)
                (walk_entries-Halts (walk sys walk_fn true fuel) fuel (walk-Halts fuel) path info
                  after.0 (count_left seen links)
                  (λ is_dir. omega (
                    arith,
                    need-dir sys height depth links finite path info w.visited_links seen entered
                        is_dir,
                  ))
                  (omega arith)) in
            rw (entered, walk) (w', e, same, omega arith)
      ]

  -- When the links of a file system are finitely many, and below a directory stand links and what
  -- has a smaller height, up to the given depth: following the links, Walk gives an answer with
  -- fuel for `depth` + 1 levels of directories for each link and for the root, whatever the callback
  -- does and wherever the links lead, loops included.
  pub walk_root-IsFinite :
      (fuel : ℕ) (root : Bytes) (s : S)
      → room depth (count_left [] links) + depth < fuel
      → (w : Walking S) × (e : Option X) × (walk_root sys walk_fn true fuel root s ≡ some (w, e))
  unfolding walk_root call
  walk_root-IsFinite fuel root s enough = elim (either_cases (sys.fs.stat root)) [
    | inl (e, missing) ↦
        let w : Walking S = record { kept = s; visited_links = [] } in
        rw (missing, walk_root)
          (
            (call sys walk_fn true root none (some e) w).0,
            (call sys walk_fn true root none (some e) w).1,
            refl,
          )
    | inr (info, found) ↦
        let start : Walking S = record { kept = s; visited_links = [] } in
        let (w, e, same, fewer) =
          walk-Halts fuel root info start
            (omega (arith, need-bounded sys height depth links finite root info [])) in
        rw (found, walk_root) (w, e, same)
  ]
