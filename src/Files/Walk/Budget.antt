-- ===== src/Files/Walk/Budget.antt =====
-- io/fileutils.go: what a call of walk into links needs, by the links that are left.
use gofrog.Prelude.{
  either_cases, ℕ, zero, suc, ◌+◌, ◌≤◌, ◌<◌, ◌≡◌, refl, List, [], ◌∷◌, true, false, ◌||◌,
  if◌then◌else◌, ltb, Bool-cases, All, Bytes, inl, inr, ◌⊎◌, same_bytes_iff, arith,
}
use gofrog.Filepath.{join}
use gofrog.Files.Listing.{FileInfo, is_dir_exists, is_path_symlink}
use gofrog.Files.Parents.{visited}
use gofrog.Files.Walk.{WalkSystem, read_dir_names, eval_path_of_symlink, real_path, enter, is_known}

-- How many of the links have not been visited.
abbrev pub count_left : List Bytes → List Bytes → ℕ
count_left seen [] = 0
count_left seen (l ∷ ls) =
    let rest = count_left seen ls in if visited seen l then rest else suc rest

count_left-visited :
    (link : Bytes) (seen ls : List Bytes) → count_left (link ∷ seen) ls ≤ count_left seen ls
unfolding visited
count_left-visited link seen [] = omega arith
count_left-visited link seen (l ∷ ls) = ground (arith, count_left-visited link seen ls)

-- A link that is visited for the first time leaves one less.
count_left-unvisited :
    (link : Bytes) (seen ls : List Bytes)
    → visited ls link ≡ true
    → visited seen link ≡ false
    → count_left (link ∷ seen) ls < count_left seen ls
unfolding visited
count_left-unvisited link seen [] m u = absurd (ground arith)
count_left-unvisited link seen (l ∷ ls) m u = ground (
  arith,
  same_bytes_iff l link,
  same_bytes_iff link l,
  count_left-visited link seen ls,
  count_left-unvisited link seen ls,
)

-- Fuel for a number of links in directories of some depth.
abbrev pub room : ℕ → ℕ → ℕ
room depth zero = 0
room depth (suc n) = room depth n + suc depth

pub room_mono : (depth a b : ℕ) → a ≤ b → room depth a ≤ room depth b
room_mono depth zero b l = omega arith
room_mono depth (suc a) zero l = absurd (omega arith)
room_mono depth (suc a) (suc b) l = omega (arith, room_mono depth a b (omega arith))

room_lt : (depth a b : ℕ) → a < b → room depth a + depth < room depth b
room_lt depth a zero l = absurd (omega arith)
room_lt depth a (suc b) l = omega (arith, room_mono depth a b (omega arith))

-- A finite file system: below a directory stand links and what has a smaller height, up to some
-- height, the links are listed, and what is a directory through a link is one at its real path.
pub record IsFinite {X : Type 0} (sys : WalkSystem X) (height : Bytes → ℕ) (depth : ℕ)
    (links : List Bytes) : Type 0 where
  pub lower :
      (path : Bytes) (names : List Bytes)
      → read_dir_names sys path ≡ inr names
      → All
          (λ name.
            (is_path_symlink sys.fs (join (path ∷ name ∷ []))
              || ltb (height (join (path ∷ name ∷ []))) (height path))
            ≡ true)
          names
  pub bounded : (path : Bytes) → height path ≤ depth
  pub listed :
      (path link : Bytes)
      → is_path_symlink sys.fs path ≡ true
      → eval_path_of_symlink sys path ≡ inr link
      → visited links link ≡ true
  pub leads :
      (path : Bytes) (info : FileInfo)
      → is_path_symlink sys.fs path ≡ true
      → sys.fs.stat path ≡ inr info
      → info.is_dir ≡ true
      → is_dir_exists sys.fs (real_path sys path) false ≡ inr true

module _ {X : Type 0} (sys : WalkSystem X) (height : Bytes → ℕ) (depth : ℕ)
    (links : List Bytes) where
  -- The fuel that a call of walk needs: one unit, unless it goes into a directory.
  abbrev pub need : Bytes → FileInfo → List Bytes → ℕ
  need path info seen = elim (enter sys true path seen) [
    | inl e ↦ 0
    | inr seen' ↦ if info.is_dir then room depth (count_left seen' links) + height path else 0
  ]

module _ {X : Type 0} (sys : WalkSystem X) (height : Bytes → ℕ) (depth : ℕ) (links : List Bytes)
    (finite : IsFinite sys height depth links) where
  fresh-unvisited :
      (path link : Bytes) (seen : List Bytes)
      → is_path_symlink sys.fs path ≡ true
      → eval_path_of_symlink sys path ≡ inr link
      → is_known sys true path seen ≡ inr false
      → visited seen link ≡ false
  unfolding is_known
  fresh-unvisited path link seen l e fresh = ground arith

  enter-link :
      (path link : Bytes) (info : FileInfo) (seen : List Bytes)
      → is_path_symlink sys.fs path ≡ true
      → sys.fs.stat path ≡ inr info
      → info.is_dir ≡ true
      → eval_path_of_symlink sys path ≡ inr link
      → enter sys true path seen ≡ inr (link ∷ seen)
  unfolding enter
  enter-link path link info seen l found is_dir e =
      ground (arith, finite.leads path info l found is_dir)

  known-lost :
      (path : Bytes) (seen : List Bytes) (e : X)
      → is_path_symlink sys.fs path ≡ true
      → eval_path_of_symlink sys path ≡ inl e
      → is_known sys true path seen ≡ inl e
  unfolding is_known
  known-lost path seen e l lost = ground arith

  need-file :
      (path : Bytes) (info : FileInfo) (seen : List Bytes)
      → info.is_dir ≡ false
      → need sys height depth links path info seen ≡ 0
  need-file path info seen h = ground arith

  pub need-dir :
      (path : Bytes) (info : FileInfo) (seen seen' : List Bytes)
      → enter sys true path seen ≡ inr seen'
      → info.is_dir ≡ true
      → need sys height depth links path info seen
        ≡ room depth (count_left seen' links) + height path
  need-dir path info seen seen' e h = ground arith

  -- An entry that is a link is entered as one that was not visited.
  need-link :
      (path : Bytes) (info : FileInfo) (seen : List Bytes) (evaluated : X ⊎ Bytes)
      → eval_path_of_symlink sys path ≡ evaluated
      → is_path_symlink sys.fs path ≡ true
      → sys.fs.stat path ≡ inr info
      → is_known sys true path seen ≡ inr false
      → need sys height depth links path info seen < room depth (count_left seen links)
  need-link path info seen (inl e) same l found fresh =
      absurd (ground (arith, known-lost path seen e l same))
  need-link path info seen (inr link) same l found fresh =
      let fewer = room_lt depth (count_left (link ∷ seen) links) (count_left seen links) (
        count_left-unvisited link seen links (finite.listed path link l same)
          (fresh-unvisited path link seen l same fresh)) in
      elim (Bool-cases info.is_dir) [
        | inl is_dir ↦
            let entered =
              need-dir path info seen (link ∷ seen)
                (enter-link path link info seen l found is_dir same) is_dir in
            omega (arith, finite.bounded path, fewer, entered)
        | inr other ↦ omega (arith, fewer, need-file path info seen other)
      ]

  need-plain :
      (path : Bytes) (info : FileInfo) (seen : List Bytes)
      → is_path_symlink sys.fs path ≡ false
      → need sys height depth links path info seen
        ≤ room depth (count_left seen links) + height path
  unfolding enter
  need-plain path info seen l = ground arith

  -- An entry that is not passed over, in a directory.
  pub need-entry :
      (path filename : Bytes) (info : FileInfo) (seen : List Bytes)
      → (is_path_symlink sys.fs filename || ltb (height filename) (height path)) ≡ true
      → sys.fs.stat filename ≡ inr info
      → is_known sys true filename seen ≡ inr false
      → need sys height depth links filename info seen
        < room depth (count_left seen links) + height path
  need-entry path filename info seen h found fresh =
      elim (Bool-cases (is_path_symlink sys.fs filename)) [
        | inl l ↦ omega (
          arith,
          need-link filename info seen (eval_path_of_symlink sys filename) refl l found fresh,
        )
        | inr plain ↦
            let lower : height filename < height path = ground arith in
            omega (arith, lower, need-plain filename info seen plain)
      ]

  pub enter-left :
      (path : Bytes) (seen seen' : List Bytes)
      → enter sys true path seen ≡ inr seen'
      → count_left seen' links ≤ count_left seen links
  unfolding enter
  enter-left path seen seen' e = elim (either_cases (eval_path_of_symlink sys path)) [
    | inl (x, lost) ↦ ground (arith, lost)
    | inr (link, found) ↦ ground (arith, found, count_left-visited link seen links)
  ]

  pub need-bounded :
      (path : Bytes) (info : FileInfo) (seen : List Bytes)
      → need sys height depth links path info seen ≤ room depth (count_left seen links) + depth
  need-bounded path info seen = elim (either_cases (enter sys true path seen)) [
    | inl (e, failed) ↦ ground (arith, failed)
    | inr (seen', entered) ↦ ground (
      arith,
      entered,
      finite.bounded path,
      room_mono depth (count_left seen' links) (count_left seen links),
      enter-left path seen seen' entered,
    )
  ]
