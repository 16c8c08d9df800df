-- ===== src/Files/Names/Split.antt =====
-- io/fileutils.go: the directory, the separator and the name make up the path.
use gofrog.Prelude.{
  if◌then◌else◌, ℕ, zero, suc, ◌+◌, ◌-◌, ◌≤◌, ◌≡◌, refl, inl, inr, [], ◌∷◌, ◌++◌, Bool, true, false,
  ◌&&◌, ◌||◌, ◌==◌, leb, take, Option, none, some, Bytes, arith, ap, ==_iff, Bool-cases,
}
use gofrog.Strings.{has_byte}
use gofrog.Version.{is_empty}
use gofrog.Files.Names.{
  after_first, last_index, starts_with, last_index_twice, at_least, drop, offset_of, cut_at,
  offset_at, get_file_and_dir_from_path,
}

last_index-none :
    (c : ℕ) (s : Bytes) (k : ℕ) → last_index c s ≡ none → has_byte c (drop k s) ≡ false
unfolding last_index after_first
last_index-none c [] zero h = refl
last_index-none c [] (suc k) h = refl
last_index-none c (x ∷ s) zero h = ground (arith, last_index-none c s 0)
last_index-none c (x ∷ s) (suc k) h = last_index-none c s k (ground arith)

-- From behind the last index on the byte does not occur.
last_index-after :
    (c : ℕ) (s : Bytes) (i k : ℕ)
    → last_index c s ≡ some i
    → i ≤ k
    → has_byte c (drop (suc k) s) ≡ false
unfolding last_index after_first
last_index-after c [] i k h l = ground arith
last_index-after c (x ∷ s) zero zero h l = last_index-none c s 0 (ground arith)
last_index-after c (x ∷ s) (suc i) zero h l = absurd (omega arith)
last_index-after c (x ∷ s) zero (suc k) h l = last_index-none c s (suc k) (ground arith)
last_index-after c (x ∷ s) (suc i) (suc k) h l =
    last_index-after c s i k (ground arith) (omega arith)

last_index-split :
    (c : ℕ) (s : Bytes) (i : ℕ) → last_index c s ≡ some i → take i s ++ c ∷ drop (suc i) s ≡ s
unfolding last_index after_first
last_index-split c [] i h = ground arith
last_index-split c (x ∷ s) zero h = ground arith
last_index-split c (x ∷ s) (suc i) h = ap (◌∷◌ x) (last_index-split c s i (ground arith))

last_index_twice-split :
    (c : ℕ) (s : Bytes) (i : ℕ)
    → last_index_twice c s ≡ some i
    → take i s ++ c ∷ c ∷ drop (suc (suc i)) s ≡ s
unfolding last_index_twice after_first starts_with
last_index_twice-split c [] i h = ground arith
last_index_twice-split c (x ∷ []) i h = ground arith
last_index_twice-split c (x ∷ y ∷ s) zero h = ground arith
last_index_twice-split c (x ∷ y ∷ s) (suc i) h =
    ap (◌∷◌ x) (last_index_twice-split c (y ∷ s) i (ground arith))

-- Nothing before the name, or a directory and one of the three separators that the code knows.
abbrev pub is_separated : Bytes → Bytes → Bool
is_separated dir [] = is_empty dir
is_separated dir (c ∷ []) = c == b'/' || c == b'\\'
is_separated dir (c ∷ d ∷ []) = c == b'\\' && d == b'\\'
is_separated dir _ = false

ends_in : ℕ → Bytes → Bool
ends_in c [] = false
ends_in c (x ∷ s) = let rest = ends_in c s in if is_empty s then x == c else rest

-- A single backslash is no half of a double one.
pub is_half : Bytes → Bytes → Bool
unfolding ends_in
is_half dir (c ∷ []) = c == b'\\' && ends_in b'\\' dir
is_half dir _ = false

last_index_twice-none :
    (c : ℕ) (s : Bytes)
    → last_index c s ≡ none
    → (starts_with c s ≡ false) × (last_index_twice c s ≡ none)
unfolding last_index last_index_twice after_first starts_with
last_index_twice-none c [] h = (refl, refl)
last_index_twice-none c (x ∷ s) h = ground (arith, last_index_twice-none c s)

last_index_twice-ends_in :
    (c : ℕ) (s : Bytes) (j : ℕ)
    → last_index c s ≡ some (suc j)
    → ends_in c (take (suc j) s) ≡ true
    → last_index_twice c s ≡ some j
unfolding last_index last_index_twice after_first starts_with ends_in is_empty
last_index_twice-ends_in c [] j h e = absurd (ground arith)
last_index_twice-ends_in c (x ∷ []) j h e = absurd (ground arith)
last_index_twice-ends_in c (x ∷ y ∷ s) zero h e = ground (arith, last_index_twice-none c s)
last_index_twice-ends_in c (x ∷ y ∷ s) (suc j) h e =
    ground (arith, last_index_twice-ends_in c (y ∷ s) j)

-- Without a double backslash at the end, the directory does not end in one.
single_backslash :
    (s : Bytes) (j : ℕ) (twice : Option ℕ)
    → last_index b'\\' s ≡ some j
    → last_index_twice b'\\' s ≡ twice
    → offset_of j twice ≡ 0
    → ends_in b'\\' (take j s) ≡ false
unfolding offset_of ends_in
single_backslash s zero twice h t o = refl
single_backslash s (suc j) twice h t o = elim (Bool-cases (ends_in b'\\' (take (suc j) s))) [
  | inl ends ↦
      absurd (ground (arith, last_index_twice-ends_in b'\\' s j h ends, ==_iff (suc j) (suc j)))
  | inr other ↦ other
]

pub record IsSplit (path : Bytes) (parts : Bytes × Bytes) : Type 0 where
  pub between : Bytes
  pub separated : is_separated parts.1 between ≡ true
  pub makes_path : parts.1 ++ (between ++ parts.0) ≡ path
  pub not_half : is_half parts.1 between ≡ false
  pub no_slash : has_byte b'/' parts.0 ≡ false
  pub no_backslash : has_byte b'\\' parts.0 ≡ false

cut_at-whole :
    (path : Bytes)
    → last_index b'/' path ≡ none
    → last_index b'\\' path ≡ none
    → IsSplit path (path, [])
unfolding is_empty is_half
cut_at-whole path h k = record {
  between = [];
  not_half = refl;
  separated = refl;
  makes_path = refl;
  no_slash = last_index-none b'/' path 0 h;
  no_backslash = last_index-none b'\\' path 0 k;
}

less_zero : (i : ℕ) → i - 0 ≡ i
less_zero i = omega arith

less_one : (k : ℕ) → suc k - 1 ≡ k
less_one k = omega arith

plus_one : (i : ℕ) → i + 1 ≡ suc i
plus_one i = omega arith

cut_at-one :
    (path : Bytes) (c i : ℕ)
    → last_index c path ≡ some i
    → (c == b'/' || c == b'\\') ≡ true
    → (c == b'\\' && ends_in b'\\' (take i path)) ≡ false
    → has_byte b'/' (drop (suc i) path) ≡ false
    → has_byte b'\\' (drop (suc i) path) ≡ false
    → IsSplit path (cut_at path 0 (some i))
unfolding cut_at is_half ends_in
cut_at-one path c i h s w n m = record {
  not_half = rw (less_zero i) w;
  between = c ∷ [];
  separated = s;
  makes_path = rw (less_zero i, plus_one i) (ground (arith, last_index-split c path i h));
  no_slash = rw (plus_one i) n;
  no_backslash = rw (plus_one i) m;
}

cut_at-two :
    (path : Bytes) (k : ℕ)
    → last_index_twice b'\\' path ≡ some k
    → has_byte b'/' (drop (suc (suc k)) path) ≡ false
    → has_byte b'\\' (drop (suc (suc k)) path) ≡ false
    → IsSplit path (cut_at path 1 (some (suc k)))
unfolding cut_at is_half
cut_at-two path k h n m = record {
  between = b'\\' ∷ b'\\' ∷ [];
  not_half = refl;
  separated = refl;
  makes_path =
      rw (less_one k, plus_one (suc k)) (ground (arith, last_index_twice-split b'\\' path k h));
  no_slash = rw (plus_one (suc k)) n;
  no_backslash = rw (plus_one (suc k)) m;
}

-- The last separator is a backslash, behind every slash.
cut_at-backslash :
    (path : Bytes) (j : ℕ) (twice : Option ℕ)
    → last_index b'\\' path ≡ some j
    → has_byte b'/' (drop (suc j) path) ≡ false
    → last_index_twice b'\\' path ≡ twice
    → IsSplit path (cut_at path (offset_of j twice) (some j))
unfolding offset_of
cut_at-backslash path j none h n t =
    cut_at-one path b'\\' j h refl (single_backslash path j none h t refl) n
      (last_index-after b'\\' path j j h (omega arith))
cut_at-backslash path j (some k) h n t = elim (Bool-cases (j == suc k)) [
  | inl same ↦
      let here : j ≡ suc k = (==_iff j (suc k)).0 same in
      rw (same) (
        rw (here) (
          cut_at-two path k t (rw (here) at n)
            (last_index-after b'\\' path j (suc k) h (omega (arith, here)))))
  | inr other ↦ rw (other) (
      cut_at-one path b'\\' j h refl
        (single_backslash path j (some k) h t (rw (other, offset_of) refl)) n
        (last_index-after b'\\' path j j h (omega arith)))
]

split_lem :
    (path : Bytes) (index1 index2 : Option ℕ)
    → last_index b'/' path ≡ index1
    → last_index b'\\' path ≡ index2
    → IsSplit path (get_file_and_dir_from_path path)
unfolding get_file_and_dir_from_path at_least offset_at
split_lem path none none h k = rw (h, k) (cut_at-whole path h k)
split_lem path (some i) none h k =
    rw (h, k)
      (cut_at-one path b'/' i h refl refl (last_index-after b'/' path i i h (omega arith))
        (last_index-none b'\\' path (suc i) k))
split_lem path none (some j) h k =
    rw (h, k)
      (cut_at-backslash path j (last_index_twice b'\\' path) k (last_index-none b'/' path (suc j) h)
        refl)
split_lem path (some i) (some j) h k = elim (Bool-cases (leb j i)) [
  | inl later ↦
      rw (h, k, later)
        (cut_at-one path b'/' i h refl refl (last_index-after b'/' path i i h (omega arith))
          (last_index-after b'\\' path j i k (ground arith)))
  | inr earlier ↦
      rw (h, k, earlier)
        (cut_at-backslash path j (last_index_twice b'\\' path) k
          (last_index-after b'/' path i j h (ground arith)) refl)
]

-- Every path is the directory, a separator (none, one slash, one backslash or two) and the name,
-- neither separator occurs in the name, and a backslash in front of a last one belongs to the separator:
-- behind a single backslash as the separator the directory does not end in a backslash.
pub get_file_and_dir_from_path-IsSplit :
    (path : Bytes) → IsSplit path (get_file_and_dir_from_path path)
get_file_and_dir_from_path-IsSplit path =
    split_lem path (last_index b'/' path) (last_index b'\\' path) refl refl
