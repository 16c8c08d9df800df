-- ===== src/Crypto/Checksum.antt =====
-- crypto/checksum.go: checksums of a stream or a file under several algorithms at once. The hashes of
-- Go's library are a parameter, with H for the state of one; so are regular expressions and files. X
-- is the type of the errors of reading; a joined error is the list of its parts.
pub mod Sums
pub mod Streamed
mod Tests
use gofrog.Prelude.{
  ℕ, ◌≡◌, List, [], ◌∷◌, ◌++◌, Bool, true, false, ◌&&◌, not, ◌==◌, if◌then◌else◌, length, Option,
  none, some, ℤ, pos, Bytes, Completion, map, inl, inr, ◌⊎◌,
}
use gofrog.Version.{is_empty}
use gofrog.Streams.{Stream, join, copy}
use gofrog.MultiWriter.{WriteError, of_writer, Writer, AsyncMultiWriter, async_multi_writer, write}
use gofrog.Crypto.Hex as Hex

-- MD5, SHA1 and SHA256 are 0, 1 and 2; a number of the type that is none of them has no hash.
pub data Algorithm : Type 0 where
  md5 sha1 sha256 : Algorithm
  other : ℤ → Algorithm

pub record Checksum : Type 0 where
  pub sha1_sum : Bytes
  pub md5_sum : Bytes
  pub sha256_sum : Bytes

unfoldable pub is_empty_checksum : Checksum → Bool
unfolding is_empty
is_empty_checksum c = is_empty c.md5_sum && is_empty c.sha1_sum && is_empty c.sha256_sum

-- `match` is regexp.MatchString, none its error; the result is the Boolean, and whether there was an error.
unfoldable pub is_equal : (Bytes → Bytes → Option Bool) → Checksum → Checksum → Bool × Bool
is_equal match c expected = elim (match expected.md5_sum c.md5_sum) [
  | none ↦ (false, true)
  | some false ↦ (false, false)
  | some true ↦ elim (match expected.sha1_sum c.sha1_sum) [
    | none ↦ (false, true)
    | some false ↦ (false, false)
    | some true ↦ elim (match expected.sha256_sum c.sha256_sum) [
      | none ↦ (false, true)
      | some false ↦ (false, false)
      | some true ↦ (true, false)
    ]
  ]
]

-- The hashes: a new one, what a write makes of it, which never fails, and its sum.
pub record Hashing (H : Type 0) : Type 0 where
  pub new : Algorithm → H
  pub absorb : H → Bytes → H
  pub sum : H → Bytes

unfoldable pub same_algorithm : Algorithm → Algorithm → Bool
same_algorithm md5 md5 = true
same_algorithm sha1 sha1 = true
same_algorithm sha256 sha256 = true
same_algorithm _ _ = false

-- Maps from algorithms, without other.
unfoldable pub lookup : {A : Type 0} → Algorithm → List (Algorithm × A) → Option A
unfolding same_algorithm
lookup a [] = none
lookup a ((b, v) ∷ m) = if same_algorithm b a then some v else lookup a m

unfoldable pub insert : {A : Type 0} → Algorithm → A → List (Algorithm × A) → List (Algorithm × A)
unfolding same_algorithm
insert a v [] = (a, v) ∷ []
insert a v ((b, w) ∷ m) = if same_algorithm b a then (a, v) ∷ m else (b, w) ∷ insert a v m

module _ {H : Type 0} (hashing : Hashing H) where
  -- `algorithmFunc[v]()`: none is the panic of a call of nil.
  unfoldable pub algorithm_func : Algorithm → Option H
  algorithm_func (other _) = none
  algorithm_func a = some (hashing.new a)

  insert_new : Algorithm → Option H → Option (List (Algorithm × H)) → Option (List (Algorithm × H))
  insert_new a (some h) (some m) = some (insert a h m)
  insert_new a _ _ = none

  -- The loop over the algorithms that the caller names; `hashes` is the map so far.
  unfoldable pub add_hashes :
      List Algorithm → Option (List (Algorithm × H)) → Option (List (Algorithm × H))
  unfolding algorithm_func insert_new
  add_hashes [] hashes = hashes
  add_hashes (a ∷ types) hashes = add_hashes types (insert_new a (algorithm_func a) hashes)

  unfoldable pub get_checksum_by_algorithm : List Algorithm → Option (List (Algorithm × H))
  unfolding add_hashes
  get_checksum_by_algorithm [] = add_hashes (md5 ∷ sha1 ∷ sha256 ∷ []) (some [])
  get_checksum_by_algorithm (a ∷ types) = add_hashes (a ∷ types) (some [])

  unfoldable pub sum_results_bytes : List (Algorithm × H) → List (Algorithm × Bytes)
  sum_results_bytes [] = []
  sum_results_bytes ((a, h) ∷ hashes) = (a, hashing.sum h) ∷ sum_results_bytes hashes

  -- The sums in hexadecimal.
  unfoldable pub sum_results : List (Algorithm × H) → List (Algorithm × Bytes)
  sum_results [] = []
  sum_results ((a, h) ∷ hashes) = (a, Hex.encode (hashing.sum h)) ∷ sum_results hashes

module _ {H X : Type 0} (hashing : Hashing H) where
  -- A hash takes all it is given.
  abbrev pub hash_writer : Writer (Algorithm × H) X
  hash_writer = record { write_piece = λ h p. ((h.0, hashing.absorb h.1 p), length p, none) }

  -- What io.Copy sees of the multi writer; it returns the length of the piece, so the copy goes on.
  unfoldable pub write_hashes :
      Completion (Option (WriteError X))
      → AsyncMultiWriter (Algorithm × H)
      → Bytes
      → Option (AsyncMultiWriter (Algorithm × H) × Option (WriteError X))
  unfolding write
  write_hashes order amw p = elim (write hash_writer order amw p) [
    | none ↦ none
    | some (amw', n, e) ↦ some (amw', e)
  ]

  copied :
      Option (AsyncMultiWriter (Algorithm × H) × Option (WriteError X))
      → Option (WriteError X ⊎ List (Algorithm × H))
  copied none = none
  copied (some (amw, some e)) = some (inl e)
  copied (some (amw, none)) = some (inr amw.writers)

  -- none is a call that panics or never returns. The page size is the limit of the multi writer, and
  -- the pieces are what the sized reader yields.
  unfoldable pub calc_hashes :
      Completion (Option (WriteError X))
      → ℕ
      → Stream (WriteError X)
      → List Algorithm
      → Option (WriteError X ⊎ List (Algorithm × H))
  unfolding get_checksum_by_algorithm write_hashes copied
  calc_hashes order page_size stream types = elim (get_checksum_by_algorithm hashing types) [
    | none ↦ none
    | some hashes ↦
        copied (copy (write_hashes order) stream (async_multi_writer (pos page_size) hashes))
  ]

  summed :
      (List (Algorithm × H) → List (Algorithm × Bytes))
      → WriteError X ⊎ List (Algorithm × H)
      → WriteError X ⊎ List (Algorithm × Bytes)
  summed sum (inl e) = inl e
  summed sum (inr hashes) = inr (sum hashes)

  unfoldable pub calc_checksums :
      Completion (Option (WriteError X))
      → ℕ
      → Stream (WriteError X)
      → List Algorithm
      → Option (WriteError X ⊎ List (Algorithm × Bytes))
  unfolding calc_hashes sum_results summed
  calc_checksums order page_size stream types = elim (calc_hashes order page_size stream types) [
    | none ↦ none
    | some r ↦ some (summed (sum_results hashing) r)
  ]

  unfoldable pub calc_checksums_bytes :
      Completion (Option (WriteError X))
      → ℕ
      → Stream (WriteError X)
      → List Algorithm
      → Option (WriteError X ⊎ List (Algorithm × Bytes))
  unfolding calc_hashes sum_results_bytes summed
  calc_checksums_bytes order page_size stream types =
      elim (calc_hashes order page_size stream types) [
        | none ↦ none
        | some r ↦ some (summed (sum_results_bytes hashing) r)
      ]
