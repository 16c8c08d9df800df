-- ===== src/Crypto/FileDetails.antt =====
-- crypto/checksum.go: the checksums and the size of a file. The files are a parameter; a joined error is
-- the list of its parts, empty for nil. none is a call that panics or never returns.
mod Details
mod Tests
use gofrog.Prelude.{
  ℕ, ℤ, pos, List, [], ◌∷◌, Bool, true, false, if◌then◌else◌, Option, none, some, Bytes, Completion,
  inl, inr, ◌⊎◌,
}
use gofrog.Streams.{Stream, join}
use gofrog.MultiWriter.{WriteError}
use gofrog.Crypto.Checksum.{Algorithm, md5, sha1, sha256, Checksum, Hashing, lookup, calc_checksums}

pub data FileError (X : Type 0) : Type 0 where
  of_os failed_to_close : X → FileError X
  of_copy : WriteError X → FileError X

-- What is read from an open file, and the error of closing it.
pub record OpenFile (X : Type 0) : Type 0 where
  pub stream : Stream (WriteError X)
  pub close_error : Option X

pub record Files (X : Type 0) : Type 0 where
  pub open_file : Bytes → X ⊎ OpenFile X
  pub stat_size : Bytes → X ⊎ ℤ

pub record FileDetails : Type 0 where
  pub checksum : Checksum
  pub size : ℤ

abbrev pub no_checksum : Checksum
no_checksum = record { sha1_sum = []; md5_sum = []; sha256_sum = [] }

-- The value of a missing key is the empty text.
unfoldable pub sum_of : Algorithm → List (Algorithm × Bytes) → Bytes
sum_of a m = elim (lookup a m) [ none ↦ [] | some s ↦ s ]

module _ {H X : Type 0} (hashing : Hashing H) (order : Completion (Option (WriteError X)))
    (page_size : ℕ) (files : Files X) where
  -- `defer ioutils.Close(file, &err)`.
  unfoldable pub close_into : OpenFile X → List (FileError X) → List (FileError X)
  close_into file errors = elim file.close_error [
    | none ↦ errors
    | some e ↦ join errors (some (failed_to_close e))
  ]

  closed :
      OpenFile X
      → Option (WriteError X ⊎ List (Algorithm × Bytes))
      → Option (List (Algorithm × Bytes) × List (FileError X))
  unfolding close_into
  closed file none = none
  closed file (some (inl e)) = some ([], close_into file (of_copy e ∷ []))
  closed file (some (inr m)) = some (m, close_into file [])

  unfoldable pub get_file_checksums :
      Bytes → List Algorithm → Option (List (Algorithm × Bytes) × List (FileError X))
  unfolding closed
  get_file_checksums path types = elim (files.open_file path) [
    | inl e ↦ some ([], of_os e ∷ [])
    | inr file ↦ closed file (calc_checksums hashing order page_size file.stream types)
  ]

  closed_details :
      OpenFile X
      → Option (WriteError X ⊎ List (Algorithm × Bytes))
      → Option (Checksum × List (FileError X))
  unfolding close_into sum_of
  closed_details file none = none
  closed_details file (some (inl e)) = some (no_checksum, close_into file (of_copy e ∷ []))
  closed_details file (some (inr m)) = some (
    record { md5_sum = sum_of md5 m; sha1_sum = sum_of sha1 m; sha256_sum = sum_of sha256 m },
    close_into file [],
  )

  unfoldable pub calc_checksum_details : Bytes → Option (Checksum × List (FileError X))
  unfolding closed_details
  calc_checksum_details path = elim (files.open_file path) [
    | inl e ↦ some (no_checksum, of_os e ∷ [])
    | inr file ↦ closed_details file (calc_checksums hashing order page_size file.stream [])
  ]

  -- The size, unless there is an error already.
  unfoldable pub add_size : Bytes → Checksum × List (FileError X) → FileDetails × List (FileError X)
  add_size path (c, e ∷ errors) = (record { checksum = c; size = pos 0 }, e ∷ errors)
  add_size path (c, []) = elim (files.stat_size path) [
    | inl e ↦ (record { checksum = c; size = pos 0 }, of_os e ∷ [])
    | inr n ↦ (record { checksum = c; size = n }, [])
  ]

  unfoldable pub get_file_details : Bytes → Bool → Option (FileDetails × List (FileError X))
  unfolding calc_checksum_details add_size
  get_file_details path include_checksums =
      elim (if include_checksums then calc_checksum_details path else some (no_checksum, [])) [
        | none ↦ none
        | some r ↦ some (add_size path r)
      ]
