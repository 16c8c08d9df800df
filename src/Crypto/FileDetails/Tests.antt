-- ===== src/Crypto/FileDetails/Tests.antt =====
-- The theorem on the details of a file, at a concrete input.
use mathlib.Core.List.Permᴰ
use mathlib.Core.List.{append_assoc, append-nil}
use gofrog.Prelude.{
  ℕ, pos, ◌≡◌, refl, [], ◌∷◌, ◌++◌, true, Option, none, some, Bytes, Completion, codes, inr, arith,
}
use gofrog.MultiWriter.{WriteError}
use gofrog.Crypto.Checksum.{Hashing}
use gofrog.Crypto.Checksum.Sums.{IsHash}
use gofrog.Crypto.FileDetails.{FileError, OpenFile, Files, get_file_details}
use gofrog.Crypto.FileDetails.Details.{checksum_of, get_file_details-checksum_of}

abbrev keeping : Hashing Bytes
keeping = record { new = λ a. []; absorb = ◌++◌; sum = λ h. h }

keeping-IsHash : IsHash keeping
keeping-IsHash = record { absorb_nothing = append-nil; absorb_twice = append_assoc }

abbrev in_order : Completion (Option (WriteError ℕ))
in_order = record { visit = λ os. os; visits_all = Permᴰ.refl }

abbrev stubborn : OpenFile ℕ
stubborn = record {
  stream = record { pieces = codes "ab" ∷ codes "c" ∷ []; read_error = none };
  close_error = some 5;
}

abbrev files : Files ℕ
files = record { open_file = λ path. inr stubborn; stat_size = λ path. inr (pos 3) }

-- A file that cannot be closed: the details are kept beside the error.
details_of_stubborn :
    get_file_details keeping in_order 4096 files (codes "f") true
    ≡ some (
      record { checksum = checksum_of keeping in_order 4096 files (codes "abc"); size = pos 0 },
      FileError.failed_to_close 5 ∷ [],
    )
details_of_stubborn =
    get_file_details-checksum_of keeping in_order 4096 files (codes "f") stubborn (pos 3)
      (omega arith) keeping-IsHash refl refl refl
