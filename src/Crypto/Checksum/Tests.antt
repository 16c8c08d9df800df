-- ===== src/Crypto/Checksum/Tests.antt =====
-- Runs of crypto/checksum.go, and its theorem on streams at a concrete input.
use mathlib.Core.List.Permᴰ
use mathlib.Core.List.{append_assoc, append-nil}
use gofrog.Prelude.{
  pos, ℕ, ◌≡◌, refl, List, [], ◌∷◌, ◌++◌, Option, none, some, Bytes, Completion, codes,
  if◌then◌else◌, inr, arith,
}
use gofrog.Streams.{Stream, content, copy, copy_pieces, after_piece}
use gofrog.MultiWriter.{
  WriteError, outcome, write_all, outcomes, first_error, write, async_multi_writer,
}
use gofrog.Crypto.Hex as Hex
use gofrog.Crypto.Checksum.{
  Algorithm, md5, sha1, sha256, other, is_equal, Hashing, same_algorithm, lookup, insert,
  algorithm_func, add_hashes, get_checksum_by_algorithm, write_hashes, calc_hashes, sum_results,
  calc_checksums,
}
use gofrog.Crypto.Checksum.Sums.{is_wanted, IsHash}
use gofrog.Crypto.Checksum.Streamed.{calc_checksums-content}

-- A stand-in for the hashes: its sum is all it has taken, behind a byte for the algorithm.
abbrev first_byte : Algorithm → Bytes
first_byte md5 = 5 ∷ []
first_byte sha1 = 1 ∷ []
first_byte sha256 = 2 ∷ []
first_byte (other _) = []

abbrev keeping : Hashing Bytes
keeping = record { new = first_byte; absorb = ◌++◌; sum = λ h. h }

keeping-IsHash : IsHash keeping
keeping-IsHash = record { absorb_nothing = append-nil; absorb_twice = append_assoc }

abbrev in_order : Completion (Option (WriteError ℕ))
in_order = record { visit = λ os. os; visits_all = Permᴰ.refl }

abbrev stream : Stream (WriteError ℕ)
stream = record { pieces = (10 ∷ []) ∷ (11 ∷ 12 ∷ []) ∷ []; read_error = none }

abbrev program : Unit {0}
unfolding copy copy_pieces after_piece outcome write_all outcomes first_error write
    async_multi_writer Hex.encode is_equal same_algorithm lookup insert algorithm_func add_hashes
    get_checksum_by_algorithm write_hashes calc_hashes sum_results calc_checksums
program = tt

one_sum :
    calc_checksums keeping in_order 4096 stream (sha1 ∷ [])
    ≡ some (inr ((sha1, codes "010a0b0c") ∷ []))
unfolding program
one_sum = refl

unknown : calc_checksums keeping in_order 4096 stream (sha1 ∷ other (pos 7) ∷ []) ≡ none
unfolding program
unknown = refl

calc_checksums-content_example :
    (r : List (Algorithm × Bytes)) × (calc_checksums keeping in_order 4096 stream [] ≡ some (inr r))
    × ((a : Algorithm)
        → lookup a r ≡ (
            if is_wanted a []
            then some
                (Hex.encode (keeping.sum (keeping.absorb (keeping.new a) (content stream.pieces))))
            else none))
calc_checksums-content_example =
    calc_checksums-content keeping in_order 4096 stream [] (omega arith) keeping-IsHash refl
