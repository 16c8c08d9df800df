-- ===== src/Crypto/FileDetails/Details.antt =====
-- crypto/checksum.go: when the details of a file are returned without an error, and what they are.
use gofrog.Prelude.{
  ℕ, ℤ, pos, ◌<◌, ◌≡◌, refl, [], ◌∷◌, true, Option, none, some, Bytes, Completion, inr, arith,
}
use gofrog.Streams.{content}
use gofrog.MultiWriter.{WriteError}
use gofrog.Crypto.Hex as Hex
use gofrog.Crypto.Checksum.{md5, sha1, sha256, Checksum, Hashing}
use gofrog.Crypto.Checksum.Sums.{IsHash}
use gofrog.Crypto.Checksum.Streamed.{calc_checksums-content}
use gofrog.Crypto.FileDetails.{
  FileError, OpenFile, Files, sum_of, close_into, closed_details, calc_checksum_details, add_size,
  get_file_details,
}

module _ {H X : Type 0} (hashing : Hashing H) (order : Completion (Option (WriteError X)))
    (page_size : ℕ) (files : Files X) where
  -- The three sums of a content.
  abbrev pub checksum_of : Bytes → Checksum
  checksum_of s = record {
    md5_sum = Hex.encode (hashing.sum (hashing.absorb (hashing.new md5) s));
    sha1_sum = Hex.encode (hashing.sum (hashing.absorb (hashing.new sha1) s));
    sha256_sum = Hex.encode (hashing.sum (hashing.absorb (hashing.new sha256) s));
  }

  calc_checksum_details_read :
      (path : Bytes) (file : OpenFile X)
      → 0 < page_size
      → IsHash hashing
      → files.open_file path ≡ inr file
      → file.stream.read_error ≡ none
      → calc_checksum_details hashing order page_size files path
        ≡ some (
          checksum_of (content file.stream.pieces),
          close_into hashing order page_size files file [],
        )
  unfolding calc_checksum_details closed_details sum_of
  calc_checksum_details_read path file h law o e =
      let (r, made, found) =
        calc_checksums-content hashing order page_size file.stream [] h law refl in
      ground (arith, made, found md5, found sha1, found sha256)

  -- When the file opens, is read to its end, is closed and has a size, then its details are the three sums
  -- of its content and its size, without an error; a failure to close it alone is reported
  -- together with the sums, and no size.
  pub get_file_details-checksum_of :
      (path : Bytes) (file : OpenFile X) (n : ℤ)
      → 0 < page_size
      → IsHash hashing
      → files.open_file path ≡ inr file
      → file.stream.read_error ≡ none
      → files.stat_size path ≡ inr n
      → get_file_details hashing order page_size files path true
        ≡ some (elim file.close_error [
          | none ↦ (record { checksum = checksum_of (content file.stream.pieces); size = n }, [])
          | some e ↦ (
            record { checksum = checksum_of (content file.stream.pieces); size = pos 0 },
            FileError.failed_to_close e ∷ [],
          )
        ])
  unfolding get_file_details add_size close_into
  get_file_details-checksum_of path file n h law o e s =
      ground (arith, calc_checksum_details_read path file h law o e)
