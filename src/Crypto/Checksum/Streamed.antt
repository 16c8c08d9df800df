-- ===== src/Crypto/Checksum/Streamed.antt =====
-- crypto/checksum.go: the sums do not depend on the pieces in which the stream is read, nor on the order
-- in which the hashes end their part of a write.
use gofrog.Prelude.{
  ℕ, ◌<◌, ◌≡◌, ◌≢◌, List, [], ◌∷◌, true, if◌then◌else◌, Option, none, some, ℤ, pos, Bytes,
  Completion, inl, inr, arith,
}
use gofrog.Streams.{Stream, content, copy, copy_pieces, after_piece}
use gofrog.MultiWriter.{WriteError, async_multi_writer}
use gofrog.MultiWriter.Written.{write-all_take}
use gofrog.Crypto.Hex as Hex
use gofrog.Crypto.Checksum.{
  Algorithm, Hashing, lookup, sum_results, hash_writer, write_hashes, copied, calc_hashes, summed,
  calc_checksums,
}
use gofrog.Crypto.Checksum.Sums.{
  all_known, is_wanted, IsHash, absorb_each, get_checksum_by_algorithm_lem, lookup-absorb_each,
  lookup-sum_results, write_all-hashes, all_take-hashes, absorb_each-twice, absorb_each-nothing,
}

module _ {H X : Type 0} (hashing : Hashing H) where
  write_hashes_lem :
      (order : Completion (Option (WriteError X))) (hs : List (Algorithm × H)) (limit : ℤ)
      (p : Bytes)
      → limit ≢ pos 0
      → write_hashes hashing order (record { writers = hs; limit = limit }) p
        ≡ some (record { writers = absorb_each hashing p hs; limit = limit }, none)
  unfolding write_hashes
  write_hashes_lem order hs limit p h = ground (
    arith,
    write-all_take (hash_writer hashing) order hs limit p h,
    all_take-hashes hashing X p hs,
    write_all-hashes hashing X p hs,
  )

  copy-hashes :
      (order : Completion (Option (WriteError X))) (pieces : List Bytes)
      (end : Option (WriteError X)) (hs : List (Algorithm × H)) (limit : ℤ)
      → limit ≢ pos 0
      → IsHash hashing
      → copy_pieces (write_hashes hashing order) end pieces (record { writers = hs; limit = limit })
        ≡ some (record { writers = absorb_each hashing (content pieces) hs; limit = limit }, end)
  unfolding copy_pieces after_piece
  copy-hashes order [] end hs limit h law = ground (arith, absorb_each-nothing hashing hs law)
  copy-hashes order (p ∷ pieces) end hs limit h law = ground (
    arith,
    write_hashes_lem order hs limit p h,
    copy-hashes order pieces end (absorb_each hashing p hs) limit h law,
    absorb_each-twice hashing p (content pieces) hs law,
  )

  copied_hashes :
      (order : Completion (Option (WriteError X))) (page_size : ℕ) (stream : Stream (WriteError X))
      (hs : List (Algorithm × H))
      → 0 < page_size
      → IsHash hashing
      → copied hashing
          (copy (write_hashes hashing order) stream (async_multi_writer (pos page_size) hs))
        ≡ some (elim stream.read_error [
          | none ↦ inr (absorb_each hashing (content stream.pieces) hs)
          | some e ↦ inl e
        ])
  unfolding copied copy async_multi_writer
  copied_hashes order page_size stream hs h law = ground (
    arith,
    copy-hashes order stream.pieces stream.read_error hs (pos page_size) (ground arith) law,
  )

  -- With known algorithms and a page size above zero, whatever the pieces of the stream and the order in
  -- which the writers end: when the stream ends without an error, `CalcChecksums` returns for each
  -- algorithm that is asked for, all three when none is named, the sum of the whole content in
  -- hexadecimal, and nothing for the others; when it ends with an error, that error.
  pub calc_checksums-content :
      (order : Completion (Option (WriteError X))) (page_size : ℕ) (stream : Stream (WriteError X))
      (types : List Algorithm)
      → 0 < page_size
      → IsHash hashing
      → all_known types ≡ true
      → (r : List (Algorithm × Bytes)) × (calc_checksums hashing order page_size stream types
          ≡ some (elim stream.read_error [ none ↦ inr r | some e ↦ inl e ]))
        × ((a : Algorithm)
            → lookup a r ≡ (
                if is_wanted a types
                then some (
                    Hex.encode
                      (hashing.sum (hashing.absorb (hashing.new a) (content stream.pieces))))
                else none))
  unfolding calc_checksums calc_hashes summed
  calc_checksums-content order page_size stream types h law known =
      let (hs, made, found) = get_checksum_by_algorithm_lem hashing types known in
      let absorbed = absorb_each hashing (content stream.pieces) hs in
      (
        sum_results hashing absorbed,
        ground (arith, made, copied_hashes order page_size stream hs h law),
        λ a. ground (
          arith,
          found a,
          lookup-absorb_each hashing a (content stream.pieces) hs,
          lookup-sum_results hashing a absorbed,
        ),
      )
