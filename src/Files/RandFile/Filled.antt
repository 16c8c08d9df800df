-- ===== src/Files/RandFile/Filled.antt =====
-- io/fileutils.go: CreateRandFile writes exactly as many bytes as it is asked for.
use gofrog.Prelude.{
  ℕ, zero, suc, ◌+◌, ◌-◌, ◌*◌, ◌≤◌, ◌<◌, ◌≡◌, refl, pos, true, false, Bool-cases, leb, length, take,
  ℤ, [], ◌∷◌, none, some, Bytes, inl, inr, arith,
}
use gofrog.Safeconvert.{max_int}
use gofrog.Files.RandFile.{
  buflen, RandDevice, wbuflen, after_write, fill, fill_ℤ, flushed, filled, create_rand_file,
  RandSource, checked, checked_fuel, with_number, create_random_len_file,
}

-- A device that does what it is asked for: whole blocks are read, and the writer takes every piece.
pub record IsSound {W X : Type 0} (device : RandDevice W X) (size : W → ℕ) : Type 0 where
  pub block : ℕ → Bytes
  pub put : W → Bytes → W
  pub reads : (i : ℕ) → device.read i ≡ inr (block i)
  pub whole : (i : ℕ) → length (block i) ≡ buflen
  pub writes : (w : W) (p : Bytes) → device.write w p ≡ (put w p, none)
  pub grows : (w : W) (p : Bytes) → size (put w p) ≡ size w + length p

length-take : (n : ℕ) (l : Bytes) → n ≤ length l → length (take n l) ≡ n
length-take zero l h = refl
length-take (suc n) [] h = absurd (omega arith)
length-take (suc n) (c ∷ l) h = omega (arith, length-take n l (omega arith))

module _ {W X : Type 0} (device : RandDevice W X) (size : W → ℕ) (sound : IsSound device size) where
  wbuflen-le : (len i : ℕ) → i ≤ len → wbuflen device len i ≤ buflen
  unfolding wbuflen
  wbuflen-le len i h = ground arith

  fill-done :
      (fuel len i : ℕ) (w : W) → leb i len ≡ false → fill device (suc fuel) len i w ≡ some (w, none)
  unfolding fill
  fill-done fuel len i w h = ground arith

  fill-round :
      (fuel len i : ℕ) (w : W)
      → leb i len ≡ true
      → len + buflen ≤ max_int
      → fill device (suc fuel) len i w
        ≡ fill device fuel len
            (i + buflen)
            (sound.put w (take (wbuflen device len i) (sound.block i)))
  unfolding fill after_write
  fill-round fuel len i w h l =
      ground (arith, sound.reads i, sound.writes w (take (wbuflen device len i) (sound.block i)))

  put-size :
      (len i : ℕ) (w : W)
      → i ≤ len
      → size (sound.put w (take (wbuflen device len i) (sound.block i)))
        ≡ size w + wbuflen device len i
  put-size len i w h = omega (
    arith,
    sound.grows w (take (wbuflen device len i) (sound.block i)),
    length-take (wbuflen device len i) (sound.block i)
        (omega (arith, wbuflen-le len i h, sound.whole i)),
  )

  wbuflen-rest : (len i : ℕ) → i ≤ len → wbuflen device len i + (len - (i + buflen)) ≡ len - i
  unfolding wbuflen
  wbuflen-rest len i h = ground arith

  -- The loop ends, and writes what is left of the length.
  fill-size :
      (fuel len i : ℕ) (w : W)
      → len < i + fuel * buflen
      → len + buflen ≤ max_int
      → (w' : W) × (fill device (suc fuel) len i w ≡ some (w', none))
        × (size w' ≡ size w + (len - i))
  fill-size zero len i w enough l = (w, fill-done 0 len i w (ground arith), omega arith)
  fill-size (suc fuel) len i w enough l = elim (Bool-cases (leb i len)) [
    | inl more ↦
        let below : i ≤ len = ground arith in
        let next = sound.put w (take (wbuflen device len i) (sound.block i)) in
        let (w', same, grown) = fill-size fuel len (i + buflen) next (omega arith) l in
        (
          w',
          rw (fill-round (suc fuel) len i w more l) same,
          omega (arith, grown, put-size len i w below, wbuflen-rest len i below),
        )
    | inr done ↦
        let above : len < i = ground arith in (w, fill-done (suc fuel) len i w done, omega arith)
  ]

  -- For a length of a file that int can count past, when the file can be created, the random
  -- source gives whole blocks, the writer takes every piece, and Flush and Stat succeed: with fuel for
  -- one round more than there are whole blocks, and one more, CreateRandFile returns a file; what
  -- is flushed has as many bytes more than the new file as the length says; and the only error is
  -- that of Close.
  pub create_rand_file-size :
      (fuel len : ℕ) (path : Bytes) (w : W)
      → len < fuel * buflen
      → len + buflen ≤ max_int
      → device.create path ≡ inr w
      → ((v : W) → (device.flush v ≡ (v, none)) × (device.stat_size v ≡ inr (size v)))
      → (w' : W) × (create_rand_file device (suc fuel) path (pos len)
          ≡ some (some (record { content = w'; size = size w' }), device.close_error w'))
        × (size w' ≡ size w + len)
  unfolding create_rand_file fill_ℤ filled flushed
  create_rand_file-size fuel len path w enough l created ends =
      let (w', same, grown) = fill-size fuel len 0 w (omega arith) l in
      (w', ground (arith, same, created, ends w'), omega arith)

  module _ (source : RandSource X) where
    checked_fuel-created :
        (len : ℕ) (fname : Bytes) (w : W)
        → size w ≡ len
        → device.close_error w ≡ none
        → checked_fuel device source len fname
            (some (some (record { content = w; size = size w }), device.close_error w))
          ≡ some (inr fname)
    unfolding checked_fuel checked
    checked_fuel-created len fname w same closes = ground (arith, same, closes)

    -- With such a device, an empty new file, no error of Close, and a length that rand.Int gives:
    -- CreateRandomLenFile returns the name of the temporary file, and so does not panic.
    create_random_len_file-created :
        (fuel len : ℕ) (max_len : ℤ) (files_dir prefix fname : Bytes) (w : W)
        → len < fuel * buflen
        → len + buflen ≤ max_int
        → source.create_temp files_dir prefix ≡ inr fname
        → source.rand_int max_len ≡ some (inr len)
        → device.create fname ≡ inr w
        → size w ≡ 0
        → ((v : W) → (device.flush v ≡ (v, none)) × (device.stat_size v ≡ inr (size v)))
        → ((v : W) → device.close_error v ≡ none)
        → create_random_len_file device source (suc fuel) max_len files_dir prefix
          ≡ some (inr fname)
    unfolding create_random_len_file with_number
    create_random_len_file-created fuel len max_len files_dir prefix fname w enough l temp drawn
          created empty ends closes =
        let (w', same, grown) = create_rand_file-size fuel len fname w enough l created ends in
        ground (
          arith,
          temp,
          drawn,
          same,
          checked_fuel-created len fname w' (omega (arith, grown, empty)) (closes w'),
        )
