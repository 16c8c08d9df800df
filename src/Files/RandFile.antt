-- ===== src/Files/RandFile.antt =====
-- io/fileutils.go: CreateRandFile and CreateRandomLenFile. The random source, the buffered writer and the file are parameters: W is
-- what has been written, X the type of the errors. The loop takes one unit of fuel for each round; none is no
-- answer: the fuel is used up, or a sum leaves the range of int.
pub mod Filled
mod Tests
use gofrog.Prelude.{
  ℕ, zero, suc, ◌+◌, ◌-◌, ℤ, pos, negsuc, Bool, true, false, if◌then◌else◌, ◌==◌, ltb, leb, leb_ℤ,
  take, Option, none, some, Bytes, inl, inr, ◌⊎◌,
}
use gofrog.Safeconvert.{max_int}

abbrev pub buflen : ℕ
buflen = 4096

pub record RandDevice (W X : Type 0) : Type 0 where
  -- os.Create, what it has to hold, and cr.Read by the index of the round.
  pub create : Bytes → X ⊎ W
  pub read : ℕ → X ⊎ Bytes
  pub write : W → Bytes → W × Option X
  pub flush : W → W × Option X
  pub stat_size : W → X ⊎ ℕ
  pub close_error : W → Option X

-- The file when CreateRandFile returns, and the size of its info.
pub record RandFile (W : Type 0) : Type 0 where
  pub content : W
  pub size : ℕ

module _ {W X : Type 0} (device : RandDevice W X) where
  wbuflen : ℕ → ℕ → ℕ
  wbuflen len i = if leb len (i + buflen) then len - i else buflen

  after_write : (W → Option (W × Option X)) → W × Option X → Option (W × Option X)
  after_write next (w, some e) = some (w, some e)
  after_write next (w, none) = next w

  -- The rounds from the index on, for a length that is not negative.
  unfoldable pub fill : ℕ → ℕ → ℕ → W → Option (W × Option X)
  unfolding wbuflen after_write
  fill zero len i w = none
  fill (suc fuel) len i w =
      let rest = fill fuel len (i + buflen) in
      if leb i len
      then if ltb max_int (i + buflen) then none else elim (device.read i) [
        | inl e ↦ some (w, some e)
        | inr buf ↦ after_write rest (device.write w (take (wbuflen len i) buf))
      ]
      else some (w, none)

  fill_ℤ : ℕ → ℤ → W → Option (W × Option X)
  unfolding fill
  fill_ℤ fuel (pos len) w = fill fuel len 0 w
  fill_ℤ fuel (negsuc n) w = some (w, none)

  -- The deferred Close gives its error only when there is none.
  flushed : W × Option X → Option (RandFile W) × Option X
  flushed (w, some e) = (none, some e)
  flushed (w, none) = elim (device.stat_size w) [
    | inl e ↦ (none, some e)
    | inr size ↦ (some (record { content = w; size = size }), device.close_error w)
  ]

  filled : Option (W × Option X) → Option (Option (RandFile W) × Option X)
  unfolding flushed
  filled none = none
  filled (some (w, some e)) = some (none, some e)
  filled (some (w, none)) = some (flushed (device.flush w))

  unfoldable pub create_rand_file : ℕ → Bytes → ℤ → Option (Option (RandFile W) × Option X)
  unfolding fill_ℤ filled
  create_rand_file fuel path len = elim (device.create path) [
    | inl e ↦ some (none, some e)
    | inr w ↦ filled (fill_ℤ fuel len w)
  ]

-- Why CreateRandomLenFile panics: the nil file of a failed CreateTemp, rand.Int with no room, its error, the
-- error of CreateRandFile, a nil RandFile, or the size that the file has and the length it was to have.
pub data RandPanic (X : Type 0) : Type 0 where
  no_file no_room no_rand_file : RandPanic X
  no_number not_made : X → RandPanic X
  unexpected_length : ℕ → ℕ → RandPanic X

-- os.CreateTemp of a directory and a pattern; rand.Int below a bound, none when it panics.
pub record RandSource (X : Type 0) : Type 0 where
  pub create_temp : Bytes → Bytes → X ⊎ Bytes
  pub rand_int : ℤ → Option (X ⊎ ℕ)

module _ {W X : Type 0} (device : RandDevice W X) (source : RandSource X) where
  checked : ℕ → Bytes → Option (RandFile W) × Option X → RandPanic X ⊎ Bytes
  checked len fname (file, some e) = inl (not_made e)
  checked len fname (none, none) = inl no_rand_file
  checked len fname (some file, none) =
      if file.size == len then inr fname else inl (unexpected_length file.size len)

  checked_fuel : ℕ → Bytes → Option (Option (RandFile W) × Option X) → Option (RandPanic X ⊎ Bytes)
  unfolding checked
  checked_fuel len fname none = none
  checked_fuel len fname (some r) = some (checked len fname r)

  with_number : ℕ → Bytes → Option (X ⊎ ℕ) → Option (RandPanic X ⊎ Bytes)
  unfolding checked_fuel
  with_number fuel fname none = some (inl no_room)
  with_number fuel fname (some (inl e)) = some (inl (no_number e))
  with_number fuel fname (some (inr len)) =
      checked_fuel len fname (create_rand_file device fuel fname (pos len))

  -- The error of the deferred Close is dropped.
  unfoldable pub create_random_len_file : ℕ → ℤ → Bytes → Bytes → Option (RandPanic X ⊎ Bytes)
  unfolding with_number
  create_random_len_file fuel max_len files_dir prefix =
      elim (source.create_temp files_dir prefix) [
        | inl e ↦ some (inl no_file)
        | inr fname ↦ with_number fuel fname (source.rand_int max_len)
      ]
