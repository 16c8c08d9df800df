-- ===== src/Unarchive/Formats.antt =====
-- unarchive/archive.go: the format that `byExtension` chooses, with the options it sets.
use gofrog.Prelude.{
  ◌≡◌, refl, List, [], ◌∷◌, Bool, true, false, Option, none, some, ℤ, Bytes, arith, if◌then◌else◌,
}
use gofrog.Unarchive.{
  Format, tar_brotli, tar_bz2, tar_gz, tar_lz4, tar_sz, tar_xz, tar_zstd, rar, tar, zip, brotli, gz,
  bz2, lz4, snappy, xz, zstd, Library, Instance, Unarchiver, supported_archives, new_instance,
  first_format, by_extension,
}

-- The formats of single compressed files, which take no options.
abbrev pub is_compressor : Format → Bool
is_compressor gz = true
is_compressor bz2 = true
is_compressor lz4 = true
is_compressor snappy = true
is_compressor xz = true
is_compressor zstd = true
is_compressor _ = false

new_instance_lem :
    (strip : ℤ) (f : Format) (a : Instance)
    → new_instance strip f ≡ some a
    → (a.format ≡ f) × (a.options ≡ (if is_compressor f then none else some (true, strip)))
unfolding new_instance
new_instance_lem strip tar_brotli a c = ground arith
new_instance_lem strip tar_bz2 a c = ground arith
new_instance_lem strip tar_gz a c = ground arith
new_instance_lem strip tar_lz4 a c = ground arith
new_instance_lem strip tar_sz a c = ground arith
new_instance_lem strip tar_xz a c = ground arith
new_instance_lem strip tar_zstd a c = ground arith
new_instance_lem strip rar a c = ground arith
new_instance_lem strip tar a c = ground arith
new_instance_lem strip zip a c = ground arith
new_instance_lem strip brotli a c = ground arith
new_instance_lem strip gz a c = ground arith
new_instance_lem strip bz2 a c = ground arith
new_instance_lem strip lz4 a c = ground arith
new_instance_lem strip snappy a c = ground arith
new_instance_lem strip xz a c = ground arith
new_instance_lem strip zstd a c = ground arith

module _ {X : Type 0} where
  first_format_lem :
      (lib : Library X) (name : Bytes) (l : List Format) (f : Format)
      → first_format lib name l ≡ some f
      → lib.check_ext f name ≡ true
  unfolding first_format
  first_format_lem lib name [] f c = absurd (ground arith)
  first_format_lem lib name (g ∷ l) f c = ground (arith, first_format_lem lib name l f)

  by_extension_chosen :
      (u : Unarchiver) (lib : Library X) (name : Bytes) (a : Instance) (chosen : Option Format)
      → first_format lib name supported_archives ≡ chosen
      → by_extension u lib name ≡ some a
      → (chosen ≡ some a.format)
        × (lib.check_ext a.format name ≡ true)
        × (a.options ≡ (if is_compressor a.format then none else some (true, u.strip_components)))
  unfolding by_extension
  by_extension_chosen u lib name a none q c = absurd (ground arith)
  by_extension_chosen u lib name a (some f) q c = ground (
    arith,
    new_instance_lem u.strip_components f a,
    first_format_lem lib name supported_archives f q,
  )

  -- The format that `byExtension` returns is the first supported one whose check accepts the name, and
  -- an archive format overwrites existing files and strips the components that the caller asked for.
  pub by_extension-first_format :
      (u : Unarchiver) (lib : Library X) (name : Bytes) (a : Instance)
      → by_extension u lib name ≡ some a
      → (first_format lib name supported_archives ≡ some a.format)
        × (lib.check_ext a.format name ≡ true)
        × (a.options ≡ (if is_compressor a.format then none else some (true, u.strip_components)))
  by_extension-first_format u lib name a c =
      by_extension_chosen u lib name a (first_format lib name supported_archives) refl c
