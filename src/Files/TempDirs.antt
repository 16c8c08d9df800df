-- ===== src/Files/TempDirs.antt =====
-- io/fileutils.go: CleanOldDirs. ParseInt, the entries of the directory and RemoveAll are parameters, X the
-- type of their errors; S is the state of the file system. A text between two dashes has no sign "-", so
-- the stamps are natural numbers, in seconds; `now` counts nanoseconds. What time.Unix makes of stamps near
-- the end of int64 is not modelled.
pub mod Cleaned
mod Tests
use gofrog.Prelude.{
  ℕ, suc, ◌+◌, ◌*◌, List, [], ◌∷◌, Bool, if◌then◌else◌, ltb, take, Option, none, some, Bytes, codes,
  inl, inr, ◌⊎◌,
}
use gofrog.Filepath.{has_prefix, join}
use gofrog.Files.Names.{last_index, drop}

abbrev pub temp_dir_prefix : Bytes
temp_dir_prefix = codes "temp-"

-- 24 hours.
abbrev pub max_file_age : ℕ
max_file_age = 86400000000000

unfoldable pub is_old : ℕ → ℕ → Bool
is_old now stamp = ltb (stamp * 1000000000 + max_file_age) now

after_index : Option ℕ → ℕ
after_index none = 0
after_index (some i) = suc i

-- The text behind the last dash of what stands before the end.
between : Bytes → Bytes
unfolding last_index after_index
between item = drop (after_index (last_index b'-' item)) item

module _ {S X : Type 0} (parse_int : Bytes → X ⊎ ℕ) (remove_all : S → Bytes → S × Option X) where
  -- none is a panic.
  unfoldable pub extract_timestamp : Bytes → Option (X ⊎ ℕ)
  unfolding last_index between
  extract_timestamp item = elim (last_index b'-' item) [
    | none ↦ none
    | some end ↦ some (parse_int (between (take end item)))
  ]

  unfoldable pub after_remove : (S → Option (S × Option X)) → S × Option X → Option (S × Option X)
  after_remove next (s, some e) = some (s, some e)
  after_remove next (s, none) = next s

  -- The entries from one on.
  unfoldable pub clean_entries : ℕ → Bytes → List Bytes → S → Option (S × Option X)
  clean_entries now base [] s = some (s, none)
  clean_entries now base (name ∷ names) s =
      if has_prefix name temp_dir_prefix
      then elim (extract_timestamp name) [
        | none ↦ none
        | some (inl e) ↦ some (s, some e)
        | some (inr stamp) ↦
            if is_old now stamp
            then after_remove (clean_entries now base names)
                (remove_all s (join (base ∷ name ∷ [])))
            else clean_entries now base names s
      ]
      else clean_entries now base names s

  unfoldable pub clean_old_dirs : ℕ → Bytes → X ⊎ List Bytes → S → Option (S × Option X)
  unfolding clean_entries
  clean_old_dirs now temp_dir_base (inl e) s = some (s, some e)
  clean_old_dirs now temp_dir_base (inr files) s = clean_entries now temp_dir_base files s
