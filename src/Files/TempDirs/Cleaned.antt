-- ===== src/Files/TempDirs/Cleaned.antt =====
-- io/fileutils.go: CleanOldDirs removes what is old.
use gofrog.Prelude.{
  ℕ, suc, ◌≡◌, refl, ap, map, codes, ◌∙◌, List, [], ◌∷◌, ◌++◌, Bool, true, false, if◌then◌else◌,
  length, All, take, Option, none, some, Bytes, inl, inr, ◌⊎◌, Bool-cases, arith,
}
use gofrog.Strings.{has_byte, has_prefix-append}
use gofrog.Filepath.{has_prefix, join}
use gofrog.Files.Names.{last_index, after_first, drop}
use gofrog.Files.TempDirs.{
  temp_dir_prefix, is_old, after_index, between, extract_timestamp, after_remove, clean_entries,
  clean_old_dirs,
}

last_index-lacking : (c : ℕ) (t : Bytes) → has_byte c t ≡ false → last_index c t ≡ none
unfolding last_index after_first
last_index-lacking c [] h = refl
last_index-lacking c (x ∷ t) h = ground (arith, last_index-lacking c t)

last_index-append :
    (c : ℕ) (s t : Bytes) → has_byte c t ≡ false → last_index c (s ++ c ∷ t) ≡ some (length s)
unfolding last_index after_first
last_index-append c [] t h = ground (arith, last_index-lacking c t)
last_index-append c (x ∷ s) t h = ground (arith, last_index-append c s t)

take-append : (s t : Bytes) → take (length s) (s ++ t) ≡ s
take-append [] t = refl
take-append (x ∷ s) t = ground (arith, take-append s t)

drop-append : (c : ℕ) (s t : Bytes) → drop (suc (length s)) (s ++ c ∷ t) ≡ t
drop-append c [] t = refl
drop-append c (x ∷ s) t = drop-append c s t

between-append : (s t : Bytes) → has_byte b'-' t ≡ false → between (s ++ b'-' ∷ t) ≡ t
unfolding between after_index
between-append s t h = rw (last_index-append b'-' s t h) (drop-append b'-' s t)

-- The name of a temporary directory, as os.MkdirTemp makes it from the prefix, a stamp and a star.
abbrev pub temp_name : Bytes → Bytes → Bytes
temp_name stamp_text random = (temp_dir_prefix ++ stamp_text) ++ b'-' ∷ random

module _ {S X : Type 0} (parse_int : Bytes → X ⊎ ℕ) (remove_all : S → Bytes → S × Option X) where
  extract_timestamp-append :
      (s t : Bytes)
      → has_byte b'-' t ≡ false
      → extract_timestamp parse_int remove_all (s ++ b'-' ∷ t) ≡ some (parse_int (between s))
  unfolding extract_timestamp
  extract_timestamp-append s t h =
      ground (arith, last_index-append b'-' s t h, take-append s (b'-' ∷ t))

  extract_timestamp-temp_name :
      (stamp_text random : Bytes)
      → has_byte b'-' stamp_text ≡ false
      → has_byte b'-' random ≡ false
      → extract_timestamp parse_int remove_all (temp_name stamp_text random)
        ≡ some (parse_int stamp_text)
  extract_timestamp-temp_name stamp_text random h k =
      extract_timestamp-append (temp_dir_prefix ++ stamp_text) random k
      ∙ ap (λ x. some (parse_int x)) (between-append (codes "temp") stamp_text h)

  -- An entry of the directory: a temporary one, or one with another prefix.
  pub data Entry : Type 0 where
    own : Bytes → ℕ → Bytes → Entry
    foreign : Bytes → Entry

  abbrev pub name_of : Entry → Bytes
  name_of (own stamp_text stamp random) = temp_name stamp_text random
  name_of (foreign name) = name

  abbrev pub IsEntry : Entry → Type 0
  IsEntry (own stamp_text stamp random) =
      (parse_int stamp_text ≡ inr stamp)
      × (has_byte b'-' stamp_text ≡ false)
      × (has_byte b'-' random ≡ false)
  IsEntry (foreign name) = has_prefix name temp_dir_prefix ≡ false

  abbrev pub is_expired : ℕ → Entry → Bool
  is_expired now (own stamp_text stamp random) = is_old now stamp
  is_expired now (foreign name) = false

  abbrev pub remove_each : Bytes → List Bytes → S → Option (S × Option X)
  remove_each base [] s = some (s, none)
  remove_each base (name ∷ names) s =
      let (t, e) = remove_all s (join (base ∷ name ∷ [])) in
      let rest = remove_each base names t in elim e [ none ↦ rest | some x ↦ some (t, some x) ]

  abbrev pub expired_names : ℕ → List Entry → List Bytes
  expired_names now [] = []
  expired_names now (e ∷ es) =
      let rest = expired_names now es in if is_expired now e then name_of e ∷ rest else rest

  after_remove_same :
      (f g : S → Option (S × Option X)) (r : S × Option X)
      → ((s : S) → f s ≡ g s)
      → after_remove parse_int remove_all f r
        ≡ (let rest = g r.0 in elim r.1 [ none ↦ rest | some x ↦ some (r.0, some x) ])
  unfolding after_remove
  after_remove_same f g (s, some e) same = refl
  after_remove_same f g (s, none) same = same s

  clean_entries-own :
      (now : ℕ) (base name : Bytes) (names : List Bytes) (stamp : ℕ) (s : S)
      → has_prefix name temp_dir_prefix ≡ true
      → extract_timestamp parse_int remove_all name ≡ some (inr stamp)
      → clean_entries parse_int remove_all now base (name ∷ names) s ≡ (
          if is_old now stamp
          then after_remove parse_int remove_all
              (clean_entries parse_int remove_all now base names)
              (remove_all s (join (base ∷ name ∷ [])))
          else clean_entries parse_int remove_all now base names s)
  unfolding clean_entries
  clean_entries-own now base name names stamp s p e = ground (arith, p, e)

  -- In a directory of temporary entries, as the library names them, and of entries with another prefix,
  -- CleanOldDirs removes those temporary entries whose stamp is more than 24 hours before now, in
  -- the order of the directory and up to the first error of RemoveAll, and nothing else.
  pub clean_old_dirs-remove_each :
      (now : ℕ) (base : Bytes) (es : List Entry) (s : S)
      → All IsEntry es
      → clean_old_dirs parse_int remove_all now base (inr (map name_of es)) s
        ≡ remove_each base (expired_names now es) s
  unfolding clean_old_dirs clean_entries
  clean_old_dirs-remove_each now base [] s h = refl
  clean_old_dirs-remove_each now base (foreign name ∷ es) s h =
      rw (h.0) (clean_old_dirs-remove_each now base es s h.1)
  clean_old_dirs-remove_each now base (own stamp_text stamp random ∷ es) s h =
      clean_entries-own now base (temp_name stamp_text random) (map name_of es) stamp s
        (has_prefix-append temp_dir_prefix (stamp_text ++ b'-' ∷ random))
        (extract_timestamp-temp_name stamp_text random h.0.1 h.0.2 ∙ ap (λ x. some x) h.0.0)
      ∙ elim (Bool-cases (is_old now stamp)) [
        | inl old ↦ rw (old) (
            after_remove_same (clean_entries parse_int remove_all now base (map name_of es))
              (remove_each base (expired_names now es))
              (remove_all s (join (base ∷ temp_name stamp_text random ∷ [])))
              (λ t. clean_old_dirs-remove_each now base es t h.1))
        | inr young ↦ rw (young) (clean_old_dirs-remove_each now base es s h.1)
      ]
