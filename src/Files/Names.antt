-- ===== src/Files/Names.antt =====
-- io/fileutils.go: a path taken apart at its last separator.
pub mod Split
mod Tests
use gofrog.Prelude.{
  ℕ, zero, suc, ◌+◌, ◌-◌, ◌≡◌, refl, List, [], ◌∷◌, ◌++◌, Bool, true, false, ◌&&◌, ◌||◌,
  if◌then◌else◌, ◌==◌, leb, length, take, Option, none, some, Bytes,
}
use gofrog.Strings.{replace_all}

-- strings.LastIndex of one byte, and of one byte twice; none is -1.
unfoldable pub after_first : Bool → Option ℕ → Option ℕ
after_first here (some i) = some (suc i)
after_first here none = if here then some 0 else none

unfoldable pub last_index : ℕ → Bytes → Option ℕ
unfolding after_first
last_index c [] = none
last_index c (x ∷ s) = after_first (x == c) (last_index c s)

starts_with : ℕ → Bytes → Bool
starts_with c [] = false
starts_with c (x ∷ s) = x == c

unfoldable pub last_index_twice : ℕ → Bytes → Option ℕ
unfolding after_first starts_with
last_index_twice c [] = none
last_index_twice c (x ∷ s) = after_first (x == c && starts_with c s) (last_index_twice c s)

unfoldable pub at_least : Option ℕ → Option ℕ → Bool
at_least i none = true
at_least none (some j) = false
at_least (some i) (some j) = leb j i

abbrev pub drop : {A : Type 0} → ℕ → List A → List A
drop zero l = l
drop (suc n) [] = []
drop (suc n) (_ ∷ l) = drop n l

-- The separator "\\" twice takes one more byte.
unfoldable pub offset_of : ℕ → Option ℕ → ℕ
offset_of i none = 0
offset_of i (some j) = if i == suc j then 1 else 0

cut_at : Bytes → ℕ → Option ℕ → Bytes × Bytes
cut_at path offset none = (path, [])
cut_at path offset (some i) = (drop (i + 1) path, take (i - offset) path)

offset_at : Option ℕ → Option ℕ → ℕ
unfolding offset_of
offset_at none j = 0
offset_at (some i) j = offset_of i j

-- The name of the file, and its directory.
unfoldable pub get_file_and_dir_from_path : Bytes → Bytes × Bytes
unfolding last_index last_index_twice at_least cut_at offset_at
get_file_and_dir_from_path path =
    let index1 = last_index b'/' path in
    let index2 = last_index b'\\' path in
    if at_least index1 index2
    then cut_at path 0 index1
    else cut_at path (offset_at index2 (last_index_twice b'\\' path)) index2

unfoldable pub double_win_path_separator : Bytes → Bytes
unfolding replace_all
double_win_path_separator path = replace_all path (b'\\' ∷ []) (b'\\' ∷ b'\\' ∷ [])
