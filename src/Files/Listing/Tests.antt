-- ===== src/Files/Listing/Tests.antt =====
-- Runs of the listings of a directory, and their theorems at concrete inputs.
use gofrog.Prelude.{
  ℕ, ◌≡◌, refl, List, [], ◌∷◌, Bool, true, false, if◌then◌else◌, Bytes, codes, inl, inr, ◌⊎◌,
  same_bytes,
}
use gofrog.Version.{is_empty}
use gofrog.Files.Listing.{
  FileInfo, FileSystem, is_dir_exists, is_path_symlink, list_files, list_files_by_filter_func,
}
use gofrog.Files.Listing.Chosen.{list_files-list_files_by_filter_func}

abbrev info : Bool → Bool → FileInfo
info is_dir is_symlink = record { is_dir = is_dir; is_symlink = is_symlink }

-- A file, a directory, a link to the directory and one that leads nowhere.
abbrev stat_answers : Bytes → ℕ ⊎ FileInfo
stat_answers path =
    if same_bytes path (codes "d/f")
    then inr (info false false)
    else if same_bytes path (codes "d/sub")
    then inr (info true false)
    else if same_bytes path (codes "d/link")
    then inr (info true false)
    else inl 2

abbrev lstat_answers : Bytes → ℕ ⊎ FileInfo
lstat_answers path =
    if same_bytes path (codes "d/link")
    then inr (info false true)
    else if same_bytes path (codes "d/lost")
    then inr (info false true)
    else stat_answers path

abbrev entries : List Bytes → FileSystem ℕ
entries names = record {
  lstat = lstat_answers;
  stat = stat_answers;
  is_not_exist = λ e. true;
  read_dir = λ p. names;
}

abbrev three_names : List Bytes
three_names = codes "f" ∷ codes "link" ∷ codes "sub" ∷ []

-- With the flag the link itself is asked about.
followed : is_dir_exists (entries []) (codes "d/link") true ≡ inr false
unfolding is_dir_exists same_bytes
followed = refl

not_followed : is_dir_exists (entries []) (codes "d/link") false ≡ inr true
unfolding is_dir_exists same_bytes
not_followed = refl

lost_link :
    list_files_by_filter_func (entries (codes "lost" ∷ [])) (codes "d") (λ p. inr true) ≡ inl 2
unfolding list_files_by_filter_func same_bytes is_empty
lost_link = refl

list_files-list_files_by_filter_func_example :
    (list_files (entries three_names) (codes "d") false ≡ inr (codes "d/f" ∷ codes "d/link" ∷ []))
    × (list_files_by_filter_func (entries three_names) (codes "d") (λ p. inr true)
        ≡ inr (codes "d/f" ∷ []))
unfolding list_files list_files_by_filter_func same_bytes is_empty is_path_symlink
list_files-list_files_by_filter_func_example =
    list_files-list_files_by_filter_func (entries three_names) (codes "d") false (λ p. inr true)
