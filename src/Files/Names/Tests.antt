-- ===== src/Files/Names/Tests.antt =====
-- Runs of GetFileAndDirFromPath and DoubleWinPathSeparator, and a theorem at a concrete input.
use gofrog.Prelude.{◌≡◌, refl, [], codes}
use gofrog.Filepath.{has_prefix}
use gofrog.Files.Names.{get_file_and_dir_from_path, double_win_path_separator}
use gofrog.Files.Names.Split.{IsSplit, get_file_and_dir_from_path-IsSplit}

mixed : get_file_and_dir_from_path (codes "a/b\\\\c") ≡ (codes "c", codes "a/b")
unfolding get_file_and_dir_from_path
mixed = refl

single : get_file_and_dir_from_path (codes "a\\c") ≡ (codes "c", codes "a")
unfolding get_file_and_dir_from_path
single = refl

bare : get_file_and_dir_from_path (codes "c") ≡ (codes "c", [])
unfolding get_file_and_dir_from_path
bare = refl

doubled : double_win_path_separator (codes "a\\b") ≡ codes "a\\\\b"
unfolding double_win_path_separator has_prefix
doubled = refl

get_file_and_dir_from_path-IsSplit_example : IsSplit (codes "a/b\\\\c") (codes "c", codes "a/b")
unfolding get_file_and_dir_from_path
get_file_and_dir_from_path-IsSplit_example = get_file_and_dir_from_path-IsSplit (codes "a/b\\\\c")
