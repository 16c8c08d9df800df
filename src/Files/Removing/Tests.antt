-- ===== src/Files/Removing/Tests.antt =====
-- Runs of RemoveTempDir.
use gofrog.Prelude.{
  ℕ, ◌≡◌, refl, List, [], ◌∷◌, ◌++◌, Option, none, some, true, false, Bytes, codes, same_bytes,
  if◌then◌else◌, inr,
}
use gofrog.Version.{is_empty, split}
use gofrog.Filepath.{join}
use gofrog.Files.Listing.{is_dir_exists}
use gofrog.Files.Removing.{
  TempSystem, remove_each, remove_named, fall_back, remove_dir_contents, remove_temp_dir,
}

-- The state is what was removed; "d" is locked, and holds "a" and "b".
abbrev locked : Option ℕ → TempSystem (List Bytes) ℕ
locked close_error = record {
  temp_dir = codes "/tmp";
  timestamp = codes "1";
  mkdir_temp = λ s p pattern. (s, inr pattern);
  fs = λ s. record {
    lstat = λ p. inr (record { is_dir = true; is_symlink = false });
    stat = λ p. inr (record { is_dir = true; is_symlink = false });
    is_not_exist = λ e. false;
    read_dir = λ p. [];
  };
  remove_all = λ s p. if same_bytes p (codes "d") then (s, some 1) else (s ++ (p ∷ []), none);
  open_dir = λ s p. none;
  read_dir_names = λ s p. inr (codes "a" ∷ codes "b" ∷ []);
  close_dir = λ s p. close_error;
}

-- What is in it is removed, and that the directory is left is no error.
emptied : remove_temp_dir (locked none) [] (codes "d") ≡ (codes "d/a" ∷ codes "d/b" ∷ [], [])
unfolding remove_temp_dir fall_back remove_dir_contents remove_named remove_each is_dir_exists join
    is_empty split same_bytes
emptied = refl

not_closed :
    remove_temp_dir (locked (some 3)) [] (codes "d") ≡ (codes "d/a" ∷ codes "d/b" ∷ [], 3 ∷ [])
unfolding remove_temp_dir fall_back remove_dir_contents remove_named remove_each is_dir_exists join
    is_empty split same_bytes
not_closed = refl
