-- ===== src/Files/Copying/Tests.antt =====
-- Runs of CopyDir and MoveDir, and a theorem at a concrete input.
use gofrog.Prelude.{
  ℕ, ◌≡◌, refl, List, [], ◌∷◌, ◌++◌, true, false, if◌then◌else◌, none, some, Bytes, codes, inl, inr,
  ◌⊎◌, same_bytes, arith,
}
use gofrog.Version.{is_empty, split}
use gofrog.Filepath.{join, base}
use gofrog.Files.Listing.{FileInfo, is_dir_exists, list_files}
use gofrog.Files.Parents.{visited}
use gofrog.Files.Tree.{Tree, file, Entries, end, entry}
use gofrog.Files.Copying.{
  Disk, create_dir_if_not_exist, copy_file, copy_dir, move_entries, move_dir,
}
use gofrog.Files.Moving.{Answers, move_file}
use gofrog.Files.Copying.Plan.{run, plan_entries}
use gofrog.Files.Copying.Planned.{copy_dir-run}

-- A directory "d" with a file "a" and a directory "sub" with a file "b".
abbrev stat : Bytes → ℕ ⊎ FileInfo
stat p = inr (record { is_dir = same_bytes p (codes "d/sub"); is_symlink = false })

abbrev names : Bytes → List Bytes
names p =
    if same_bytes p (codes "d/")
    then codes "a" ∷ codes "sub" ∷ []
    else if same_bytes p (codes "d/sub/")
    then codes "b" ∷ []
    else []

abbrev successes : Answers ℕ
successes = record {
  open_error = none;
  stat_error = none;
  create_error = none;
  writable_error = none;
  create_again_error = none;
  copy_error = none;
  chmod_error = none;
  close_error = none;
  close_again_error = none;
  close_dest_error = none;
  remove_error = none;
}

-- The state is the list of what was done; the calls of MoveFile stand for one entry each way.
abbrev disk : Disk (List Bytes) ℕ
disk = record {
  fs = record { lstat = stat; stat = stat; is_not_exist = λ e. true; read_dir = names };
  open_source = λ p. inr (record { stat_error = none; close_error = none });
  dest = λ s. record {
    lstat = λ p. inl 2;
    stat = λ p. inl 2;
    is_not_exist = λ e. true;
    read_dir = names;
  };
  make_all = λ s p. (s ++ (p ∷ []), none);
  open_dest = λ s p. (s, none);
  copy = λ s p q. (s ++ (q ∷ p ∷ []), none);
  close_dest = λ s p. (s, none);
  move_answers = λ s p q. successes;
  after_calls = λ s p q calls. s ++ (p ∷ q ∷ []);
}

abbrev entries : Entries
entries = entry (codes "a") file (entry (codes "sub") (Tree.dir (entry (codes "b") file end)) end)

moved :
    move_dir disk 2 (codes "d") (codes "t") []
    ≡ some (
      codes "t"
          ∷ codes "d/a"
          ∷ codes "t/a"
          ∷ codes "t/sub"
          ∷ codes "d/sub/b"
          ∷ codes "t/sub/b"
          ∷ [],
      [],
    )
unfolding move_dir move_entries move_file create_dir_if_not_exist is_dir_exists list_files join base
    is_empty split same_bytes
moved = refl

copy_dir-run_example :
    copy_dir disk 3 (codes "d") (codes "t") true (codes "a" ∷ []) []
    ≡ some (codes "t" ∷ codes "t/sub" ∷ codes "t/sub" ∷ codes "d/sub/b" ∷ codes "t/sub/b" ∷ [], [])
unfolding create_dir_if_not_exist copy_file run plan_entries is_dir_exists list_files join base
    is_empty split same_bytes visited
copy_dir-run_example =
    copy_dir-run disk 3 entries (codes "d") (codes "t") true (codes "a" ∷ []) [] (omega arith) refl
      (refl, refl, (refl, (refl, refl, (refl, refl, tt)), tt))
