-- ===== src/Files/Moving/Tests.antt =====
-- Runs of MoveFile, and its theorem at a concrete input.
use gofrog.Prelude.{ℕ, ◌≡◌, refl, [], ◌∷◌, false, Option, none, some}
use gofrog.Files.Moving.{
  open_source, stat_source, create_dest, make_dest_writable, copy_content, chmod_dest, close_source,
  close_dest, remove_source, Answers, move_file,
}
use gofrog.Files.Moving.Removed.{
  is_removal, is_dest_close, count_calls, no_error, move_file-is_copied,
}

-- A destination that can only be read at first.
abbrev read_only : Option ℕ → Answers ℕ
read_only answer = record {
  open_error = none;
  stat_error = none;
  create_error = some 13;
  writable_error = none;
  create_again_error = none;
  copy_error = none;
  chmod_error = none;
  close_error = answer;
  close_again_error = some 9;
  close_dest_error = none;
  remove_error = none;
}

made_writable : move_file (read_only none) ≡ (
  open_source ∷ stat_source ∷ create_dest ∷ make_dest_writable ∷ create_dest ∷ copy_content
      ∷ chmod_dest ∷ close_source ∷ remove_source ∷ close_dest ∷ [],
  [],
)
unfolding move_file
made_writable = refl

-- The source is closed a second time.
not_closed : (move_file (read_only (some 5))).1 ≡ 5 ∷ 9 ∷ []
unfolding move_file
not_closed = refl

move_file-is_copied_example :
    (count_calls is_removal (move_file (read_only (some 5))).0 ≡ 0)
    × (count_calls is_dest_close (move_file (read_only (some 5))).0 ≡ 1)
    × (no_error (move_file (read_only (some 5))).1 ≡ false)
move_file-is_copied_example = move_file-is_copied (read_only (some 5))
