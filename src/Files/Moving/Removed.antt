-- ===== src/Files/Moving/Removed.antt =====
-- io/fileutils.go: MoveFile removes the source only when the destination is complete.
use gofrog.Prelude.{
  ◌≡◌, List, [], ◌∷◌, Bool, true, false, ◌&&◌, ◌||◌, if◌then◌else◌, Option, none, some, arith, ℕ,
  ◌+◌,
}
use gofrog.Files.Moving.{
  Call, close_dest, remove_source, Answers, defer_close_dest, defer_close_source,
  create_file_for_writing, copy_and_remove, after_create, move_file,
}

abbrev pub is_removal : Call → Bool
is_removal remove_source = true
is_removal _ = false

abbrev pub is_dest_close : Call → Bool
is_dest_close close_dest = true
is_dest_close _ = false

abbrev pub count_calls : (Call → Bool) → List Call → ℕ
count_calls test [] = 0
count_calls test (c ∷ cs) = let rest = count_calls test cs in if test c then rest + 1 else rest

abbrev pub is_nil : {X : Type 0} → Option X → Bool
is_nil none = true
is_nil (some _) = false

abbrev pub no_error : {X : Type 0} → List X → Bool
no_error [] = true
no_error (_ ∷ _) = false

module _ {X : Type 0} (a : Answers X) where
  -- The destination is open for writing, at the first attempt or the second.
  abbrev pub is_created : Bool
  is_created =
      is_nil a.open_error
      && is_nil a.stat_error
      && (is_nil a.create_error || is_nil a.writable_error && is_nil a.create_again_error)

  -- The destination has the content and the mode of the source, which is closed.
  abbrev pub is_copied : Bool
  is_copied = is_created && is_nil a.copy_error && is_nil a.chmod_error && is_nil a.close_error

  -- MoveFile removes the source once when the destination is created, the copy, its mode and the
  -- closing of the source have succeeded, and not at all otherwise; it closes the destination
  -- exactly once when it is created; and it returns no error just when the source is copied and
  -- then removed and the destination closed, each without an error.
  pub move_file-is_copied :
      (count_calls is_removal (move_file a).0 ≡ (if is_copied then 1 else 0))
      × (count_calls is_dest_close (move_file a).0 ≡ (if is_created then 1 else 0))
      × (no_error (move_file a).1 ≡ is_copied && is_nil a.remove_error && is_nil a.close_dest_error)
  unfolding move_file after_create copy_and_remove create_file_for_writing defer_close_dest
      defer_close_source
  move_file-is_copied = ground arith
