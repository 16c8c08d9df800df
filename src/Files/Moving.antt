-- ===== src/Files/Moving.antt =====
-- io/fileutils.go: MoveFile. It reads nothing of the operating system but the errors of its calls,
-- which are a parameter; the result is the calls it makes, in order, and the parts of the joined error.
pub mod Removed
mod Tests
use gofrog.Prelude.{parts, List, [], ◌∷◌, ◌++◌, Option, none, some}

pub data Call : Type 0 where
  open_source stat_source : Call
  create_dest make_dest_writable : Call
  copy_content chmod_dest : Call
  close_source close_dest remove_source : Call

-- The error of each call; `close_again_error` is that of closing the source a second time.
pub record Answers (X : Type 0) : Type 0 where
  pub open_error : Option X
  pub stat_error : Option X
  pub create_error : Option X
  pub writable_error : Option X
  pub create_again_error : Option X
  pub copy_error : Option X
  pub chmod_error : Option X
  pub close_error : Option X
  pub close_again_error : Option X
  pub close_dest_error : Option X
  pub remove_error : Option X

module _ {X : Type 0} (a : Answers X) where
  defer_close_dest : List Call × List X → List Call × List X
  defer_close_dest run = (run.0 ++ (close_dest ∷ []), run.1 ++ parts a.close_dest_error)

  -- The deferred function of the source, with the answer of its Close.
  defer_close_source : Option X → List Call × List X → List Call × List X
  defer_close_source answer run = (run.0 ++ (close_source ∷ []), run.1 ++ parts answer)

  unfoldable pub create_file_for_writing : List Call × List X
  create_file_for_writing = elim a.create_error [
    | none ↦ (create_dest ∷ [], [])
    | some e ↦ elim a.writable_error [
      | some c ↦ (create_dest ∷ make_dest_writable ∷ [], e ∷ c ∷ [])
      | none ↦ (create_dest ∷ make_dest_writable ∷ create_dest ∷ [], parts a.create_again_error)
    ]
  ]

  -- From the copy on; the function returns, and then its deferred functions run, the last one first.
  copy_and_remove : List Call → List Call × List X
  unfolding defer_close_dest defer_close_source
  copy_and_remove calls = elim a.copy_error [
    | some e ↦
        defer_close_source a.close_error (defer_close_dest (calls ++ (copy_content ∷ []), e ∷ []))
    | none ↦ elim a.chmod_error [
      | some e ↦
          defer_close_source a.close_error
            (defer_close_dest (calls ++ (copy_content ∷ chmod_dest ∷ []), e ∷ []))
      | none ↦ elim a.close_error [
        | some e ↦
            defer_close_source a.close_again_error
              (defer_close_dest (calls ++ (copy_content ∷ chmod_dest ∷ close_source ∷ []), e ∷ []))
        | none ↦ defer_close_dest (
          calls ++ (copy_content ∷ chmod_dest ∷ close_source ∷ remove_source ∷ []),
          parts a.remove_error,
        )
      ]
    ]
  ]

  after_create : List Call → List Call × List X → List Call × List X
  unfolding copy_and_remove
  after_create calls (created, []) = copy_and_remove (calls ++ created)
  after_create calls (created, e ∷ es) = defer_close_source a.close_error (calls ++ created, e ∷ es)

  unfoldable pub move_file : List Call × List X
  unfolding after_create create_file_for_writing
  move_file = elim a.open_error [
    | some e ↦ (open_source ∷ [], e ∷ [])
    | none ↦ elim a.stat_error [
      | some e ↦ defer_close_source a.close_error (open_source ∷ stat_source ∷ [], e ∷ [])
      | none ↦ after_create (open_source ∷ stat_source ∷ []) create_file_for_writing
    ]
  ]
