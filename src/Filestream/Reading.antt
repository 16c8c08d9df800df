-- ===== src/Filestream/Reading.antt =====
-- http/filestream/filestream.go: ReadFilesFromStream. The writers of a file share nothing; W is the state of
-- one, and the order in which the writers end their part of a piece is a parameter.
use gofrog.Prelude.{pos, List, [], ◌∷◌, Option, none, some, Bytes, Completion, inl, inr, ◌⊎◌}
use gofrog.Streams.{Stream, copy}
use gofrog.MultiWriter.{WriteError, Writer, AsyncMultiWriter, async_multi_writer, write}
use gofrog.Filestream.{StreamError, failed_to_read, of_writer_func, failed_writing, close_into}

-- The name of a part, and what is read from it.
pub record Part (X : Type 0) : Type 0 where
  pub file_name : Bytes
  pub stream : Stream (WriteError X)

-- none is a call that never returns.
module _ {W X : Type 0} (writer : Writer W X) (close_writer : W → Option X)
    (order : Completion (Option (WriteError X))) (writers_func : Bytes → X ⊎ List W) where
  -- What io.Copy sees of the multi writer.
  unfoldable pub write_to :
      AsyncMultiWriter W → Bytes → Option (AsyncMultiWriter W × Option (WriteError X))
  unfolding write
  write_to amw p = elim (write writer order amw p) [
    | none ↦ none
    | some (amw', n, e) ↦ some (amw', e)
  ]

  -- The deferred calls of Close, that of the last writer first.
  unfoldable pub close_all : List W → List (StreamError X) → List (StreamError X)
  unfolding close_into
  close_all [] errors = errors
  close_all (w ∷ ws) errors = close_into (close_writer w) (close_all ws errors)

  unfoldable pub written :
      Bytes
      → Option (AsyncMultiWriter W × Option (WriteError X))
      → Option (List W × List (StreamError X))
  unfolding close_all
  written file_name none = none
  written file_name (some (amw, some e)) =
      some (amw.writers, close_all amw.writers (failed_writing file_name e ∷ []))
  written file_name (some (amw, none)) = some (amw.writers, close_all amw.writers [])

  -- The writers when they are closed, and the errors.
  unfoldable pub read_file : Part X → Option (List W × List (StreamError X))
  unfolding write_to written async_multi_writer copy
  read_file part = elim (writers_func part.file_name) [
    | inl e ↦ some ([], of_writer_func e ∷ [])
    | inr writers ↦
        written part.file_name (copy write_to part.stream (async_multi_writer (pos 10) writers))
  ]

  add_file :
      List W
      → Option (List (List W) × List (StreamError X))
      → Option (List (List W) × List (StreamError X))
  add_file ws none = none
  add_file ws (some (files, errors)) = some (ws ∷ files, errors)

  unfoldable pub after_part :
      Option (List (List W) × List (StreamError X))
      → Option (List W × List (StreamError X))
      → Option (List (List W) × List (StreamError X))
  unfolding add_file
  after_part rest none = none
  after_part rest (some (ws, [])) = add_file ws rest
  after_part rest (some (ws, e ∷ es)) = some (ws ∷ [], e ∷ es)

  -- The error that ends the message unless it ends with EOF, and its parts.
  unfoldable pub read_files_from_stream :
      Option X → List (Part X) → Option (List (List W) × List (StreamError X))
  unfolding read_file after_part
  read_files_from_stream none [] = some ([], [])
  read_files_from_stream (some e) [] = some ([], failed_to_read e ∷ [])
  read_files_from_stream end (part ∷ ps) =
      after_part (read_files_from_stream end ps) (read_file part)
