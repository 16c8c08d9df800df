-- ===== src/Filestream.antt =====
-- http/filestream/filestream.go: files sent as the parts of a multipart message, and read back into
-- writers. The multipart library, the files and the JSON encoder are parameters; X is the type of their
-- errors, a joined error the list of its parts.
pub mod Reading
pub mod Sent
pub mod Received
mod Tests
use gofrog.Prelude.{
  parts, ℕ, pos, List, [], ◌∷◌, ◌++◌, Bool, true, false, Option, none, some, Bytes, codes,
  Completion, inl, inr, ◌⊎◌,
}
use gofrog.Streams.{Stream, join, copy}
use gofrog.MultiWriter.{WriteError, Writer, AsyncMultiWriter, async_multi_writer, write}

pub data StreamError (X : Type 0) : Type 0 where
  failed_to_read : X → StreamError X
  of_writer_func failed_to_close of_copy : X → StreamError X
  failed_writing : Bytes → WriteError X → StreamError X
  failed_opening failed_form_file failed_marshal : Bytes → X → StreamError X
  failed_form_field : X → StreamError X

pub record FileInfo : Type 0 where
  pub name : Bytes
  pub path : Bytes

pub record MultipartError : Type 0 where
  pub file_name : Bytes
  pub err_message : Bytes

abbrev pub file_type : Bytes
file_type = codes "file"

abbrev pub error_type : Bytes
error_type = codes "error"

-- A file that is open for reading: its content, and the error of closing it.
pub record OpenFile (X : Type 0) : Type 0 where
  pub stream : Stream X
  pub close_error : Option X

-- M is the state of the message.
pub record Multipart (M X : Type 0) : Type 0 where
  pub create_form_file : M → Bytes → Bytes → M × Option X
  pub create_form_field : M → Bytes → M × Option X
  pub write_part : M → Bytes → Option (M × Option X)
  pub close_message : M → M × Option X

-- none is a call that never returns.
module _ {X : Type 0} where
  -- `defer ioutils.Close(…, &err)`.
  unfoldable pub close_into : Option X → List (StreamError X) → List (StreamError X)
  close_into none errors = errors
  close_into (some e) errors = join errors (some (failed_to_close e))

module _ {M X : Type 0} where
  copied : Option (M × Option X) → Option (M × List (StreamError X))
  copied none = none
  copied (some (m, none)) = some (m, [])
  copied (some (m, some e)) = some (m, of_copy e ∷ [])

  closing : Option X → Option (M × List (StreamError X)) → Option (M × List (StreamError X))
  unfolding close_into
  closing close_error none = none
  closing close_error (some (m, errors)) = some (m, close_into close_error errors)

  unfoldable pub join_all :
      List (StreamError X) → Option (M × List (StreamError X)) → Option (M × List (StreamError X))
  join_all errors none = none
  join_all errors (some (m, more)) = some (m, errors ++ more)

module _ {M X : Type 0} (multipart : Multipart M X) (open_file : Bytes → X ⊎ OpenFile X)
    (marshal : MultipartError → X ⊎ Bytes) (message_of : List (StreamError X) → Bytes) where
  into_form_file : Bytes → OpenFile X → M × Option X → Option (M × List (StreamError X))
  unfolding copied
  into_form_file name file (m, some e) = some (m, failed_form_file name e ∷ [])
  into_form_file name file (m, none) = copied (copy multipart.write_part file.stream m)

  unfoldable pub write_file : M → FileInfo → Option (M × List (StreamError X))
  unfolding into_form_file closing
  write_file m file = elim (open_file file.path) [
    | inl e ↦ some (m, failed_opening file.name e ∷ [])
    | inr reader ↦
        closing reader.close_error
          (into_form_file file.name reader (multipart.create_form_file m file_type file.name))
  ]

  into_form_field :
      FileInfo → List (StreamError X) → M × Option X → Option (M × List (StreamError X))
  unfolding copied
  into_form_field file errors (m, some e) = some (m, failed_form_field e ∷ [])
  into_form_field file errors (m, none) =
      elim (marshal (record { file_name = file.name; err_message = message_of errors })) [
        | inl e ↦ some (m, failed_marshal file.name e ∷ [])
        | inr json ↦
            copied (copy multipart.write_part (record { pieces = json ∷ []; read_error = none }) m)
      ]

  unfoldable pub write_err : M → FileInfo → List (StreamError X) → Option (M × List (StreamError X))
  unfolding into_form_field
  write_err m file errors = into_form_field file errors (multipart.create_form_field m error_type)

  -- After a file: the next ones, or the part that tells of the error.
  unfoldable pub after_file :
      FileInfo
      → (M → Option (M × List (StreamError X)))
      → Option (M × List (StreamError X))
      → Option (M × List (StreamError X))
  unfolding write_err join_all
  after_file file next none = none
  after_file file next (some (m, [])) = next m
  after_file file next (some (m, e ∷ es)) = join_all (e ∷ es) (write_err m file (e ∷ es))

  unfoldable pub write_files : List FileInfo → M → Option (M × List (StreamError X))
  unfolding write_file after_file
  write_files [] m = some (m, [])
  write_files (file ∷ files) m = after_file file (write_files files) (write_file m file)

  -- The deferred Close of the message.
  unfoldable pub finish : Option (M × List (StreamError X)) → Option (M × List (StreamError X))
  unfolding close_into
  finish none = none
  finish (some (m, errors)) =
      some ((multipart.close_message m).0, close_into (multipart.close_message m).1 errors)

  unfoldable pub write_files_to_stream : M → List FileInfo → Option (M × List (StreamError X))
  unfolding write_files finish
  write_files_to_stream m files_list = finish (write_files files_list m)
