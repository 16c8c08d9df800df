-- ===== src/Filestream/Sent.antt =====
-- http/filestream/filestream.go: what WriteFilesToStream sends when a file fails.
use gofrog.Prelude.{inl, inr, Option, none, arith, ◌≡◌, refl, List, [], ◌∷◌, ◌++◌, some, Bytes, ◌⊎◌}
use gofrog.Streams.{copy, copy_pieces, after_piece}
use gofrog.Filestream.{
  of_copy, failed_form_field, failed_marshal, failed_to_close, error_type, into_form_field, copied,
  close_into, StreamError, FileInfo, MultipartError, OpenFile, Multipart, write_file, write_err,
  join_all, after_file, write_files, finish, write_files_to_stream,
}

module _ {M X : Type 0} (multipart : Multipart M X) (open_file : Bytes → X ⊎ OpenFile X)
    (marshal : MultipartError → X ⊎ Bytes) (message_of : List (StreamError X) → Bytes) where
  -- The files sent one after another without an error, from one state of the message to another.
  pub data Sent : M → List FileInfo → M → Type 0 where
    nothing_sent : {m : M} → Sent m [] m
    then_sent :
        {m n o : M} {file : FileInfo} {files : List FileInfo}
        → write_file multipart open_file marshal message_of m file ≡ some (n, [])
        → Sent n files o
        → Sent m (file ∷ files) o

  write_files-append :
      (m n : M) (before rest : List FileInfo)
      → Sent m before n
      → write_files multipart open_file marshal message_of (before ++ rest) m
        ≡ write_files multipart open_file marshal message_of rest n
  unfolding write_files after_file
  write_files-append m _ _ rest nothing_sent = refl
  write_files-append m o _ rest (then_sent {n = n} {files = files} sent later) =
      rw (sent) (write_files-append n o files rest later)

  -- The part that tells of an error: the state after it, and its own errors.
  abbrev pub told : M → FileInfo → List (StreamError X) → Option (M × List (StreamError X))
  told m file errors =
      let (n, refused) = multipart.create_form_field m error_type in
      elim refused [
        | some e ↦ some (n, failed_form_field e ∷ [])
        | none ↦
            elim (marshal (record { file_name = file.name; err_message = message_of errors })) [
              | inl e ↦ some (n, failed_marshal file.name e ∷ [])
              | inr json ↦ elim (multipart.write_part n json) [
                | none ↦ none
                | some (o, none) ↦ some (o, [])
                | some (o, some e) ↦ some (o, of_copy e ∷ [])
              ]
            ]
      ]

  -- The end of the message, with the errors before it.
  abbrev pub closed_with : List (StreamError X) → M → Option (M × List (StreamError X))
  closed_with errors m =
      let (n, failed) = multipart.close_message m in
      elim failed [
        | none ↦ some (n, errors)
        | some e ↦ some (n, errors ++ (failed_to_close e ∷ []))
      ]

  write_err-told :
      (m : M) (file : FileInfo) (errors : List (StreamError X))
      → write_err multipart open_file marshal message_of m file errors ≡ told m file errors
  unfolding write_err into_form_field copied copy copy_pieces after_piece
  write_err-told m file errors = ground arith

  finish-closed_with :
      (errors : List (StreamError X)) (m : M)
      → finish multipart open_file marshal message_of (some (m, errors)) ≡ closed_with errors m
  unfolding finish close_into
  finish-closed_with errors m = ground arith

  ended-joined :
      (errors : List (StreamError X)) (r : Option (M × List (StreamError X)))
      → finish multipart open_file marshal message_of (join_all errors r)
        ≡ elim r [ none ↦ none | some (p, more) ↦ closed_with (errors ++ more) p ]
  unfolding finish join_all
  ended-joined errors none = refl
  ended-joined errors (some (p, more)) = finish-closed_with (errors ++ more) p

  -- When the files before one have been sent without an error and that one fails, whatever has
  -- been written of it: the message goes on with a field of the type "error" that holds the name of the
  -- file and the text of its errors, no later file is opened, the message is closed, and the
  -- errors returned are those of the file, then that of telling, then that of the closing.
  pub write_files_to_stream-write_err :
      (m n o : M) (before after : List FileInfo) (file : FileInfo) (e : StreamError X)
      (es : List (StreamError X))
      → Sent m before n
      → write_file multipart open_file marshal message_of n file ≡ some (o, e ∷ es)
      → write_files_to_stream multipart open_file marshal message_of m (before ++ file ∷ after)
        ≡ elim (told o file (e ∷ es)) [
          | none ↦ none
          | some (p, more) ↦ closed_with ((e ∷ es) ++ more) p
        ]
  unfolding write_files_to_stream write_files after_file
  write_files_to_stream-write_err m n o before after file e es sent failed =
      rw (write_files-append m n before (file ∷ after) sent, failed)
        (rw (write_err-told o file (e ∷ es)) (ended-joined (e ∷ es) (told o file (e ∷ es))))
