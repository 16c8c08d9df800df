-- ===== src/Filestream/Tests.antt =====
-- Runs of the multipart stream, and its theorems at concrete inputs.
use mathlib.Core.List.Permᴰ
use gofrog.Prelude.{
  ℕ, ◌≡◌, refl, ap, List, [], ◌∷◌, ◌++◌, if◌then◌else◌, length, Option, none, some, Bytes, codes,
  Completion, inl, inr, ◌⊎◌, same_bytes,
}
use gofrog.Streams.{copy}
use gofrog.MultiWriter.{WriteError, Writer}
use gofrog.Filestream.{
  StreamError, failed_opening, failed_to_close, FileInfo, MultipartError, OpenFile, Multipart,
  write_file, write_files_to_stream,
}
use gofrog.Filestream.Sent.{Sent, nothing_sent, then_sent, write_files_to_stream-write_err}
use gofrog.Filestream.Reading.{Part, read_files_from_stream}
use gofrog.Filestream.Received.{IsSink, read_files_from_stream-delivered}

-- A writer that keeps what it has taken.
abbrev keeper : Writer Bytes ℕ
keeper = record { write_piece = λ w p. (w ++ p, length p, none) }

append_nothing : (w : Bytes) → w ++ [] ≡ w
append_nothing [] = refl
append_nothing (c ∷ w) = ap (◌∷◌ c) (append_nothing w)

append_twice : (w p q : Bytes) → (w ++ p) ++ q ≡ w ++ (p ++ q)
append_twice [] p q = refl
append_twice (c ∷ w) p q = ap (◌∷◌ c) (append_twice w p q)

keeper-IsSink : IsSink keeper (λ w. none) (λ w p. w ++ p)
keeper-IsSink = record {
  takes = λ w p. refl;
  closes = λ w. refl;
  absorb_nothing = append_nothing;
  absorb_twice = append_twice;
}

abbrev in_order : Completion (Option (WriteError ℕ))
in_order = record { visit = λ os. os; visits_all = Permᴰ.refl }

abbrev two_writers : Bytes → List Bytes
two_writers name = name ∷ [] ∷ []

abbrev part : Part ℕ
part = record {
  file_name = codes "f";
  stream = record { pieces = codes "ab" ∷ codes "c" ∷ []; read_error = none };
}

read_files_from_stream-delivered_example :
    read_files_from_stream keeper
      (λ w. none)
      in_order
      (λ name. inr (two_writers name))
      none
      (part ∷ [])
    ≡ some ((codes "fabc" ∷ codes "abc" ∷ []) ∷ [], [])
read_files_from_stream-delivered_example =
    read_files_from_stream-delivered keeper (λ w. none) (λ w p. w ++ p) keeper-IsSink in_order
      (λ name. inr (two_writers name)) two_writers none (part ∷ []) (λ name. refl) (refl, tt)

-- A message as the texts written to it.
abbrev texts : Multipart (List Bytes) ℕ
texts = record {
  create_form_file = λ m type name. (m ++ (type ∷ name ∷ []), none);
  create_form_field = λ m type. (m ++ (type ∷ []), none);
  write_part = λ m p. some (m ++ (p ∷ []), none);
  close_message = λ m. (m, some 8);
}

-- The file "x" is missing.
abbrev open_file : Bytes → ℕ ⊎ OpenFile ℕ
open_file path =
    if same_bytes path (codes "x")
    then inl 2
    else inr
        (record { stream = record { pieces = path ∷ []; read_error = none }; close_error = none })

abbrev json : MultipartError → ℕ ⊎ Bytes
json e = inr (e.file_name ++ e.err_message)

abbrev message_of : List (StreamError ℕ) → Bytes
message_of es = codes "!"

abbrev file : Bytes → FileInfo
file name = record { name = name; path = name }

one-Sent :
    Sent texts open_file json message_of []
      (file (codes "a") ∷ [])
      (codes "file" ∷ codes "a" ∷ codes "a" ∷ [])
unfolding write_file copy same_bytes
one-Sent = then_sent refl nothing_sent

write_files_to_stream-write_err_example :
    write_files_to_stream texts open_file json message_of []
      (file (codes "a") ∷ file (codes "x") ∷ file (codes "b") ∷ [])
    ≡ some (
      codes "file" ∷ codes "a" ∷ codes "a" ∷ codes "error" ∷ codes "x!" ∷ [],
      failed_opening (codes "x") 2 ∷ failed_to_close 8 ∷ [],
    )
unfolding write_files_to_stream write_file copy same_bytes
write_files_to_stream-write_err_example =
    write_files_to_stream-write_err texts open_file json message_of []
      (codes "file" ∷ codes "a" ∷ codes "a" ∷ []) (codes "file" ∷ codes "a" ∷ codes "a" ∷ [])
      (file (codes "a") ∷ []) (file (codes "b") ∷ []) (file (codes "x"))
      (failed_opening (codes "x") 2) [] one-Sent refl
