-- ===== src/Filestream/Received.antt =====
-- http/filestream/filestream.go: each writer gets the whole content of its file.
use gofrog.Prelude.{
  ◌≡◌, ◌≢◌, refl, List, [], ◌∷◌, ◌++◌, true, Option, none, some, pos, ℤ, length, Bytes, Completion,
  All, inr, ◌⊎◌, arith,
}
use gofrog.Streams.{content, copy, copy_pieces, after_piece}
use gofrog.MultiWriter.{WriteError, Writer, async_multi_writer, write_all}
use gofrog.MultiWriter.Written.{all_take, write-all_take}
use gofrog.Filestream.{StreamError, failed_to_read, close_into}
use gofrog.Filestream.Reading.{
  Part, write_to, close_all, written, read_file, after_part, read_files_from_stream,
}

-- A writer that takes every piece and puts it behind what it has, and is closed without an error.
pub record IsSink {W X : Type 0} (writer : Writer W X) (close_writer : W → Option X)
    (absorb : W → Bytes → W) : Type 0 where
  pub takes : (w : W) (p : Bytes) → writer.write_piece w p ≡ (absorb w p, length p, none)
  pub closes : (w : W) → close_writer w ≡ none
  pub absorb_nothing : (w : W) → absorb w [] ≡ w
  pub absorb_twice : (w : W) (p q : Bytes) → absorb (absorb w p) q ≡ absorb w (p ++ q)

-- Every writer has taken a text.
abbrev pub absorb_each : {W : Type 0} → (W → Bytes → W) → Bytes → List W → List W
absorb_each absorb p [] = []
absorb_each absorb p (w ∷ ws) = absorb w p ∷ absorb_each absorb p ws

module _ {W X : Type 0} (writer : Writer W X) (close_writer : W → Option X) (absorb : W → Bytes → W)
    (sink : IsSink writer close_writer absorb) where
  absorb_each-nothing : (ws : List W) → absorb_each absorb [] ws ≡ ws
  absorb_each-nothing [] = refl
  absorb_each-nothing (w ∷ ws) = ground (arith, sink.absorb_nothing w, absorb_each-nothing ws)

  absorb_each-twice :
      (p q : Bytes) (ws : List W)
      → absorb_each absorb q (absorb_each absorb p ws) ≡ absorb_each absorb (p ++ q) ws
  absorb_each-twice p q [] = refl
  absorb_each-twice p q (w ∷ ws) = ground (arith, sink.absorb_twice w p q, absorb_each-twice p q ws)

  write_all-absorb_each :
      (p : Bytes) (ws : List W) → write_all writer p ws ≡ absorb_each absorb p ws
  unfolding write_all
  write_all-absorb_each p [] = refl
  write_all-absorb_each p (w ∷ ws) = ground (arith, sink.takes w p, write_all-absorb_each p ws)

  all_take-sink : (p : Bytes) (ws : List W) → all_take writer p ws ≡ true
  all_take-sink p [] = refl
  all_take-sink p (w ∷ ws) = ground (arith, sink.takes w p, all_take-sink p ws)

  module _ (order : Completion (Option (WriteError X))) (writers_func : Bytes → X ⊎ List W) where
    close_all-sink : (ws : List W) → close_all writer close_writer order writers_func ws [] ≡ []
    unfolding close_all close_into
    close_all-sink [] = refl
    close_all-sink (w ∷ ws) = ground (arith, sink.closes w, close_all-sink ws)

    write_to-absorb_each :
        (ws : List W) (limit : ℤ) (p : Bytes)
        → limit ≢ pos 0
        → write_to writer close_writer order writers_func (record { writers = ws; limit = limit }) p
          ≡ some (record { writers = absorb_each absorb p ws; limit = limit }, none)
    unfolding write_to
    write_to-absorb_each ws limit p h = ground (
      arith,
      write-all_take writer order ws limit p h,
      all_take-sink p ws,
      write_all-absorb_each p ws,
    )

    copy-absorb_each :
        (end : Option (WriteError X)) (pieces : List Bytes) (ws : List W) (limit : ℤ)
        → limit ≢ pos 0
        → copy_pieces
            (write_to writer close_writer order writers_func)
            end
            pieces
            (record { writers = ws; limit = limit })
          ≡ some (record { writers = absorb_each absorb (content pieces) ws; limit = limit }, end)
    unfolding copy_pieces after_piece
    copy-absorb_each end [] ws limit h = ground (arith, absorb_each-nothing ws)
    copy-absorb_each end (p ∷ pieces) ws limit h = ground (
      arith,
      write_to-absorb_each ws limit p h,
      copy-absorb_each end pieces (absorb_each absorb p ws) limit h,
      absorb_each-twice p (content pieces) ws,
    )

    read_file-absorb_each :
        (part : Part X) (ws : List W)
        → writers_func part.file_name ≡ inr ws
        → part.stream.read_error ≡ none
        → read_file writer close_writer order writers_func part
          ≡ some (absorb_each absorb (content part.stream.pieces) ws, [])
    unfolding read_file written copy async_multi_writer
    read_file-absorb_each part ws made ended = ground (
      arith,
      copy-absorb_each part.stream.read_error part.stream.pieces ws (pos 10) (ground arith),
      close_all-sink (absorb_each absorb (content part.stream.pieces) ws),
    )

    abbrev pub delivered : (Bytes → List W) → List (Part X) → List (List W)
    delivered made [] = []
    delivered made (part ∷ ps) =
        absorb_each absorb (content part.stream.pieces) (made part.file_name) ∷ delivered made ps

    abbrev pub end_errors : Option X → List (StreamError X)
    end_errors none = []
    end_errors (some e) = failed_to_read e ∷ []

    -- When the writers of every file can be made, take every piece and are closed without an error,
    -- and every part is read to its end, then each writer of each part gets the whole content of
    -- the part, in whatever pieces it is read and whatever order the writers end in, and the only
    -- error is that of reading the next part, if there is one.
    pub read_files_from_stream-delivered :
        (made : Bytes → List W) (end : Option X) (ps : List (Part X))
        → ((name : Bytes) → writers_func name ≡ inr (made name))
        → All (λ part. part.stream.read_error ≡ none) ps
        → read_files_from_stream writer close_writer order writers_func end ps
          ≡ some (delivered made ps, end_errors end)
    unfolding read_files_from_stream after_part
    read_files_from_stream-delivered made none [] h ended = refl
    read_files_from_stream-delivered made (some e) [] h ended = refl
    read_files_from_stream-delivered made none (part ∷ ps) h ended = ground (
      arith,
      read_file-absorb_each part (made part.file_name) (h part.file_name) ended.0,
      read_files_from_stream-delivered made none ps h ended.1,
    )
    read_files_from_stream-delivered made (some e) (part ∷ ps) h ended = ground (
      arith,
      read_file-absorb_each part (made part.file_name) (h part.file_name) ended.0,
      read_files_from_stream-delivered made (some e) ps h ended.1,
    )
