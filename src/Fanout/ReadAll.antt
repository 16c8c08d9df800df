-- ===== src/Fanout/ReadAll.antt =====
-- fanout/readall_reader.go: every consumer reads the whole stream through a pipe of its own. A consumer
-- is a machine over the pieces: C is its state, A its result and X the type of errors. A consumer
-- that returns closes its pipe, so that the next write to it fails. The order in which the
-- results and errors arrive is a parameter.
mod Alone
mod Collected
mod Results
mod Tests
use gofrog.Prelude.{
  ℕ, zero, suc, List, [], ◌∷◌, ◌++◌, Bool, true, false, if◌then◌else◌, Option, none, some, Bytes,
  Completion, inl, inr, ◌⊎◌, put_at, length,
}
use gofrog.Streams.{Stream}

-- After a piece a consumer goes on, or it returns; then it has taken the whole piece or only a part.
pub data Taken (C A X : Type 0) : Type 0 where
  goes_on : C → Taken C A X
  returns : Bool → X ⊎ A → Taken C A X

-- What a consumer does with a piece, and at the end of the pipe.
pub record Consumer (C A X : Type 0) : Type 0 where
  pub take_piece : C → Bytes → Taken C A X
  pub finish : C → X ⊎ A

-- A pipe with the consumer behind it; a closed pipe's consumer has returned.
pub data Pipe (C A X : Type 0) : Type 0 where
  reading : C → Pipe C A X
  closed : X ⊎ A → Pipe C A X

-- The error of a consumer, and the one of the copy, by the error of the stream or a closed pipe.
pub data ReadError (X : Type 0) : Type 0 where
  of_consumer : X → ReadError X
  multi_writer_error : Option X → ReadError X

module _ {C A X : Type 0} (consumer : Consumer C A X) where
  -- A write to one pipe: the pipe then, and whether the write succeeds.
  unfoldable pub write_pipe : Bytes → Pipe C A X → Pipe C A X × Bool
  write_pipe p (closed r) = (closed r, false)
  write_pipe p (reading c) = elim (consumer.take_piece c p) [
    | goes_on c' ↦ (reading c', true)
    | returns all r ↦ (closed r, all)
  ]

  -- io.MultiWriter writes to one after another, and stops at the first that fails.
  unfoldable pub write_pipes : Bytes → List (Pipe C A X) → List (Pipe C A X) × Bool
  unfolding write_pipe
  write_pipes p [] = ([], true)
  write_pipes p (q ∷ qs) =
      let (q', good) = write_pipe p q in
      let (qs', goods) = write_pipes p qs in if good then (q' ∷ qs', goods) else (q' ∷ qs, false)

  -- The copy: the pipes when it ends, and its error.
  unfoldable pub copy_to :
      Option X → List Bytes → List (Pipe C A X) → List (Pipe C A X) × Option (ReadError X)
  unfolding write_pipes
  copy_to end [] qs = elim end [
    | none ↦ (qs, none)
    | some x ↦ (qs, some (multi_writer_error (some x)))
  ]
  copy_to end (p ∷ ps) qs =
      let (qs', good) = write_pipes p qs in
      let rest = copy_to end ps qs' in if good then rest else (qs', some (multi_writer_error none))

  -- The writers are closed, so the consumers that still read come to the end of their pipes.
  unfoldable pub outcome : Pipe C A X → X ⊎ A
  outcome (reading c) = consumer.finish c
  outcome (closed r) = r

  unfoldable pub outcomes : List (Pipe C A X) → List (X ⊎ A)
  unfolding outcome
  outcomes [] = []
  outcomes (q ∷ qs) = outcome q ∷ outcomes qs

-- The messages with the positions of their consumers.
unfoldable pub from_position : {M : Type 0} → ℕ → List M → List (ℕ × M)
from_position i [] = []
from_position i (m ∷ ms) = (i, m) ∷ from_position (suc i) ms

module _ {A X : Type 0} where
  -- What one message makes of the results and of the last error.
  unfoldable pub receive :
      ℕ × (X ⊎ A) → List (Option A) × Option (ReadError X) → List (Option A) × Option (ReadError X)
  receive (i, inl e) (results, last) = (results, some (of_consumer e))
  receive (i, inr a) (results, last) = (put_at results i (some a), last)

  unfoldable pub receive_all :
      List (ℕ × (X ⊎ A))
      → List (Option A) × Option (ReadError X)
      → List (Option A) × Option (ReadError X)
  unfolding receive
  receive_all [] s = s
  receive_all (m ∷ ms) s = receive_all ms (receive m s)

  unfoldable pub nil_results : List (X ⊎ A) → List (Option A)
  nil_results [] = []
  nil_results (_ ∷ os) = none ∷ nil_results os

  -- `getAllReadersResult`.
  unfoldable pub get_all_readers_result :
      Completion (ℕ × (X ⊎ A)) → List (X ⊎ A) → Option (ReadError X) → ReadError X ⊎ List (Option A)
  unfolding receive_all nil_results from_position
  get_all_readers_result order os failure =
      let (results, last) =
        receive_all (order.visit (from_position 0 os)) (nil_results os, failure) in
      elim last [ some e ↦ inl e | none ↦ inr results ]

unfoldable pub all_reading : {C A X : Type 0} → List C → List (Pipe C A X)
all_reading [] = []
all_reading (c ∷ cs) = reading c ∷ all_reading cs

unfoldable pub read_all :
    {C A X : Type 0}
    → Consumer C A X
    → Completion (ℕ × (X ⊎ A))
    → List C
    → Stream X
    → ReadError X ⊎ List (Option A)
unfolding copy_to outcomes get_all_readers_result all_reading
read_all consumer order consumers stream =
    let (qs, failure) = copy_to consumer stream.read_error stream.pieces (all_reading consumers) in
    get_all_readers_result order (outcomes consumer qs) failure
