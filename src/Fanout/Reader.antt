-- ===== src/Fanout/Reader.antt =====
-- fanout/reader.go: each read of the source is handed to every consumer. X is the type of errors; the
-- order in which the consumers end is a parameter. A consumer reads once from its pipe, with room
-- for all that was read from the source.
mod Delivered
mod Tests
use gofrog.Prelude.{
  ℕ, List, [], ◌∷◌, Bool, true, false, not, ◌||◌, ◌&&◌, if◌then◌else◌, Option, none, some, Bytes,
  Completion,
}

pub record Reader (X : Type 0) : Type 0 where
  pub consumers : List (Bytes → Option X)
  -- Whether the writing ends of the pipes are closed.
  pub closed : Bool

-- What a read of the source returns: the bytes, and the error.
pub record SourceRead (X : Type 0) : Type 0 where
  pub bytes_read : Bytes
  pub read_error : Option X

pub data FanError (X : Type 0) : Type 0 where
  of_source of_consumer : X → FanError X
  eof closed_pipe : FanError X

module _ {X : Type 0} where
  unfoldable pub new_reader : List (Bytes → Option X) → Reader X
  new_reader consumers = record { consumers = consumers; closed = false }

  -- The first pipe that is written to, if there is one, refuses when it is closed.
  write_pipes : Bool → List (Bytes → Option X) → Option (FanError X)
  write_pipes is_closed [] = none
  write_pipes is_closed (_ ∷ _) = if is_closed then some closed_pipe else none

  -- The error of the goroutine that reads the source and writes to the pipes.
  unfoldable pub fan_error : Reader X → SourceRead X → Option (FanError X)
  unfolding write_pipes
  fan_error r source = elim source.read_error [
    | some e ↦ some (of_source e)
    | none ↦ write_pipes r.closed r.consumers
  ]

  -- The piece that is written to the pipes, if there is one.
  unfoldable pub written : Reader X → SourceRead X → Option Bytes
  written r source = elim source.read_error [
    | some _ ↦ none
    | none ↦ if r.closed then none else some source.bytes_read
  ]

  of_consumer_error : Option X → Option (FanError X)
  of_consumer_error none = none
  of_consumer_error (some e) = some (of_consumer e)

  -- The outcome of one consumer: it reads the piece, or the end of a pipe that nothing was written to and that
  -- is closed; from one that stays open nothing comes, and none is no outcome.
  unfoldable pub message : Bool → Option Bytes → (Bytes → Option X) → Option (Option (FanError X))
  unfolding of_consumer_error
  message is_closed (some p) consumer = some (of_consumer_error (consumer p))
  message is_closed none consumer = if is_closed then some (some eof) else none

  add_message :
      Option (Option (FanError X))
      → Option (List (Option (FanError X)))
      → Option (List (Option (FanError X)))
  add_message none ms = none
  add_message (some m) none = none
  add_message (some m) (some ms) = some (m ∷ ms)

  unfoldable pub messages :
      Bool → Option Bytes → List (Bytes → Option X) → Option (List (Option (FanError X)))
  unfolding message add_message
  messages is_closed piece [] = some []
  messages is_closed piece (c ∷ cs) =
      add_message (message is_closed piece c) (messages is_closed piece cs)

  -- The loop over `errs` and `done`.
  unfoldable pub last_error : Option (FanError X) → List (Option (FanError X)) → Option (FanError X)
  last_error e [] = e
  last_error e (none ∷ ms) = last_error e ms
  last_error e (some m ∷ ms) = last_error (some m) ms

  -- Closing the writers reports no error: the code keeps one only after it has one.
  unfoldable pub close : Reader X → Reader X
  close r = record r { closed = true }

  -- The loop of `Read`, once every consumer has an outcome.
  unfoldable pub outcome :
      Completion (Option (FanError X))
      → Reader X
      → Option (FanError X)
      → Option (List (Option (FanError X)))
      → Option (Reader X × ℕ × Option (FanError X))
  unfolding last_error
  outcome order r e none = none
  outcome order r e (some ms) = some (r, 0, last_error e (order.visit ms))

  -- The number that `Read` returns is that of its own variable, which the goroutine's hides. The writers are
  -- closed when the goroutine ends; none waits for ever.
  unfoldable pub read :
      Completion (Option (FanError X))
      → Reader X
      → SourceRead X
      → Option (Reader X × ℕ × Option (FanError X))
  read order r source =
      let r' = close r in
      outcome order r' (fan_error r source) (messages r'.closed (written r source) r.consumers)
