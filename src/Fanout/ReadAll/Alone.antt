-- ===== src/Fanout/ReadAll/Alone.antt =====
-- fanout/readall_reader.go: what the pipes come to, against each consumer on its own.
use gofrog.Prelude.{
  ◌≡◌, refl, List, [], ◌∷◌, Bool, true, false, ◌&&◌, if◌then◌else◌, Option, none, some, Bytes, ◌⊎◌,
  arith,
}
use gofrog.Fanout.ReadAll.{
  goes_on, returns, Consumer, Pipe, reading, closed, write_pipe, write_pipes, copy_to, outcome,
  outcomes,
}

abbrev pub no_pieces : List Bytes → Bool
no_pieces [] = true
no_pieces (_ ∷ _) = false

module _ {C A X : Type 0} (consumer : Consumer C A X) where
  -- A consumer with a stream of its own: its outcome if it takes all pieces, and none if it returns before.
  unfoldable pub alone : List Bytes → C → Option (X ⊎ A)
  alone [] c = some (consumer.finish c)
  alone (p ∷ ps) c = elim (consumer.take_piece c p) [
    | goes_on c' ↦ alone ps c'
    | returns all r ↦ if all && no_pieces ps then some r else none
  ]

  unfoldable pub pipe_alone : List Bytes → Pipe C A X → Option (X ⊎ A)
  unfolding alone
  pipe_alone ps (reading c) = alone ps c
  pipe_alone ps (closed r) = if no_pieces ps then some r else none

  unfoldable pub add_outcome : Option (X ⊎ A) → Option (List (X ⊎ A)) → Option (List (X ⊎ A))
  add_outcome (some o) (some os) = some (o ∷ os)
  add_outcome (some o) none = none
  add_outcome none os = none

  unfoldable pub pipes_alone : List Bytes → List (Pipe C A X) → Option (List (X ⊎ A))
  unfolding pipe_alone add_outcome
  pipes_alone ps [] = some []
  pipes_alone ps (q ∷ qs) = add_outcome (pipe_alone ps q) (pipes_alone ps qs)

  pipe_alone-write_pipe :
      (p : Bytes) (ps : List Bytes) (q : Pipe C A X)
      → pipe_alone (p ∷ ps) q
        ≡ (if (write_pipe consumer p q).1 then pipe_alone ps (write_pipe consumer p q).0 else none)
  unfolding pipe_alone alone write_pipe
  pipe_alone-write_pipe p ps (closed r) = refl
  pipe_alone-write_pipe p ps (reading c) = ground arith

  pipes_alone-write_pipes :
      (p : Bytes) (ps : List Bytes) (qs : List (Pipe C A X))
      → pipes_alone (p ∷ ps) qs ≡ (
          if (write_pipes consumer p qs).1
          then pipes_alone ps (write_pipes consumer p qs).0
          else none)
  unfolding pipes_alone write_pipes add_outcome
  pipes_alone-write_pipes p ps [] = refl
  pipes_alone-write_pipes p ps (q ∷ qs) =
      ground (arith, pipe_alone-write_pipe p ps q, pipes_alone-write_pipes p ps qs)

  pipes_alone-outcomes : (qs : List (Pipe C A X)) → pipes_alone [] qs ≡ some (outcomes consumer qs)
  unfolding pipes_alone pipe_alone alone outcomes outcome add_outcome
  pipes_alone-outcomes [] = refl
  pipes_alone-outcomes (reading c ∷ qs) = ground (arith, pipes_alone-outcomes qs)
  pipes_alone-outcomes (closed r ∷ qs) = ground (arith, pipes_alone-outcomes qs)

  -- The copy ends without an error exactly when the stream does and every consumer takes all pieces.
  pub pipes_alone-copy_to :
      (ps : List Bytes) (qs : List (Pipe C A X))
      → pipes_alone ps qs ≡ elim (copy_to consumer none ps qs).1 [
        | none ↦ some (outcomes consumer (copy_to consumer none ps qs).0)
        | some _ ↦ none
      ]
  unfolding copy_to
  pipes_alone-copy_to [] qs = pipes_alone-outcomes qs
  pipes_alone-copy_to (p ∷ ps) qs =
      ground (
        arith,
        pipes_alone-write_pipes p ps qs,
        pipes_alone-copy_to ps (write_pipes consumer p qs).0,
      )
