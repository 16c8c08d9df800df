-- ===== src/Fanout/ReadAll/Results.antt =====
-- fanout/readall_reader.go: `ReadAll` against the consumers one by one.
use gofrog.Prelude.{
  ℕ, ◌≡◌, refl, ◌↔◌, List, [], ◌∷◌, false, if◌then◌else◌, Option, none, some, Bytes, inl, inr, ◌⊎◌,
  arith, map, Completion,
}
use gofrog.Streams.{Stream}
use gofrog.Fanout.ReadAll.{Consumer, Pipe, write_pipes, copy_to, outcomes, all_reading, read_all}
use gofrog.Fanout.ReadAll.Alone.{alone, add_outcome, pipe_alone, pipes_alone, pipes_alone-copy_to}
use gofrog.Fanout.ReadAll.Collected.{is_nil, value, all_results, get_all_readers_result-value}

module _ {C A X : Type 0} (consumer : Consumer C A X) where
  add_result : Option (X ⊎ A) → Option (List (Option A)) → Option (List (Option A))
  add_result (some (inr a)) (some r) = some (some a ∷ r)
  add_result (some (inr a)) none = none
  add_result (some (inl e)) r = none
  add_result none r = none

  -- The results of consumers that each read the stream alone; none if one fails or returns early.
  unfoldable pub each_alone : List Bytes → List C → Option (List (Option A))
  unfolding alone add_result
  each_alone ps [] = some []
  each_alone ps (c ∷ cs) = add_result (alone consumer ps c) (each_alone ps cs)

  good_values : Option (List (X ⊎ A)) → Option (List (Option A))
  good_values none = none
  good_values (some os) = if all_results os then some (map value os) else none

  good_values-add_outcome :
      (o : Option (X ⊎ A)) (os : Option (List (X ⊎ A)))
      → good_values (add_outcome consumer o os) ≡ add_result o (good_values os)
  unfolding good_values add_outcome add_result
  good_values-add_outcome none os = refl
  good_values-add_outcome (some (inl e)) none = refl
  good_values-add_outcome (some (inl e)) (some os) = refl
  good_values-add_outcome (some (inr a)) none = refl
  good_values-add_outcome (some (inr a)) (some os) = ground arith

  each_alone-pipes_alone :
      (ps : List Bytes) (cs : List C)
      → each_alone ps cs ≡ good_values (pipes_alone consumer ps (all_reading cs))
  unfolding each_alone good_values pipes_alone pipe_alone all_reading
  each_alone-pipes_alone ps [] = refl
  each_alone-pipes_alone ps (c ∷ cs) = ground (
    arith,
    good_values-add_outcome (alone consumer ps c) (pipes_alone consumer ps (all_reading cs)),
    each_alone-pipes_alone ps cs,
  )

  copy_to-failure :
      (x : X) (ps : List Bytes) (qs : List (Pipe C A X))
      → is_nil (copy_to consumer (some x) ps qs).1 ≡ false
  unfolding copy_to
  copy_to-failure x [] qs = refl
  copy_to-failure x (p ∷ ps) qs = ground (arith, copy_to-failure x ps (write_pipes consumer p qs).0)

  ended :
      (order : Completion (ℕ × (X ⊎ A))) (cs : List C) (ps : List Bytes) (end : Option X)
      (r : List (Option A))
      → (read_all consumer order cs (record { pieces = ps; read_error = end }) ≡ inr r)
        ↔ ((end ≡ none) × (each_alone ps cs ≡ some r))
  unfolding read_all good_values
  ended order cs ps none r =
      let copied = copy_to consumer none ps (all_reading cs) in
      ground (
        arith,
        get_all_readers_result-value order (outcomes consumer copied.0) copied.1 r,
        each_alone-pipes_alone ps cs,
        pipes_alone-copy_to consumer ps (all_reading cs),
      )
  ended order cs ps (some x) r =
      let copied = copy_to consumer (some x) ps (all_reading cs) in
      ground (
        arith,
        get_all_readers_result-value order (outcomes consumer copied.0) copied.1 r,
        copy_to-failure x ps (all_reading cs),
      )

  -- `ReadAll` returns results exactly when the stream ends without an error and every consumer, reading the
  -- whole stream alone, takes all of it and returns a result; these are then the results, in the order of
  -- the consumers, in whatever order they arrive. A consumer that returns before the end of
  -- the stream, even with a result, makes the whole call fail.
  pub read_all-each_alone :
      (order : Completion (ℕ × (X ⊎ A))) (cs : List C) (stream : Stream X) (r : List (Option A))
      → (read_all consumer order cs stream ≡ inr r)
        ↔ ((stream.read_error ≡ none) × (each_alone stream.pieces cs ≡ some r))
  read_all-each_alone order cs stream r = ended order cs stream.pieces stream.read_error r
