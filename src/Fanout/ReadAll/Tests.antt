-- ===== src/Fanout/ReadAll/Tests.antt =====
-- Runs of fanout/readall_reader.go, and its theorem at a concrete input.
use mathlib.Core.List.Permᴰ
use gofrog.Prelude.{
  ℕ, ◌+◌, ◌≡◌, ◌↔◌, refl, List, [], ◌∷◌, true, Option, none, some, Completion, codes, length,
  if◌then◌else◌, inl, inr, ◌⊎◌, ltb,
}
use gofrog.Streams.{Stream}
use gofrog.Fanout.ReadAll.{
  goes_on, returns, Consumer, multi_writer_error, read_all, write_pipe, write_pipes, copy_to,
  outcome, outcomes, from_position, receive, receive_all, nil_results, get_all_readers_result,
  all_reading,
}
use gofrog.Fanout.ReadAll.Alone.{alone}
use gofrog.Fanout.ReadAll.Results.{each_alone, read_all-each_alone}

-- Counts bytes; the state holds the count so far, and the count at which it returns early, if any.
abbrev counter : Consumer (ℕ × Option ℕ) ℕ ℕ
counter = record {
  take_piece = λ s p. elim s.1 [
    | none ↦ goes_on (s.0 + length p, none)
    | some m ↦
        if ltb (s.0 + length p) m
        then goes_on (s.0 + length p, some m)
        else returns true (inr (s.0 + length p))
  ];
  finish = λ s. inr s.0;
}

-- The last message arrives first.
abbrev backwards : Completion (ℕ × (ℕ ⊎ ℕ))
backwards = record { visit = swap_two; visits_all = swap_two-perm }
  where
    swap_two : List (ℕ × (ℕ ⊎ ℕ)) → List (ℕ × (ℕ ⊎ ℕ))
    swap_two (a ∷ b ∷ ms) = b ∷ a ∷ ms
    swap_two ms = ms

    swap_two-perm : (ms : List (ℕ × (ℕ ⊎ ℕ))) → Permᴰ.Permᴰ (swap_two ms) ms
    swap_two-perm [] = Permᴰ.nil
    swap_two-perm (a ∷ []) = Permᴰ.refl (a ∷ [])
    swap_two-perm (a ∷ b ∷ ms) = Permᴰ.swap refl refl

abbrev stream : Stream ℕ
stream = record { pieces = codes "ab" ∷ codes "c" ∷ []; read_error = none }

abbrev program : Unit {0}
unfolding read_all write_pipe write_pipes copy_to outcome outcomes from_position receive receive_all
    nil_results get_all_readers_result all_reading each_alone alone
program = tt

both : read_all counter backwards ((0, none) ∷ (10, none) ∷ []) stream ≡ inr (some 3 ∷ some 13 ∷ [])
unfolding program
both = refl

-- The first consumer returns after the first piece.
early :
    read_all counter backwards ((0, some 2) ∷ (10, none) ∷ []) stream
    ≡ inl (multi_writer_error none)
unfolding program
early = refl

read_all-each_alone_example :
    (read_all counter backwards ((0, none) ∷ (10, none) ∷ []) stream ≡ inr (some 3 ∷ some 13 ∷ []))
    ↔ ((stream.read_error ≡ none)
        × (each_alone counter stream.pieces ((0, none) ∷ (10, none) ∷ [])
            ≡ some (some 3 ∷ some 13 ∷ [])))
read_all-each_alone_example =
    read_all-each_alone counter backwards ((0, none) ∷ (10, none) ∷ []) stream
      (some 3 ∷ some 13 ∷ [])
