-- ===== src/MultiWriter/Tests.antt =====
-- Runs of io/multiwriter.go, and its theorem at a concrete input.
use mathlib.Core.List.Permᴰ
use gofrog.Prelude.{
  map, ℕ, ◌≡◌, ◌↔◌, refl, List, [], ◌∷◌, ◌++◌, true, Option, none, some, Bytes, Completion, codes,
  length, ◌==◌, if◌then◌else◌, pos, arith,
}
use gofrog.MultiWriter.{
  WriteError, short_write, Writer, async_multi_writer, outcome, write_all, outcomes, first_error,
  write,
}
use gofrog.MultiWriter.Written.{all_take, write-all_take}

-- A file with a number of free places; it fails on texts of three bytes.
abbrev small_disk : Writer (Bytes × ℕ) ℕ
small_disk = record {
  write_piece = λ w p. if length p == 3 then (w, 0, some 28) else ((w.0 ++ p, w.1), w.1, none);
}

abbrev in_order : Completion (Option (WriteError ℕ))
in_order = record { visit = λ os. os; visits_all = Permᴰ.refl }

abbrev two : List (Bytes × ℕ)
two = ([], 2) ∷ ([], 2) ∷ []

short :
    (write small_disk in_order (async_multi_writer (pos 1) two) (codes "a"))
    ≡ some (
      record { writers = (codes "a", 2) ∷ (codes "a", 2) ∷ []; limit = pos 1 },
      1,
      some short_write,
    )
unfolding write async_multi_writer outcome write_all outcomes first_error
short = refl

stuck : write small_disk in_order (async_multi_writer (pos 0) two) (codes "ab") ≡ none
unfolding write async_multi_writer
stuck = refl

write-all_take_example :
    (e : Option (WriteError ℕ)) × (write small_disk in_order
        (record { writers = two; limit = pos 4 })
        (codes "ab")
      ≡ some (
        record {
          writers = map (λ w. (small_disk.write_piece w (codes "ab")).0) two;
          limit = pos 4;
        },
        length (codes "ab"),
        e,
      ))
    × ((e ≡ none) ↔ (all_take small_disk (codes "ab") two ≡ true))
write-all_take_example = write-all_take small_disk in_order two (pos 4) (codes "ab") (ground arith)
