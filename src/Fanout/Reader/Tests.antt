-- ===== src/Fanout/Reader/Tests.antt =====
-- Runs of fanout/reader.go, and its theorems at concrete inputs.
use mathlib.Core.List.Permᴰ
use gofrog.Prelude.{
  true, ◌≢◌, ◌⊎◌, ℕ, ◌≡◌, refl, [], ◌∷◌, Option, none, some, Bytes, Completion, codes, length, ◌==◌,
  if◌then◌else◌,
}
use gofrog.Fanout.Reader.{
  Reader, written, close, outcome, SourceRead, FanError, of_consumer, eof, new_reader, read,
  fan_error, message, messages, last_error,
}
use gofrog.Fanout.Reader.Delivered.{is_nil, all_accept, read-eof}

abbrev in_order : Completion (Option (FanError ℕ))
in_order = record { visit = λ ms. ms; visits_all = Permᴰ.refl }

abbrev accepting : Bytes → Option ℕ
accepting p = none

-- Fails on texts of two bytes.
abbrev choosy : Bytes → Option ℕ
choosy p = if length p == 2 then some 5 else none

abbrev good_source : SourceRead ℕ
good_source = record { bytes_read = codes "ab"; read_error = none }

abbrev bad_source : SourceRead ℕ
bad_source = record { bytes_read = codes "ab"; read_error = some 9 }

refused :
    read in_order (new_reader (accepting ∷ choosy ∷ [])) good_source
    ≡ some (record { consumers = accepting ∷ choosy ∷ []; closed = true }, 0, some (of_consumer 5))
unfolding read new_reader fan_error written messages message last_error close outcome
refused = refl

read-eof_example :
    (r : Reader ℕ) × (e : Option (FanError ℕ)) × (read in_order
        (new_reader (accepting ∷ []))
        bad_source
      ≡ some (r, 0, e))
    × (((bad_source.read_error ≢ none) × (e ≡ some eof))
        ⊎ ((bad_source.read_error ≡ none)
            × (is_nil e ≡ all_accept bad_source.bytes_read (accepting ∷ []))))
    × (read in_order r good_source ≡ some (r, 0, some eof))
read-eof_example = read-eof in_order accepting [] bad_source good_source
