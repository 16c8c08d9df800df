-- ===== src/Files/Lines/Tests.antt =====
-- Runs of ReadNLines, and its theorem at a concrete input.
use gofrog.Prelude.{true, false, ◌≡◌, refl, ℕ, pos, [], ◌∷◌, some, codes, inl}
use gofrog.Files.Lines.{eof, LineReader, read_n_lines}

abbrev one_line : LineReader ℕ
one_line = record {
  results =
      record { line = codes "a"; is_prefix = true }
      ∷ record { line = codes "b"; is_prefix = false }
      ∷ [];
  last = eof;
  close_error = some 9;
}

missing : read_n_lines {X = ℕ} (inl 2) (pos 1) ≡ ([], 2 ∷ [])
unfolding read_n_lines
missing = refl
