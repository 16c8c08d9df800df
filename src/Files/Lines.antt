-- ===== src/Files/Lines.antt =====
-- io/fileutils.go: ReadNLines. What bufio's ReadLine returns, call by call, is a parameter: a line or, when
-- it is longer than the buffer, a piece of one with the flag isPrefix, and then an error, which is EOF when
-- nothing is left. X is the type of the errors, and
-- a joined error is the list of its parts.
pub mod Taken
mod Tests
use gofrog.Prelude.{
  parts, Bool, ℕ, zero, suc, ℤ, pos, negsuc, List, [], ◌∷◌, ◌++◌, Option, none, some, Bytes, inl,
  inr, ◌⊎◌,
}

pub data ReadEnd (X : Type 0) : Type 0 where
  eof : ReadEnd X
  of_os : X → ReadEnd X

-- What ReadLine returns: the text, and whether more of the line follows.
pub record ReadLine : Type 0 where
  pub line : Bytes
  pub is_prefix : Bool

-- The results of the calls, the error of the call after them, and that of Close.
pub record LineReader (X : Type 0) : Type 0 where
  pub results : List ReadLine
  pub last : ReadEnd X
  pub close_error : Option X

-- What is left when the counter is below the bound.
abbrev pub rounds : ℤ → ℕ
rounds (pos n) = n
rounds (negsuc n) = 0

module _ {X : Type 0} where
  -- A line, though it is empty, also stands for the call that fails.
  ended : ReadEnd X → List Bytes × List X
  ended eof = ([] ∷ [], [])
  ended (of_os e) = ([] ∷ [], e ∷ [])

  add_line : Bytes → List Bytes × List X → List Bytes × List X
  add_line line (lines, errors) = (line ∷ lines, errors)

  -- The flag is dropped.
  unfoldable pub read_lines : ℕ → List ReadLine → ReadEnd X → List Bytes × List X
  unfolding ended add_line
  read_lines zero results last = ([], [])
  read_lines (suc n) [] last = ended last
  read_lines (suc n) (r ∷ results) last = add_line r.line (read_lines n results last)

  -- The deferred Close.
  unfoldable pub read_n_lines : X ⊎ LineReader X → ℤ → List Bytes × List X
  unfolding read_lines
  read_n_lines (inl e) total = ([], e ∷ [])
  read_n_lines (inr reader) total =
      let (lines, errors) = read_lines (rounds total) reader.results reader.last in
      (lines, errors ++ parts reader.close_error)
