-- ===== src/Files/Lines/Taken.antt =====
-- io/fileutils.go: what ReadNLines returns.
use gofrog.Prelude.{List, [], ◌∷◌, Bytes}
use gofrog.Files.Lines.{ReadEnd, eof, of_os, ReadLine}

-- The texts without the flags.
abbrev pub texts : List ReadLine → List Bytes
texts [] = []
texts (r ∷ results) = r.line ∷ texts results

module _ {X : Type 0} where
  -- EOF is no error.
  abbrev pub end_errors : ReadEnd X → List X
  end_errors eof = []
  end_errors (of_os e) = e ∷ []
