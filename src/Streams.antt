-- ===== src/Streams.antt =====
-- Go's io.Copy, from a stream of pieces to a writer, and errors.Join. S is the state behind the writer,
-- X the type of the errors; none is a call that never returns.
use gofrog.Prelude.{List, [], ◌∷◌, ◌++◌, Option, none, some, Bytes}

-- The pieces that a reader yields, and the error that ends it unless it ends with EOF.
pub record Stream (X : Type 0) : Type 0 where
  pub pieces : List Bytes
  pub read_error : Option X

-- All that the stream yields.
abbrev pub content : List Bytes → Bytes
content [] = []
content (p ∷ ps) = p ++ content ps

-- A joined error is the list of its parts, and nil the empty list.
abbrev pub join : {X : Type 0} → List X → Option X → List X
join errors none = errors
join errors (some e) = errors ++ e ∷ []

module _ {S X : Type 0} (write : S → Bytes → Option (S × Option X)) where
  unfoldable pub after_piece :
      (S → Option (S × Option X)) → Option (S × Option X) → Option (S × Option X)
  after_piece next none = none
  after_piece next (some (s, some e)) = some (s, some e)
  after_piece next (some (s, none)) = next s

  unfoldable pub copy_pieces : Option X → List Bytes → S → Option (S × Option X)
  unfolding after_piece
  copy_pieces end [] s = some (s, end)
  copy_pieces end (p ∷ ps) s = after_piece (copy_pieces end ps) (write s p)

  unfoldable pub copy : Stream X → S → Option (S × Option X)
  unfolding copy_pieces
  copy stream s = copy_pieces stream.read_error stream.pieces s
