-- ===== src/MultiWriter.antt =====
-- io/multiwriter.go: a writer that gives every piece to several writers at once. The writers share
-- nothing, so their states stand in a list; the order in which they end is a parameter. W is the
-- state of a writer and X the type of its errors; none is a call that never returns.
pub mod Written
mod Tests
use gofrog.Prelude.{
  ℕ, ◌≡◌, refl, List, [], ◌∷◌, Bool, true, false, ◌&&◌, not, ◌==◌, if◌then◌else◌, length, Option,
  none, some, ℤ, pos, eqb_ℤ, Bytes, Completion,
}

pub data WriteError (X : Type 0) : Type 0 where
  short_write : WriteError X
  of_writer : X → WriteError X

-- What a writer does with a piece: its state then, the number it returns, and its error.
pub record Writer (W X : Type 0) : Type 0 where
  pub write_piece : W → Bytes → W × ℕ × Option X

pub record AsyncMultiWriter (W : Type 0) : Type 0 where
  pub writers : List W
  pub limit : ℤ

unfoldable pub async_multi_writer : {W : Type 0} → ℤ → List W → AsyncMultiWriter W
async_multi_writer limit writers = record { writers = writers; limit = limit }

-- The group keeps the first error.
unfoldable pub first_error : {X : Type 0} → List (Option (WriteError X)) → Option (WriteError X)
first_error [] = none
first_error (some e ∷ os) = some e
first_error (none ∷ os) = first_error os

is_nil : {W : Type 0} → List W → Bool
is_nil [] = true
is_nil (_ ∷ _) = false

module _ {W X : Type 0} (writer : Writer W X) where
  -- The function that the group runs, by what the writer returns.
  check_written : Bytes → ℕ → Option X → Option (WriteError X)
  check_written p n (some e) = some (of_writer e)
  check_written p n none = if not (n == length p) then some short_write else none

  unfoldable pub outcome : Bytes → W → Option (WriteError X)
  unfolding check_written
  outcome p w = check_written p (writer.write_piece w p).1 (writer.write_piece w p).2

  unfoldable pub write_all : Bytes → List W → List W
  write_all p [] = []
  write_all p (w ∷ ws) = (writer.write_piece w p).0 ∷ write_all p ws

  unfoldable pub outcomes : Bytes → List W → List (Option (WriteError X))
  unfolding outcome
  outcomes p [] = []
  outcomes p (w ∷ ws) = outcome p w ∷ outcomes p ws

  -- A group with the limit 0 starts no function, and waits for ever to do so.
  unfoldable pub write :
      Completion (Option (WriteError X))
      → AsyncMultiWriter W
      → Bytes
      → Option (AsyncMultiWriter W × ℕ × Option (WriteError X))
  unfolding write_all outcomes first_error is_nil
  write order amw p =
      if eqb_ℤ amw.limit (pos 0) && not (is_nil amw.writers)
      then none
      else some (
        record amw { writers = write_all p amw.writers },
        length p,
        first_error (order.visit (outcomes p amw.writers)),
      )
