-- ===== src/MultiWriter/Written.antt =====
-- io/multiwriter.go: what a write to several writers comes to, in whatever order they end.
use mathlib.Core.List.{Permᴰ}
use gofrog.Prelude.{
  map, ◌≡◌, ◌≢◌, refl, ◌∙◌, ◌↔◌, List, [], ◌∷◌, Bool, true, false, ◌&&◌, ◌==◌, length, Option, none,
  some, ℤ, pos, Bytes, Completion, arith,
}
use gofrog.MultiWriter.{
  WriteError, Writer, check_written, outcome, write_all, outcomes, first_error, write,
}

module _ {W X : Type 0} (writer : Writer W X) where
  -- A writer has taken the whole piece and reports no error.
  abbrev pub takes_all : Bytes → W → Bool
  takes_all p w = elim (writer.write_piece w p).2 [
    | some _ ↦ false
    | none ↦ (writer.write_piece w p).1 == length p
  ]

  abbrev pub all_take : Bytes → List W → Bool
  all_take p [] = true
  all_take p (w ∷ ws) = takes_all p w && all_take p ws

  is_none : Option (WriteError X) → Bool
  is_none none = true
  is_none (some _) = false

  all_none : List (Option (WriteError X)) → Bool
  unfolding is_none
  all_none [] = true
  all_none (o ∷ os) = is_none o && all_none os

  all_none-perm : {m n : List (Option (WriteError X))} → Permᴰ m n → all_none m ≡ all_none n
  unfolding all_none
  all_none-perm Permᴰ.nil = refl
  all_none-perm (Permᴰ.cons e p) = ground (arith, all_none-perm p)
  all_none-perm (Permᴰ.swap e f) = ground arith
  all_none-perm (Permᴰ.trans p q) = all_none-perm p ∙ all_none-perm q

  first_error-all_none :
      (os : List (Option (WriteError X))) → is_none (first_error os) ≡ all_none os
  unfolding first_error all_none is_none
  first_error-all_none [] = refl
  first_error-all_none (some e ∷ os) = refl
  first_error-all_none (none ∷ os) = first_error-all_none os

  is_none-outcome : (p : Bytes) (w : W) → is_none (outcome writer p w) ≡ takes_all p w
  unfolding outcome check_written is_none
  is_none-outcome p w = ground arith

  all_none-outcomes : (p : Bytes) (ws : List W) → all_none (outcomes writer p ws) ≡ all_take p ws
  unfolding outcomes all_none
  all_none-outcomes p [] = refl
  all_none-outcomes p (w ∷ ws) = ground (arith, is_none-outcome p w, all_none-outcomes p ws)

  is_none_iff : (o : Option (WriteError X)) → (is_none o ≡ true) ↔ (o ≡ none)
  unfolding is_none
  is_none_iff none = ground arith
  is_none_iff (some e) = ground arith

  write_all-map :
      (p : Bytes) (ws : List W) → write_all writer p ws ≡ map (λ w. (writer.write_piece w p).0) ws
  unfolding write_all
  write_all-map p [] = refl
  write_all-map p (w ∷ ws) = ground (arith, write_all-map p ws)

  -- With a limit other than 0 a write returns, whatever order the writers end in: each writer has been
  -- given the whole piece once, the number returned is its length, and there is no error
  -- exactly when every writer has taken the whole piece and reported none.
  pub write-all_take :
      (order : Completion (Option (WriteError X))) (ws : List W) (limit : ℤ) (p : Bytes)
      → limit ≢ pos 0
      → (e : Option (WriteError X)) × (write writer order (record { writers = ws; limit = limit }) p
          ≡ some (
            record { writers = map (λ w. (writer.write_piece w p).0) ws; limit = limit },
            length p,
            e,
          ))
        × ((e ≡ none) ↔ (all_take p ws ≡ true))
  unfolding write
  write-all_take order ws limit p h = (
    first_error (order.visit (outcomes writer p ws)),
    rw (← write_all-map p ws) (ground arith),
    ground (
      arith,
      is_none_iff (first_error (order.visit (outcomes writer p ws))),
      first_error-all_none (order.visit (outcomes writer p ws)),
      all_none-perm (order.visits_all (outcomes writer p ws)),
      all_none-outcomes p ws,
    ),
  )
