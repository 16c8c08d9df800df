-- ===== src/Fanout/ReadAll/Collected.antt =====
-- fanout/readall_reader.go: the collection of results and errors, in whatever order they arrive.
use mathlib.Core.List.Permᴰ
use mathlib.Core.List.{Permᴰ, append_assoc}
use gofrog.Prelude.{
  ℕ, zero, suc, ◌≡◌, refl, ap, ◌∙◌, ◌↔◌, List, [], ◌∷◌, ◌++◌, Bool, true, false, ◌&&◌, Option, none,
  some, inl, inr, ◌⊎◌, arith, put_at, get_elem?, length, Completion, length-append, map,
}
use gofrog.Fanout.ReadAll.{
  ReadError, of_consumer, from_position, receive, receive_all, nil_results, get_all_readers_result,
}

abbrev pub is_nil : {X : Type 0} → Option (ReadError X) → Bool
is_nil none = true
is_nil (some _) = false

module _ {A X : Type 0} where
  -- Every message is a result, and there is no error yet.
  abbrev pub all_good : List (ℕ × (X ⊎ A)) → Bool
  all_good [] = true
  all_good ((i, inl e) ∷ ms) = false
  all_good ((i, inr a) ∷ ms) = all_good ms

  all_good-cons :
      (m : ℕ × (X ⊎ A)) (ms : List (ℕ × (X ⊎ A)))
      → all_good (m ∷ ms) ≡ (all_good (m ∷ []) && all_good ms)
  all_good-cons (i, inl e) ms = refl
  all_good-cons (i, inr a) ms = refl

  all_good-perm : {m n : List (ℕ × (X ⊎ A))} → Permᴰ m n → all_good m ≡ all_good n
  all_good-perm Permᴰ.nil = refl
  all_good-perm (Permᴰ.cons {a} {b} {l₁} {l₂} e p) =
      ground (arith, all_good-perm p, all_good-cons a l₁, all_good-cons b l₂)
  all_good-perm (Permᴰ.swap {a} {b} {a'} {b'} {l} e f) = ground (
    arith,
    all_good-cons a (b ∷ l),
    all_good-cons b l,
    all_good-cons a' (b' ∷ l),
    all_good-cons b' l,
  )
  all_good-perm (Permᴰ.trans p q) = all_good-perm p ∙ all_good-perm q

  receive_all-is_nil :
      (ms : List (ℕ × (X ⊎ A))) (s : List (Option A) × Option (ReadError X))
      → is_nil (receive_all ms s).1 ≡ (all_good ms && is_nil s.1)
  unfolding receive_all receive
  receive_all-is_nil [] s = refl
  receive_all-is_nil ((i, inl e) ∷ ms) (r, l) =
      ground (arith, receive_all-is_nil ms (r, some (of_consumer e)))
  receive_all-is_nil ((i, inr a) ∷ ms) (r, l) =
      ground (arith, receive_all-is_nil ms (put_at r i (some a), l))

  -- The results alone.
  place : ℕ × (X ⊎ A) → List (Option A) → List (Option A)
  place (i, inl e) r = r
  place (i, inr a) r = put_at r i (some a)

  collect : List (ℕ × (X ⊎ A)) → List (Option A) → List (Option A)
  unfolding place
  collect [] r = r
  collect (m ∷ ms) r = collect ms (place m r)

  receive_all-collect :
      (ms : List (ℕ × (X ⊎ A))) (r : List (Option A)) (l : Option (ReadError X))
      → (receive_all ms (r, l)).0 ≡ collect ms r
  unfolding receive_all receive collect place
  receive_all-collect [] r l = refl
  receive_all-collect ((i, inl e) ∷ ms) r l = receive_all-collect ms r (some (of_consumer e))
  receive_all-collect ((i, inr a) ∷ ms) r l = receive_all-collect ms (put_at r i (some a)) l

put_at_comm :
    {A : Type 0} (l : List A) (i j : ℕ) (a b : A)
    → (i ≡ j → a ≡ b)
    → put_at (put_at l i a) j b ≡ put_at (put_at l j b) i a
put_at_comm [] i j a b h = refl
put_at_comm (c ∷ l) zero zero a b h = ground (arith, h refl)
put_at_comm (c ∷ l) zero (suc j) a b h = refl
put_at_comm (c ∷ l) (suc i) zero a b h = refl
put_at_comm (c ∷ l) (suc i) (suc j) a b h = ap (◌∷◌ c) (put_at_comm l i j a b (λ e. h (ap suc e)))

module _ {A X : Type 0} (at : ℕ → Option (X ⊎ A)) where
  -- The messages are those of their positions.
  abbrev Agrees : List (ℕ × (X ⊎ A)) → Type 0
  Agrees [] = Unit
  Agrees (m ∷ ms) = (at m.0 ≡ some m.1) × Agrees ms

  Agrees-perm : {m n : List (ℕ × (X ⊎ A))} → Permᴰ m n → Agrees m → Agrees n
  Agrees-perm Permᴰ.nil h = tt
  Agrees-perm (Permᴰ.cons {a} {b} e p) h = (ground (arith, h.0), Agrees-perm p h.1)
  Agrees-perm (Permᴰ.swap e f) h = (ground (arith, h.1.0), (ground (arith, h.0), h.1.1))
  Agrees-perm (Permᴰ.trans p q) h = Agrees-perm q (Agrees-perm p h)

  place_comm :
      (m n : ℕ × (X ⊎ A)) (r : List (Option A))
      → at m.0 ≡ some m.1
      → at n.0 ≡ some n.1
      → place n (place m r) ≡ place m (place n r)
  unfolding place
  place_comm (i, inl e) (j, o) r h k = refl
  place_comm (i, inr a) (j, inl e) r h k = refl
  place_comm (i, inr a) (j, inr b) r h k =
      put_at_comm r i j (some a) (some b) (λ e. ground (arith, e, h, k))

  collect-perm :
      {m n : List (ℕ × (X ⊎ A))} (r : List (Option A))
      → Permᴰ m n
      → Agrees m
      → collect m r ≡ collect n r
  unfolding collect
  collect-perm r Permᴰ.nil h = refl
  collect-perm r (Permᴰ.cons {a} {b} {l₁} {l₂} e p) h =
      collect-perm (place a r) p h.1 ∙ ap (λ c. collect l₂ (place c r)) e
  collect-perm r (Permᴰ.swap {a} {b} {a'} {b'} {l} e f) h =
      ap (collect l) (place_comm a b r h.0 h.1.0 ∙ ground (arith, e, f))
  collect-perm r (Permᴰ.trans p q) h = collect-perm r p h ∙ collect-perm r q (Agrees-perm p h)

put_at-append :
    {A : Type 0} (l m : List A) (a b : A) → put_at (l ++ a ∷ m) (length l) b ≡ l ++ b ∷ m
put_at-append [] m a b = refl
put_at-append (c ∷ l) m a b = ap (◌∷◌ c) (put_at-append l m a b)

module _ {A X : Type 0} where
  abbrev pub value : X ⊎ A → Option A
  value (inl e) = none
  value (inr a) = some a

  collect-from_position :
      (l : List (Option A)) (os : List (X ⊎ A))
      → collect (from_position (length l) os) (l ++ nil_results os) ≡ l ++ map value os
  unfolding collect place from_position nil_results
  collect-from_position l [] = refl
  collect-from_position l (inl e ∷ os) = ground (
    arith,
    append_assoc l (none ∷ []) (nil_results os),
    append_assoc l (none ∷ []) (map value os),
    length-append l (none ∷ []),
    collect-from_position (l ++ none ∷ []) os,
  )
  collect-from_position l (inr a ∷ os) = ground (
    arith,
    put_at-append l (nil_results os) none (some a),
    append_assoc l (some a ∷ []) (nil_results os),
    append_assoc l (some a ∷ []) (map value os),
    length-append l (some a ∷ []),
    collect-from_position (l ++ some a ∷ []) os,
  )

  get_elem?-append : (l os : List (X ⊎ A)) (o : X ⊎ A) → get_elem? (l ++ o ∷ os) (length l) ≡ some o
  get_elem?-append [] os o = refl
  get_elem?-append (c ∷ l) os o = get_elem?-append l os o

  from_position-Agrees :
      (l os all : List (X ⊎ A)) (i : ℕ)
      → l ++ os ≡ all
      → length l ≡ i
      → Agrees (get_elem? all) (from_position i os)
  unfolding from_position
  from_position-Agrees l [] all i e n = tt
  from_position-Agrees l (o ∷ os) all i e n = (
    ground (arith, get_elem?-append l os o, e, n),
    from_position-Agrees (l ++ o ∷ []) os all (suc i) (append_assoc l (o ∷ []) os ∙ e)
        (omega (arith, length-append l (o ∷ []))),
  )

  -- Whether all outcomes are results.
  abbrev pub all_results : List (X ⊎ A) → Bool
  all_results [] = true
  all_results (inl e ∷ os) = false
  all_results (inr a ∷ os) = all_results os

  all_good-from_position :
      (i : ℕ) (os : List (X ⊎ A)) → all_good (from_position i os) ≡ all_results os
  unfolding from_position
  all_good-from_position i [] = refl
  all_good-from_position i (inl e ∷ os) = refl
  all_good-from_position i (inr a ∷ os) = all_good-from_position (suc i) os

  -- In whatever order the messages arrive: the results are returned, in the order of the consumers, exactly
  -- when there is no error yet and none among the outcomes.
  pub get_all_readers_result-value :
      (order : Completion (ℕ × (X ⊎ A))) (os : List (X ⊎ A)) (failure : Option (ReadError X))
      → (r : List (Option A))
      → (get_all_readers_result order os failure ≡ inr r)
        ↔ ((all_results os && is_nil failure ≡ true) × (r ≡ map value os))
  unfolding get_all_readers_result
  get_all_readers_result-value order os failure r =
      let messages = from_position 0 os in
      let perm = order.visits_all messages in
      let agrees =
        Agrees-perm (get_elem? os) (Permᴰ.symm perm) (from_position-Agrees [] os os 0 refl refl) in
      ground (
        arith,
        receive_all-is_nil (order.visit messages) (nil_results os, failure),
        all_good-perm perm,
        all_good-from_position 0 os,
        receive_all-collect (order.visit messages) (nil_results os) failure,
        collect-perm (get_elem? os) (nil_results os) perm agrees,
        collect-from_position [] os,
      )
