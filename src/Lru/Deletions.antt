-- ===== src/Lru/Deletions.antt =====
-- lru/lru_base.go: the pairs that `Clear` reports and the map it leaves, for every order of the map.
use mathlib.Core.List.Permᴰ
use mathlib.Core.Path.{subst}
use mathlib.Core.List.{Permᴰ}
use gofrog.Prelude.{
  ℕ, ◌≡◌, refl, List, [], ◌∷◌, Bool, true, false, if◌then◌else◌, holds, Option, none, some, All,
  arith, inl, inr, Bool-cases, sym, ◌∙◌,
}
use gofrog.Lru.Base.{Element, element_at, find, delete}
use gofrog.Lru.Invariant.{DistinctMap, find-delete, DistinctMap-delete}

pub All-perm {ℓ κ} : {A : Type ℓ} (P : A → Type κ) {m n : List A} → Permᴰ m n → All P n → All P m
All-perm P Permᴰ.nil h = tt
All-perm P (Permᴰ.cons e d) h = (subst P (sym e) h.0, All-perm P d h.1)
All-perm P (Permᴰ.swap e f) h = (subst P (sym e) h.1.0, (subst P (sym f) h.0, h.1.1))
All-perm P (Permᴰ.trans d e) h = All-perm P d (All-perm P e h)

module _ {ℓ} {K V : Type ℓ} where
  abbrev prepend : Option (Element K V) → List (K × V) → List (K × V)
  prepend none l = l
  prepend (some e) l = (e.key, e.value) ∷ l

  -- What the loop reports for the map's pairs.
  unfoldable pub reported : List (Element K V) → List (K × ℕ) → List (K × V)
  reported l [] = []
  reported l ((_, a) ∷ m) = prepend (element_at a l) (reported l m)

  -- What the map should be for a list.
  abbrev pub index_of : List (Element K V) → List (K × ℕ)
  index_of [] = []
  index_of (e ∷ l) = (e.key, e.address) ∷ index_of l

  abbrev pub pairs_of : List (Element K V) → List (K × V)
  pairs_of [] = []
  pairs_of (e ∷ l) = (e.key, e.value) ∷ pairs_of l

  -- The pair leads to an element with its key.
  abbrev pub Points : List (Element K V) → K × ℕ → Type ℓ
  Points l p = (e : Element K V) × (element_at p.1 l ≡ some e) × (e.key ≡ p.0)

  prepend-perm :
      {m n : List (K × V)} (e : Option (Element K V))
      → Permᴰ m n
      → Permᴰ (prepend e m) (prepend e n)
  prepend-perm none d = d
  prepend-perm (some e) d = Permᴰ.cons refl d

  prepend_swap :
      (e f : Option (Element K V)) (m : List (K × V))
      → Permᴰ (prepend e (prepend f m)) (prepend f (prepend e m))
  prepend_swap none f m = Permᴰ.refl (prepend f m)
  prepend_swap (some e) none m = Permᴰ.refl (prepend (some e) m)
  prepend_swap (some e) (some f) m = Permᴰ.swap refl refl

  pub reported-perm :
      {m n : List (K × ℕ)} (l : List (Element K V))
      → Permᴰ m n
      → Permᴰ (reported l m) (reported l n)
  unfolding reported
  reported-perm l Permᴰ.nil = Permᴰ.nil
  reported-perm l (Permᴰ.cons {a = p} {b = q} e d) =
      rw (← e) (prepend-perm (element_at p.1 l) (reported-perm l d))
  reported-perm l (Permᴰ.swap {a = p} {b = q} {l = m} e f) =
      rw (← e, ← f) (prepend_swap (element_at p.1 l) (element_at q.1 l) (reported l m))
  reported-perm l (Permᴰ.trans d e) = Permᴰ.trans (reported-perm l d) (reported-perm l e)

module _ {ℓ} {K : Type ℓ} (dec : Discrete K) where
  unfoldable pub deleted : List (K × ℕ) → List (K × ℕ) → List (K × ℕ)
  deleted [] n = n
  deleted ((k, _) ∷ m) n = deleted m (delete dec k n)

  has : K → List (K × ℕ) → Bool
  has k m = elim (find dec k m) [ none ↦ false | some _ ↦ true ]

  has-perm : {m n : List (K × ℕ)} (k : K) → Permᴰ m n → has k m ≡ has k n
  unfolding has find
  has-perm k Permᴰ.nil = refl
  has-perm k (Permᴰ.cons e d) = ground (arith, has-perm k d)
  has-perm k (Permᴰ.swap e f) = ground arith
  has-perm k (Permᴰ.trans d e) = has-perm k d ∙ has-perm k e

  find-deleted :
      (k : K) (m n : List (K × ℕ))
      → find dec k (deleted m n) ≡ (if has k m then none else find dec k n)
  unfolding deleted has find
  find-deleted k [] n = refl
  find-deleted k ((j, a) ∷ m) n =
      ground (arith, find-deleted k m (delete dec j n), find-delete dec k j n)

  empty_of_find : (n : List (K × ℕ)) → ((k : K) → find dec k n ≡ none) → n ≡ []
  unfolding find
  empty_of_find [] h = refl
  empty_of_find ((k, a) ∷ n) h = ground (arith, h k)

  -- A map that is visited whole is deleted whole.
  pub deleted_all : {m n : List (K × ℕ)} → Permᴰ m n → deleted m n ≡ []
  unfolding has
  deleted_all {m} {n} d =
      empty_of_find (deleted m n) (λ k. ground (arith, find-deleted k m n, has-perm k d))

  delete_absent : (k : K) (n : List (K × ℕ)) → find dec k n ≡ none → delete dec k n ≡ n
  unfolding find delete
  delete_absent k [] h = refl
  delete_absent k ((j, a) ∷ n) h = ground (arith, delete_absent k n)

  delete-perm :
      (k : K) (a : ℕ) (n : List (K × ℕ))
      → DistinctMap dec n
      → find dec k n ≡ some a
      → Permᴰ n ((k, a) ∷ delete dec k n)
  unfolding find delete
  delete-perm k a [] d h = ground arith
  delete-perm k a ((j, b) ∷ n) d h = elim (Bool-cases (holds (dec j k))) [
    | inl same ↦
        let pair : ◌≡◌ {A = K × ℕ} (j, b) (k, a) = ground arith in
        let rest : delete dec k n ≡ n = ground (arith, delete_absent k n) in
        rw (same, rest) (Permᴰ.cons pair (Permᴰ.refl n))
    | inr other ↦ rw other (
        Permᴰ.trans (Permᴰ.cons refl (delete-perm k a n d.1 (ground arith))) (Permᴰ.swap refl refl))
  ]

  -- Two maps without repetition that agree everywhere hold the same pairs.
  pub perm_of_find :
      (m n : List (K × ℕ))
      → DistinctMap dec m
      → DistinctMap dec n
      → ((k : K) → find dec k m ≡ find dec k n)
      → Permᴰ m n
  unfolding find
  perm_of_find [] n d e h = rw (empty_of_find n (λ k. sym (h k))) Permᴰ.nil
  perm_of_find ((k, a) ∷ m) n d e h =
      let here : find dec k n ≡ some a = ground (arith, h k) in
      Permᴰ.trans
        (Permᴰ.cons refl (
          perm_of_find m (delete dec k n) d.1 (DistinctMap-delete dec k n e)
            (λ j. ground (arith, h j, find-delete dec j k n))))
        (Permᴰ.symm (delete-perm k a n e here))
