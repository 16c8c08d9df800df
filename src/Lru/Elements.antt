-- ===== src/Lru/Elements.antt =====
-- lru/lru_base.go: lists of elements by key. Where neither a key nor an address stands twice, an
-- address that the map gives for a key names the one element with that key.
use mathlib.Core.Path.{subst}
use gofrog.Prelude.{
  ℕ, suc, ◌+◌, ◌<◌, ◌≡◌, ◌≢◌, refl, List, [], ◌∷◌, if◌then◌else◌, holds, length, inl, inr,
  Bool-cases, Option, none, some, All, arith,
}
use gofrog.Lru.Base.{Element, element_at, unlink, move_to_front, back, write_entry}

module _ {ℓ} {K V : Type ℓ} where
  abbrev pub address? : Option (Element K V) → Option ℕ
  address? none = none
  address? (some e) = some e.address

  unfoldable pub last? : List (Element K V) → Option (Element K V)
  last? [] = none
  last? (e ∷ []) = some e
  last? (_ ∷ f ∷ l) = last? (f ∷ l)

  -- No address stands twice.
  abbrev pub DistinctAddresses : List (Element K V) → Type ℓ
  DistinctAddresses [] = Unit
  DistinctAddresses (e ∷ l) = (element_at e.address l ≡ none) × DistinctAddresses l

  pub back-last? : (l : List (Element K V)) → back l ≡ address? (last? l)
  unfolding back last?
  back-last? [] = refl
  back-last? (e ∷ []) = refl
  back-last? (_ ∷ f ∷ l) = back-last? (f ∷ l)

  element_at-unlink :
      (a : ℕ) (l : List (Element K V)) → DistinctAddresses l → element_at a (unlink a l) ≡ none
  unfolding element_at unlink
  element_at-unlink a [] d = refl
  element_at-unlink a (e ∷ l) d = ground (arith, element_at-unlink a l d.1)

module _ {ℓ} {K V : Type ℓ} (dec : Discrete K) where
  -- The element with a key, and the list without it.
  unfoldable pub by_key : K → List (Element K V) → Option (Element K V)
  by_key k [] = none
  by_key k (e ∷ l) = if holds (dec e.key k) then some e else by_key k l

  unfoldable pub without : K → List (Element K V) → List (Element K V)
  without k [] = []
  without k (e ∷ l) = if holds (dec e.key k) then l else e ∷ without k l

  abbrev pub DistinctKeys : List (Element K V) → Type ℓ
  DistinctKeys [] = Unit
  DistinctKeys (e ∷ l) = (by_key e.key l ≡ none) × DistinctKeys l

  pub key-by_key :
      (k : K) (l : List (Element K V)) (e : Element K V) → by_key k l ≡ some e → e.key ≡ k
  unfolding by_key
  key-by_key k [] e h = ground arith
  key-by_key k (x ∷ l) e h = ground (arith, key-by_key k l e)

  -- The address of an element that stands in the list is found.
  pub found :
      (k : K) (l : List (Element K V)) (e : Element K V)
      → by_key k l ≡ some e
      → element_at e.address l ≢ none
  unfolding by_key element_at
  found k [] e h = ground arith
  found k (x ∷ l) e h = ground (arith, found k l e)

  pub element_at-by_key :
      (k : K) (l : List (Element K V)) (e : Element K V)
      → DistinctAddresses l
      → by_key k l ≡ some e
      → element_at e.address l ≡ some e
  unfolding by_key element_at
  element_at-by_key k [] e d h = ground arith
  element_at-by_key k (x ∷ l) e d h = ground (arith, element_at-by_key k l e d.1, found k l e)

  pub unlink-without :
      (k : K) (l : List (Element K V)) (e : Element K V)
      → DistinctAddresses l
      → by_key k l ≡ some e
      → unlink e.address l ≡ without k l
  unfolding by_key unlink without
  unlink-without k [] e d h = refl
  unlink-without k (x ∷ l) e d h = ground (arith, unlink-without k l e d.1, found k l e)

  pub move_to_front-by_key :
      (k : K) (l : List (Element K V)) (e : Element K V)
      → DistinctAddresses l
      → by_key k l ≡ some e
      → move_to_front e.address l ≡ e ∷ without k l
  unfolding move_to_front
  move_to_front-by_key k l e d h =
      ground (arith, element_at-by_key k l e d h, unlink-without k l e d h)

  pub by_key-without :
      (j k : K) (l : List (Element K V))
      → DistinctKeys l
      → by_key j (without k l) ≡ (if holds (dec k j) then none else by_key j l)
  unfolding by_key without
  by_key-without j k [] d = ground arith
  by_key-without j k (e ∷ l) d = ground (arith, by_key-without j k l d.1)

  pub element_at-without :
      (a : ℕ) (k : K) (l : List (Element K V))
      → element_at a l ≡ none
      → element_at a (without k l) ≡ none
  unfolding element_at without
  element_at-without a k [] h = refl
  element_at-without a k (e ∷ l) h = ground (arith, element_at-without a k l)

  pub DistinctKeys-without :
      (k : K) (l : List (Element K V)) → DistinctKeys l → DistinctKeys (without k l)
  unfolding without
  DistinctKeys-without k [] d = tt
  DistinctKeys-without k (e ∷ l) d =
      ground (arith, DistinctKeys-without k l d.1, by_key-without e.key k l d.1)

  pub DistinctAddresses-without :
      (k : K) (l : List (Element K V)) → DistinctAddresses l → DistinctAddresses (without k l)
  unfolding without
  DistinctAddresses-without k [] d = tt
  DistinctAddresses-without k (e ∷ l) d =
      ground (arith, DistinctAddresses-without k l d.1, element_at-without e.address k l)

  pub element_at-without_self :
      (k : K) (l : List (Element K V)) (e : Element K V)
      → DistinctAddresses l
      → by_key k l ≡ some e
      → element_at e.address (without k l) ≡ none
  element_at-without_self k l e d h =
      rw (← unlink-without k l e d h) (element_at-unlink e.address l d)

  pub length-without :
      (k : K) (l : List (Element K V)) (e : Element K V)
      → by_key k l ≡ some e
      → length (without k l) + 1 ≡ length l
  unfolding without by_key
  length-without k [] e h = ground arith
  length-without k (x ∷ l) e h = ground (arith, length-without k l e)

  pub All-without {κ} :
      (P : Element K V → Type κ) (k : K) (l : List (Element K V)) → All P l → All P (without k l)
  unfolding without
  All-without P k [] h = tt
  All-without P k (e ∷ l) h = ground (arith, All-without P k l h.1)

  pub All-by_key {κ} :
      (P : Element K V → Type κ) (k : K) (l : List (Element K V)) (e : Element K V)
      → All P l
      → by_key k l ≡ some e
      → P e
  unfolding by_key
  All-by_key P k [] e h f = ground arith
  All-by_key P k (x ∷ l) e h f = elim (Bool-cases (holds (dec x.key k))) [
    | inl here ↦ let same : x ≡ e = ground arith in subst P same h.0
    | inr on ↦ All-by_key P k l e h.1 (ground arith)
  ]

  -- The last element is the one with its key.
  pub by_key-last? :
      (l : List (Element K V)) (e : Element K V)
      → DistinctKeys l
      → last? l ≡ some e
      → by_key e.key l ≡ some e
  unfolding by_key last?
  by_key-last? [] e d h = ground arith
  by_key-last? (x ∷ []) e d h = ground arith
  by_key-last? (x ∷ y ∷ l) e d h = ground (arith, by_key-last? (y ∷ l) e d.1 h)

-- A write of a value through an entry's pointer keeps keys and addresses.
module _ {ℓ} {K V : Type ℓ} (dec : Discrete K) (a : ℕ) (v : V) where
  abbrev pub written : List (Element K V) → List (Element K V)
  written l = write_entry a (λ e. record e { value = v }) l

  pub address-written :
      (j : K) (l : List (Element K V))
      → address? (by_key dec j (written l)) ≡ address? (by_key dec j l)
  unfolding by_key write_entry
  address-written j [] = refl
  address-written j (e ∷ l) = ground (arith, address-written j l)

  element_at-written :
      (b : ℕ) (l : List (Element K V)) → element_at b l ≡ none → element_at b (written l) ≡ none
  unfolding element_at write_entry
  element_at-written b [] h = refl
  element_at-written b (e ∷ l) h = ground (arith, element_at-written b l)

  pub DistinctAddresses-written :
      (l : List (Element K V)) → DistinctAddresses l → DistinctAddresses (written l)
  unfolding write_entry
  DistinctAddresses-written [] d = tt
  DistinctAddresses-written (e ∷ l) d =
      ground (arith, DistinctAddresses-written l d.1, element_at-written e.address l)

  pub DistinctKeys-written :
      (l : List (Element K V)) → DistinctKeys dec l → DistinctKeys dec (written l)
  unfolding write_entry
  DistinctKeys-written [] d = tt
  DistinctKeys-written (e ∷ l) d =
      ground (arith, DistinctKeys-written l d.1, address-written e.key l)

  pub All-written :
      (n : ℕ) (l : List (Element K V))
      → All (λ e. e.address < n) l
      → All (λ e. e.address < n) (written l)
  unfolding write_entry
  All-written n [] h = tt
  All-written n (e ∷ l) h = ground (arith, All-written n l h.1)

-- An address that no element has been given yet.
pub element_at-fresh {ℓ} :
    {K V : Type ℓ} (n : ℕ) (l : List (Element K V))
    → All (λ e. e.address < n) l
    → element_at n l ≡ none
unfolding element_at
element_at-fresh n [] h = refl
element_at-fresh n (e ∷ l) h = ground (arith, element_at-fresh n l h.1)

pub All-suc {ℓ} :
    {K V : Type ℓ} (n : ℕ) (l : List (Element K V))
    → All (λ e. e.address < n) l
    → All (λ e. e.address < suc n) l
All-suc n [] h = tt
All-suc n (e ∷ l) h = (omega arith, All-suc n l h.1)
