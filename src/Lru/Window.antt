-- ===== src/Lru/Window.antt =====
-- lru/lru_base.go: a bounded cache is the window of the most recently used entries, and an added value is
-- the one that is read.
use gofrog.Prelude.{
  ℕ, zero, suc, ◌+◌, ◌<◌, ◌≤◌, ◌≡◌, ◌↔◌, ◌≢◌, refl, List, [], ◌∷◌, true, false, if◌then◌else◌,
  length, none, some, arith, Option-cases, inl, inr, ℤ, pos, take, take_of_length-le, ◌∙◌, ap,
  Bool-cases,
}
use gofrog.Lru.Base.{CacheBase, exceeds, add, get}
use gofrog.Lru.Invariant.{IsValid}
use gofrog.Lru.Spec.{
  Entry, Model, entries_of, view, last, all_but_last, stale, stamp, evict_oldest, lookup, erase,
  read, store,
}
use gofrog.Lru.Refinement.{add-store, get-read, length-entries_of}

exceeds-pos : (n m : ℕ) → 0 < n → (exceeds (pos n) m ≡ true) ↔ (n < m)
unfolding exceeds
exceeds-pos n m h = ground arith

exceeds-pos_false : (n m : ℕ) → 0 < n → exceeds (pos n) m ≡ false → m ≤ n
unfolding exceeds
exceeds-pos_false n m h e = ground arith

exceeds_one : (n : ℕ) → exceeds (pos n) 1 ≢ true
unfolding exceeds
exceeds_one n h = ground arith

module _ {ℓ} {K V : Type ℓ} where
  all_but_last-take : (n : ℕ) (l : List (Entry K V)) → length l ≡ suc n → all_but_last l ≡ take n l
  unfolding all_but_last
  all_but_last-take n [] h = absurd (omega arith)
  all_but_last-take zero (e ∷ []) h = refl
  all_but_last-take (suc n) (e ∷ []) h = absurd (omega arith)
  all_but_last-take zero (e ∷ f ∷ l) h = absurd (omega arith)
  all_but_last-take (suc n) (e ∷ f ∷ l) h = ap (◌∷◌ e) (all_but_last-take n (f ∷ l) (omega arith))

  last-cons : (e : Entry K V) (l : List (Entry K V)) → (x : Entry K V) × (last (e ∷ l) ≡ some x)
  unfolding last
  last-cons e [] = (e, refl)
  last-cons e (f ∷ l) = last-cons f l

  pub config-evict_oldest :
      (m : Model K V) → ((evict_oldest m).expiry ≡ m.expiry) × ((evict_oldest m).size ≡ m.size)
  unfolding evict_oldest
  config-evict_oldest m = elim (Option-cases (last m.entries)) [
    | inl h ↦ ground arith
    | inr (e, h) ↦ ground arith
  ]

  pub entries-evict_oldest :
      (e : Entry K V) (l : List (Entry K V)) (m : Model K V)
      → (evict_oldest (record m { entries = e ∷ l })).entries ≡ all_but_last (e ∷ l)
  unfolding evict_oldest
  entries-evict_oldest e l m = let (x, h) = last-cons e l in ground (arith, h)

module _ {ℓ} {K V : Type ℓ} (dec : Discrete K) where
  erase_absent : (k : K) (l : List (Entry K V)) → lookup dec k l ≡ none → erase dec k l ≡ l
  unfolding lookup erase
  erase_absent k [] h = refl
  erase_absent k (e ∷ l) h = ground (arith, erase_absent k l)

  pub length-erase :
      (k : K) (l : List (Entry K V)) (e : Entry K V)
      → lookup dec k l ≡ some e
      → length (erase dec k l) + 1 ≡ length l
  unfolding lookup erase
  length-erase k [] e h = ground arith
  length-erase k (x ∷ l) e h = ground (arith, length-erase k l e)

  pub store-take :
      (now : ℤ) (k : K) (x : V) (m : Model K V) (n : ℕ)
      → m.size ≡ pos n
      → 0 < n
      → length m.entries ≤ n
      → (store dec now k x m).entries
        ≡ take n (record { key = k; value = x; time_insert = stamp now m } ∷ erase dec k m.entries)
  unfolding store
  store-take now k x m n size positive within =
      let e : Entry K V = record { key = k; value = x; time_insert = stamp now m } in
      elim (Option-cases (lookup dec k m.entries)) [
        | inl miss ↦ elim (Bool-cases (exceeds m.size (length (e ∷ m.entries)))) [
          | inl over ↦
              let full : length (e ∷ m.entries) ≡ suc n =
                omega
                  (arith, (exceeds-pos n (length (e ∷ m.entries)) positive).0 (rw size at over)) in
              ground (
                arith,
                erase_absent k m.entries miss,
                entries-evict_oldest e m.entries m,
                all_but_last-take n (e ∷ m.entries) full,
              )
          | inr under ↦
              let fits : length (e ∷ m.entries) ≤ n =
                exceeds-pos_false n (length (e ∷ m.entries)) positive (rw size at under) in
              ground
                (arith, erase_absent k m.entries miss, take_of_length-le n (e ∷ m.entries) fits)
        ]
        | inr (old, hit) ↦
            let fits : length (e ∷ erase dec k m.entries) ≤ n =
              omega (arith, length-erase k m.entries old hit) in
            ground (arith, take_of_length-le n (e ∷ erase dec k m.entries) fits)
      ]

  -- `Add` to a valid cache of a positive size n that holds at most n entries leaves the first n of
  -- these: the new entry, then the old ones in their order, without the one that had the key.
  pub add-take :
      (now : ℤ) (k : K) (x : V) (c : CacheBase K V) (n : ℕ)
      → IsValid dec c
      → c.size ≡ pos n
      → 0 < n
      → length c.ll ≤ n
      → entries_of (add dec now k x c).ll
        ≡ take n (
            record { key = k; value = x; time_insert = stamp now (view c) }
            ∷ erase dec k (entries_of c.ll))
  add-take now k x c n v size positive within =
      ap (λ (m : Model K V). m.entries) (add-store dec now k x c v).1
      ∙ store-take now k x (view c) n size positive (omega (arith, length-entries_of dec c.ll))

  lookup-all_but_last :
      (k : K) (e : Entry K V) (l : List (Entry K V)) (n : ℕ)
      → e.key ≡ k
      → exceeds (pos n) (length (e ∷ l)) ≡ true
      → lookup dec k (all_but_last (e ∷ l)) ≡ some e
  unfolding lookup all_but_last
  lookup-all_but_last k e [] n same over = absurd (exceeds_one n over)
  lookup-all_but_last k e (f ∷ l) n same over = ground arith

  lookup-store :
      (now : ℤ) (k : K) (x : V) (m : Model K V) (n : ℕ)
      → m.size ≡ pos n
      → lookup dec k (store dec now k x m).entries
        ≡ some (record { key = k; value = x; time_insert = stamp now m })
  unfolding store lookup
  lookup-store now k x m n size =
      let e : Entry K V = record { key = k; value = x; time_insert = stamp now m } in
      elim (Option-cases (lookup dec k m.entries)) [
        | inl miss ↦ elim (Bool-cases (exceeds m.size (length (e ∷ m.entries)))) [
          | inl over ↦ ground (
            arith,
            entries-evict_oldest e m.entries m,
            lookup-all_but_last k e m.entries n refl (rw size at over),
          )
          | inr under ↦ ground arith
        ]
        | inr (old, hit) ↦ ground arith
      ]

  pub config-store :
      (now : ℤ) (k : K) (x : V) (m : Model K V)
      → ((store dec now k x m).expiry ≡ m.expiry) × ((store dec now k x m).size ≡ m.size)
  unfolding store
  config-store now k x m =
      let e : Entry K V = record { key = k; value = x; time_insert = stamp now m } in
      ground (arith, config-evict_oldest (record m { entries = e ∷ m.entries }))

  -- After `Add` to a valid cache of size n (zero means unbounded) a `Get` of the key returns the
  -- value, unless the cache has an expiry and the entry is older than that by then.
  pub get-add :
      (now later : ℤ) (k : K) (x : V) (c : CacheBase K V) (n : ℕ)
      → IsValid dec c
      → c.size ≡ pos n
      → (get dec later k (add dec now k x c)).1 ≡ (
          if stale later (record { key = k; value = x; time_insert = stamp now (view c) }) (view c)
          then none
          else some x)
  unfolding read
  get-add now later k x c n v size =
      let added = add dec now k x c in
      let (kept, seen) = add-store dec now k x c v in
      let result = (get-read dec later k added kept).2 in
      ground (
        arith,
        result,
        seen,
        lookup-store now k x (view c) n size,
        (config-store now k x (view c)).0,
      )
