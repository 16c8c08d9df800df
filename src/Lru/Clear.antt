-- ===== src/Lru/Clear.antt =====
-- lru/lru_base.go: `Clear`, whatever the order in which it visits the map.
use gofrog.Lru.Deletions.{
  All-perm, reported, index_of, pairs_of, Points, reported-perm, deleted, deleted_all, perm_of_find,
}
use mathlib.Core.List.{append-nil, append_assoc}
use mathlib.Core.List.{Permᴰ}
use gofrog.Prelude.{
  map, ℕ, ◌≡◌, refl, List, [], ◌∷◌, ◌++◌, if◌then◌else◌, some, All, arith, Option-cases, inl, inr,
  sym, ◌∙◌, MapRange,
}
use gofrog.Lru.Base.{Element, CacheBase, element_at, find, delete, clear_all, clear}
use gofrog.Lru.Elements.{
  address?, by_key, DistinctKeys, DistinctAddresses, key-by_key, element_at-by_key,
}
use gofrog.Lru.Spec.{entries_of}
use gofrog.Lru.Invariant.{IsValid, DistinctMap}

module _ {ℓ} {K V : Type ℓ} (dec : Discrete K) where
  clear_all_lem :
      (m : List (K × ℕ)) (c : CacheBase K V)
      → All (Points c.ll) m
      → clear_all dec m c ≡ record c {
        cache = deleted dec m c.cache;
        evicted = if c.has_callback then c.evicted ++ reported c.ll m else c.evicted;
      }
  unfolding clear_all deleted reported
  clear_all_lem [] c h = ground (arith, append-nil c.evicted)
  clear_all_lem ((k, a) ∷ m) c h =
      let (e, at, same) = h.0 in
      let one : List (K × V) = (e.key, e.value) ∷ [] in
      let c' : CacheBase K V = record c {
        cache = delete dec k c.cache;
        evicted = if c.has_callback then c.evicted ++ one else c.evicted;
      } in
      ground (arith, clear_all_lem m c' h.1, append_assoc c.evicted one (reported c.ll m))

  find-index_of :
      (k : K) (l : List (Element K V)) → find dec k (index_of l) ≡ address? (by_key dec k l)
  unfolding find by_key
  find-index_of k [] = refl
  find-index_of k (e ∷ l) = ground (arith, find-index_of k l)

  DistinctMap-index_of :
      (l : List (Element K V)) → DistinctKeys dec l → DistinctMap dec (index_of l)
  DistinctMap-index_of [] d = tt
  DistinctMap-index_of (e ∷ l) d =
      (ground (arith, find-index_of e.key l), DistinctMap-index_of l d.1)

  reported-index_of :
      (l m : List (Element K V))
      → DistinctAddresses m
      → ((a : ℕ) (e : Element K V) → element_at a m ≡ some e → element_at a l ≡ some e)
      → reported l (index_of m) ≡ pairs_of m
  unfolding reported element_at
  reported-index_of l [] d h = refl
  reported-index_of l (e ∷ m) d h =
      let here : element_at e.address l ≡ some e = h e.address e (ground arith) in
      let rest = reported-index_of l m d.1 (λ a x p. h a x (ground arith)) in ground arith

  -- In a valid cache each pair of the map leads to an element with its key.
  Points-pair :
      (c : CacheBase K V) (k : K) (a : ℕ)
      → IsValid dec c
      → find dec k c.cache ≡ some a
      → Points c.ll (k, a)
  Points-pair c k a v h = elim (Option-cases (by_key dec k c.ll)) [
    | inl miss ↦ absurd (ground (arith, v.indexed k))
    | inr (e, hit) ↦ (
      e,
      ground (arith, v.indexed k, element_at-by_key dec k c.ll e v.distinct_addresses hit),
      key-by_key dec k c.ll e hit,
    )
  ]

  All-Points :
      (c : CacheBase K V) (m : List (K × ℕ))
      → IsValid dec c
      → DistinctMap dec m
      → ((k : K) (a : ℕ) → find dec k m ≡ some a → find dec k c.cache ≡ some a)
      → All (Points c.ll) m
  unfolding find
  All-Points c [] v d h = tt
  All-Points c ((k, a) ∷ m) v d h = (
    Points-pair c k a v (h k a (ground arith)),
    All-Points c m v d.1 (λ j b p. h j b (ground arith)),
  )

  -- `Clear` of a valid cache leaves a valid cache with no entry and an empty map; if there is a
  -- callback, it has been called exactly once for every entry, in some order, and for nothing else.
  pub clear-reports :
      (range : MapRange (K × ℕ)) (c : CacheBase K V)
      → IsValid dec c
      → IsValid dec (clear dec range c)
        × ((clear dec range c).ll ≡ [])
        × ((clear dec range c).cache ≡ [])
        × ((reports : List (K × V)) × ((clear dec range c).evicted
              ≡ (if c.has_callback then c.evicted ++ reports else c.evicted))
            × Permᴰ reports (pairs_of c.ll))
  unfolding clear find by_key
  clear-reports range c v =
      let pairs = range.visit c.cache in
      let whole = range.visits_all c.cache in
      let points =
        All-perm (Points c.ll) whole (All-Points c c.cache v v.distinct_map (λ k a h. h)) in
      let indexed =
        perm_of_find dec c.cache (index_of c.ll) v.distinct_map
          (DistinctMap-index_of c.ll v.distinct_keys)
          (λ k. v.indexed k ∙ sym (find-index_of k c.ll)) in
      let listed = reported-index_of c.ll c.ll v.distinct_addresses (λ a e h. h) in
      let empty : deleted dec pairs c.cache ≡ [] = deleted_all dec whole in
      rw (clear_all_lem pairs c points, empty)
        (
          record {
            indexed = λ k. refl;
            distinct_map = tt;
            distinct_keys = tt;
            distinct_addresses = tt;
            fresh = tt;
          },
          refl,
          refl,
          (
            reported c.ll pairs,
            refl,
            rw listed at (reported-perm c.ll (Permᴰ.trans whole indexed)),
          ),
        )

  -- The loop keeps all but the map and the evictions.
  clear_all_keeps :
      (m : List (K × ℕ)) (c : CacheBase K V)
      → ((clear_all dec m c).expiry ≡ c.expiry)
        × ((clear_all dec m c).size ≡ c.size)
        × ((clear_all dec m c).has_callback ≡ c.has_callback)
  unfolding clear_all
  clear_all_keeps [] c = (refl, refl, refl)
  clear_all_keeps ((k, a) ∷ m) c = elim (Option-cases (element_at a c.ll)) [
    | inl miss ↦ rw (miss, clear_all) (clear_all_keeps m c)
    | inr (e, hit) ↦
        rw (hit, clear_all)
          (clear_all_keeps m (record c {
            cache = delete dec e.key c.cache;
            evicted = if c.has_callback then c.evicted ++ (e.key, e.value) ∷ [] else c.evicted;
          }))
  ]

  pub clear_keeps :
      (range : MapRange (K × ℕ)) (c : CacheBase K V)
      → ((clear dec range c).expiry ≡ c.expiry)
        × ((clear dec range c).size ≡ c.size)
        × ((clear dec range c).has_callback ≡ c.has_callback)
  unfolding clear
  clear_keeps range c = clear_all_keeps (range.visit c.cache) c

  pub pairs-view :
      (l : List (Element K V)) → pairs_of l ≡ map (λ e. (e.key, e.value)) (entries_of l)
  pairs-view [] = refl
  pairs-view (e ∷ l) = ground (arith, pairs-view l)
