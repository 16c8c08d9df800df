-- ===== src/Lru/Spec.antt =====
-- lru/lru_base.go: what the cache promises, without a map, addresses and pointers: a list of entries, the
-- most recently used first, and the list of evictions that were reported.
use gofrog.Prelude.{
  ◌++◌, List, [], ◌∷◌, Bool, not, ◌&&◌, if◌then◌else◌, holds, length, Option, none, some, ℤ, pos,
  ltb_ℤ, eqb_ℤ, ◌-ℤ◌, quot,
}
use gofrog.Lru.Base.{Element, CacheBase, millisecond, exceeds}

pub record Entry {ℓ} (K V : Type ℓ) : Type ℓ where
  pub key : K
  pub value : V
  pub time_insert : ℤ

pub record Model {ℓ} (K V : Type ℓ) : Type ℓ where
  pub expiry : ℤ
  pub size : ℤ
  pub has_callback : Bool
  pub entries : List (Entry K V)
  pub evicted : List (K × V)

module _ {ℓ} {K V : Type ℓ} where
  abbrev pub entry_of : Element K V → Entry K V
  entry_of e = record { key = e.key; value = e.value; time_insert = e.time_insert }

  abbrev pub entries_of : List (Element K V) → List (Entry K V)
  entries_of [] = []
  entries_of (e ∷ l) = entry_of e ∷ entries_of l

  -- The abstract view of a cache.
  abbrev pub view : CacheBase K V → Model K V
  view c = record {
    expiry = c.expiry;
    size = c.size;
    has_callback = c.has_callback;
    entries = entries_of c.ll;
    evicted = c.evicted;
  }

  unfoldable pub last : List (Entry K V) → Option (Entry K V)
  last [] = none
  last (e ∷ []) = some e
  last (_ ∷ f ∷ l) = last (f ∷ l)

  unfoldable pub all_but_last : List (Entry K V) → List (Entry K V)
  all_but_last [] = []
  all_but_last (e ∷ []) = []
  all_but_last (e ∷ f ∷ l) = e ∷ all_but_last (f ∷ l)

  unfoldable pub report : Entry K V → Model K V → Model K V
  report e m = record m {
    evicted = if m.has_callback then m.evicted ++ (e.key, e.value) ∷ [] else m.evicted;
  }

  unfoldable pub stale : ℤ → Entry K V → Model K V → Bool
  stale now e m =
      not (eqb_ℤ m.expiry (pos 0))
      && ltb_ℤ (quot m.expiry millisecond) (quot now millisecond -ℤ e.time_insert)

  unfoldable pub stamp : ℤ → Model K V → ℤ
  stamp now m = if not (eqb_ℤ m.expiry (pos 0)) then quot now millisecond else pos 0

  -- The least recently used entry goes, and is reported.
  unfoldable pub evict_oldest : Model K V → Model K V
  unfolding last all_but_last report
  evict_oldest m = elim (last m.entries) [
    | none ↦ m
    | some e ↦ report e (record m { entries = all_but_last m.entries })
  ]

module _ {ℓ} {K V : Type ℓ} (dec : Discrete K) where
  unfoldable pub lookup : K → List (Entry K V) → Option (Entry K V)
  lookup k [] = none
  lookup k (e ∷ l) = if holds (dec e.key k) then some e else lookup k l

  unfoldable pub erase : K → List (Entry K V) → List (Entry K V)
  erase k [] = []
  erase k (e ∷ l) = if holds (dec e.key k) then l else e ∷ erase k l

  unfoldable pub assign : K → V → List (Entry K V) → List (Entry K V)
  assign k v [] = []
  assign k v (e ∷ l) = if holds (dec e.key k) then record e { value = v } ∷ l else e ∷ assign k v l

  unfoldable pub read : ℤ → K → Model K V → Model K V × Option V
  unfolding lookup erase report stale
  read now k m = elim (lookup k m.entries) [
    | none ↦ (m, none)
    | some e ↦
        if stale now e m
        then (report e (record m { entries = erase k m.entries }), none)
        else (record m { entries = e ∷ erase k m.entries }, some e.value)
  ]

  unfoldable pub store : ℤ → K → V → Model K V → Model K V
  unfolding lookup erase evict_oldest stamp
  store now k v m =
      let e : Entry K V = record { key = k; value = v; time_insert = stamp now m } in
      elim (lookup k m.entries) [
        | some _ ↦ record m { entries = e ∷ erase k m.entries }
        | none ↦
            if exceeds m.size (length (e ∷ m.entries))
            then evict_oldest (record m { entries = e ∷ m.entries })
            else record m { entries = e ∷ m.entries }
      ]

  unfoldable pub discard : K → Model K V → Model K V
  unfolding lookup erase report
  discard k m = elim (lookup k m.entries) [
    | none ↦ m
    | some e ↦ report e (record m { entries = erase k m.entries })
  ]
