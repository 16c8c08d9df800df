-- ===== src/Lru/Base.antt =====
-- lru/lru_base.go: `cacheBase`. The list `ll` holds its elements, front first, each with the address that
-- a `*list.Element` stands for; the map `cache` holds addresses. A clock reading is an argument of the
-- methods that read the clock, in nanoseconds, and the calls of `OnEvicted` are recorded in `evicted`.
use gofrog.Prelude.{
  ℕ, suc, List, [], ◌∷◌, ◌++◌, Bool, false, not, ◌&&◌, if◌then◌else◌, ◌==◌, holds, length, Option,
  none, some, ℤ, pos, ltb_ℤ, eqb_ℤ, ◌-ℤ◌, quot, MapRange,
}

-- An element of the list with the entry that it holds.
pub record Element {ℓ} (K V : Type ℓ) : Type ℓ where
  pub address : ℕ
  pub key : K
  pub value : V
  pub time_insert : ℤ

pub record CacheBase {ℓ} (K V : Type ℓ) : Type ℓ where
  pub expiry : ℤ
  pub size : ℤ
  pub has_callback : Bool
  pub ll : List (Element K V)
  pub cache : List (K × ℕ)
  -- The address of the next element to be allocated.
  pub next : ℕ
  pub evicted : List (K × V)

-- time.Millisecond in nanoseconds.
abbrev pub millisecond : ℕ
millisecond = 1000000

unfoldable pub new_cache_base {ℓ} : {K V : Type ℓ} → ℤ → CacheBase K V
new_cache_base size = record {
  expiry = pos 0;
  size = size;
  has_callback = false;
  ll = [];
  cache = [];
  next = 0;
  evicted = [];
}

-- The test of `Add`: the cache is bounded and holds more than its size.
unfoldable pub exceeds : ℤ → ℕ → Bool
exceeds size n = not (eqb_ℤ size (pos 0)) && ltb_ℤ size (pos n)

module _ {ℓ} {K V : Type ℓ} where
  -- container/list: the element at an address, `Remove`, `MoveToFront`, `PushFront` and `Back`.
  unfoldable pub element_at : ℕ → List (Element K V) → Option (Element K V)
  element_at a [] = none
  element_at a (e ∷ l) = if e.address == a then some e else element_at a l

  unfoldable pub unlink : ℕ → List (Element K V) → List (Element K V)
  unlink a [] = []
  unlink a (e ∷ l) = let rest = unlink a l in if e.address == a then l else e ∷ rest

  unfoldable pub move_to_front : ℕ → List (Element K V) → List (Element K V)
  unfolding element_at unlink
  move_to_front a l = elim (element_at a l) [ none ↦ l | some e ↦ e ∷ unlink a l ]

  unfoldable pub back : List (Element K V) → Option ℕ
  back [] = none
  back (e ∷ []) = some e.address
  back (_ ∷ f ∷ l) = back (f ∷ l)

  -- A write through the entry's pointer.
  unfoldable pub write_entry :
      ℕ → (Element K V → Element K V) → List (Element K V) → List (Element K V)
  write_entry a f [] = []
  write_entry a f (e ∷ l) = if e.address == a then f e ∷ l else e ∷ write_entry a f l

  unfoldable pub notify : K → V → CacheBase K V → CacheBase K V
  notify k v c = record c {
    evicted = if c.has_callback then c.evicted ++ (k, v) ∷ [] else c.evicted;
  }

  -- `now` is `time.Now().UnixNano()`.
  unfoldable pub epoch_now : ℤ → CacheBase K V → ℤ
  epoch_now now c = if not (eqb_ℤ c.expiry (pos 0)) then quot now millisecond else pos 0

  -- The test of `Get` on a cache with an expiry: the entry is older than the expiry allows.
  unfoldable pub is_expired : ℤ → Element K V → CacheBase K V → Bool
  is_expired now e c =
      not (eqb_ℤ c.expiry (pos 0))
      && ltb_ℤ (quot c.expiry millisecond) (quot now millisecond -ℤ e.time_insert)

  unfoldable pub len : CacheBase K V → ℕ
  len c = length c.ll

module _ {ℓ} {K : Type ℓ} (dec : Discrete K) where
  -- The map from keys to elements: lookup and `delete`. A new key goes in front.
  unfoldable pub find : K → List (K × ℕ) → Option ℕ
  find k [] = none
  find k ((j, a) ∷ m) = if holds (dec j k) then some a else find k m

  unfoldable pub delete : K → List (K × ℕ) → List (K × ℕ)
  delete k [] = []
  delete k ((j, a) ∷ m) = let rest = delete k m in if holds (dec j k) then rest else (j, a) ∷ rest

module _ {ℓ} {K V : Type ℓ} (dec : Discrete K) where
  unfoldable pub remove_element : ℕ → CacheBase K V → CacheBase K V
  unfolding element_at unlink delete notify
  remove_element a c = elim (element_at a c.ll) [
    | none ↦ c
    | some e ↦
        notify e.key e.value (record c { ll = unlink a c.ll; cache = delete dec e.key c.cache })
  ]

  unfoldable pub remove_oldest : CacheBase K V → CacheBase K V
  unfolding back remove_element
  remove_oldest c = elim (back c.ll) [ none ↦ c | some a ↦ remove_element a c ]

  unfoldable pub add : ℤ → K → V → CacheBase K V → CacheBase K V
  unfolding find move_to_front write_entry remove_oldest epoch_now
  add now k v c = elim (find dec k c.cache) [
    | some a ↦ record c {
      ll =
          write_entry a (λ e. record e { value = v; time_insert = epoch_now now c })
            (move_to_front a c.ll);
    }
    | none ↦
        let c' : CacheBase K V = record c {
          ll =
              record { address = c.next; key = k; value = v; time_insert = epoch_now now c } ∷ c.ll;
          cache = (k, c.next) ∷ c.cache;
          next = suc c.next;
        } in
        if exceeds c.size (length c'.ll) then remove_oldest c' else c'
  ]

  unfoldable pub get : ℤ → K → CacheBase K V → CacheBase K V × Option V
  unfolding find element_at is_expired remove_element move_to_front
  get now k c = elim (find dec k c.cache) [
    | none ↦ (c, none)
    | some a ↦ elim (element_at a c.ll) [
      | none ↦ (c, none)
      | some e ↦
          if is_expired now e c
          then (remove_element a c, none)
          else (record c { ll = move_to_front a c.ll }, some e.value)
    ]
  ]

  unfoldable pub update_element : K → V → CacheBase K V → CacheBase K V
  unfolding find write_entry
  update_element k v c = elim (find dec k c.cache) [
    | none ↦ c
    | some a ↦ record c { ll = write_entry a (λ e. record e { value = v }) c.ll }
  ]

  unfoldable pub remove : K → CacheBase K V → CacheBase K V
  unfolding find remove_element
  remove k c = elim (find dec k c.cache) [ none ↦ c | some a ↦ remove_element a c ]

  -- The loop of `Clear`, over the elements in the order in which the map is visited.
  unfoldable pub clear_all : List (K × ℕ) → CacheBase K V → CacheBase K V
  unfolding element_at notify delete
  clear_all [] c = c
  clear_all ((_, a) ∷ m) c = clear_all m (elim (element_at a c.ll) [
    | none ↦ c
    | some e ↦ let c' = notify e.key e.value c in record c' { cache = delete dec e.key c'.cache }
  ])

  unfoldable pub clear : MapRange (K × ℕ) → CacheBase K V → CacheBase K V
  unfolding clear_all
  clear range c = record (clear_all (range.visit c.cache) c) { ll = [] }
