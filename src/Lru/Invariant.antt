-- ===== src/Lru/Invariant.antt =====
-- lru/lru_base.go: the invariant that ties the map to the list, and what the elementary changes of the
-- state do to it.
use gofrog.Prelude.{
  ℕ, suc, ◌<◌, ◌≡◌, refl, List, [], ◌∷◌, if◌then◌else◌, holds, none, some, All, arith, ℤ, ◌∙◌, sym,
}
use gofrog.Lru.Base.{Element, CacheBase, notify, find, delete, remove_element, new_cache_base}
use gofrog.Lru.Elements.{
  address?, by_key, without, DistinctKeys, DistinctAddresses, key-by_key, element_at-by_key,
  unlink-without, by_key-without, DistinctKeys-without, DistinctAddresses-without,
  element_at-without_self, All-without, All-by_key, written, address-written, DistinctKeys-written,
  DistinctAddresses-written, All-written, element_at-fresh, All-suc,
}

module _ {ℓ} {K : Type ℓ} (dec : Discrete K) where
  -- No key stands twice in the map.
  abbrev pub DistinctMap : List (K × ℕ) → Type ℓ
  DistinctMap [] = Unit
  DistinctMap ((k, _) ∷ m) = (find dec k m ≡ none) × DistinctMap m

  pub find-delete :
      (j k : K) (m : List (K × ℕ))
      → find dec j (delete dec k m) ≡ (if holds (dec k j) then none else find dec j m)
  unfolding find delete
  find-delete j k [] = ground arith
  find-delete j k ((i, a) ∷ m) = ground (arith, find-delete j k m)

  pub DistinctMap-delete : (k : K) (m : List (K × ℕ)) → DistinctMap m → DistinctMap (delete dec k m)
  unfolding delete
  DistinctMap-delete k [] d = tt
  DistinctMap-delete k ((i, a) ∷ m) d =
      ground (arith, DistinctMap-delete k m d.1, find-delete i k m)

module _ {ℓ} {K V : Type ℓ} (dec : Discrete K) where
  -- The map leads from exactly the keys of the list to their elements.
  pub record IsValid (c : CacheBase K V) : Type ℓ where
    pub indexed : (k : K) → find dec k c.cache ≡ address? (by_key dec k c.ll)
    pub distinct_map : DistinctMap dec c.cache
    pub distinct_keys : DistinctKeys dec c.ll
    pub distinct_addresses : DistinctAddresses c.ll
    pub fresh : All (λ e. e.address < c.next) c.ll

  -- The cache without the element `e`, which is reported.
  unfoldable pub drop : Element K V → CacheBase K V → CacheBase K V
  unfolding notify
  drop e c =
      notify e.key e.value
        (record c { ll = without dec e.key c.ll; cache = delete dec e.key c.cache })

  pub remove_element-drop :
      (k : K) (e : Element K V) (c : CacheBase K V)
      → IsValid c
      → by_key dec k c.ll ≡ some e
      → remove_element dec e.address c ≡ drop e c
  unfolding remove_element drop
  remove_element-drop k e c v h = ground (
    arith,
    element_at-by_key dec k c.ll e v.distinct_addresses h,
    unlink-without dec k c.ll e v.distinct_addresses h,
    key-by_key dec k c.ll e h,
  )

  pub drop-IsValid : (e : Element K V) (c : CacheBase K V) → IsValid c → IsValid (drop e c)
  unfolding drop
  drop-IsValid e c v = record {
    indexed = λ j. ground (
      arith,
      v.indexed j,
      find-delete dec j e.key c.cache,
      by_key-without dec j e.key c.ll v.distinct_keys,
    );
    distinct_map = DistinctMap-delete dec e.key c.cache v.distinct_map;
    distinct_keys = DistinctKeys-without dec e.key c.ll v.distinct_keys;
    distinct_addresses = DistinctAddresses-without dec e.key c.ll v.distinct_addresses;
    fresh = All-without dec (λ x. x.address < c.next) e.key c.ll v.fresh;
  }

  -- To move an element to the front, under new contents.
  pub front-IsValid :
      (k : K) (e e' : Element K V) (c : CacheBase K V)
      → IsValid c
      → by_key dec k c.ll ≡ some e
      → e'.key ≡ e.key
      → e'.address ≡ e.address
      → IsValid (record c { ll = e' ∷ without dec k c.ll })
  unfolding by_key
  front-IsValid k e e' c v h same_key same_address = record {
    indexed = λ j. ground (
      arith,
      v.indexed j,
      by_key-without dec j k c.ll v.distinct_keys,
      key-by_key dec k c.ll e h,
    );
    distinct_map = v.distinct_map;
    distinct_keys = (
      ground (arith, by_key-without dec k k c.ll v.distinct_keys, key-by_key dec k c.ll e h),
      DistinctKeys-without dec k c.ll v.distinct_keys,
    );
    distinct_addresses = (
      ground (arith, element_at-without_self dec k c.ll e v.distinct_addresses h),
      DistinctAddresses-without dec k c.ll v.distinct_addresses,
    );
    fresh = (
      rw same_address (All-by_key dec (λ x. x.address < c.next) k c.ll e v.fresh h),
      All-without dec (λ x. x.address < c.next) k c.ll v.fresh,
    );
  }

  -- A new element in front, at the next address.
  pub push-IsValid :
      (k : K) (e : Element K V) (c : CacheBase K V)
      → IsValid c
      → find dec k c.cache ≡ none
      → e.key ≡ k
      → e.address ≡ c.next
      → IsValid (record c { ll = e ∷ c.ll; cache = (k, c.next) ∷ c.cache; next = suc c.next })
  unfolding by_key find
  push-IsValid k e c v miss same_key same_address = record {
    indexed = λ j. ground (arith, v.indexed j);
    distinct_map = (miss, v.distinct_map);
    distinct_keys = (ground (arith, v.indexed k), v.distinct_keys);
    distinct_addresses =
        (rw same_address (element_at-fresh c.next c.ll v.fresh), v.distinct_addresses);
    fresh = (omega arith, All-suc c.next c.ll v.fresh);
  }

  pub written-IsValid :
      (a : ℕ) (x : V) (c : CacheBase K V)
      → IsValid c
      → IsValid (record c { ll = written dec a x c.ll })
  written-IsValid a x c v = record {
    indexed = λ j. v.indexed j ∙ sym (address-written dec a x j c.ll);
    distinct_map = v.distinct_map;
    distinct_keys = DistinctKeys-written dec a x c.ll v.distinct_keys;
    distinct_addresses = DistinctAddresses-written dec a x c.ll v.distinct_addresses;
    fresh = All-written dec a x c.next c.ll v.fresh;
  }

  pub new_cache_base-IsValid : (size : ℤ) → IsValid (new_cache_base size)
  unfolding new_cache_base find by_key
  new_cache_base-IsValid size = record {
    indexed = λ j. refl;
    distinct_map = tt;
    distinct_keys = tt;
    distinct_addresses = tt;
    fresh = tt;
  }
