-- ===== src/Lru/Cache.antt =====
-- lru/lru.go: `Cache`, the cache behind a mutex. `none` means that the call waits for a mutex that is held.
-- A callback that is set is only recorded as set: its calls stand in the base cache's `evicted`.
use gofrog.Prelude.{
  ℕ, ◌≡◌, List, [], ◌∷◌, Bool, true, false, if◌then◌else◌, not, ◌&&◌, Option, none, some, ℤ, arith,
  MapRange,
}
use gofrog.Lru.Base.{CacheBase, new_cache_base}
use gofrog.Lru.Base
use gofrog.Lru.Runs.{
  Call, add_call, get_call, update_call, remove_call, remove_oldest_call, len_call, clear_call,
  Reply, no_reply, value_reply, len_reply, perform,
}

pub record Cache {ℓ} (K V : Type ℓ) : Type ℓ where
  pub cache : CacheBase K V
  pub locked : Bool
  pub no_sync : Bool

module _ {ℓ} {K V : Type ℓ} where
  apply_options : List (Cache K V → Cache K V) → Cache K V → Cache K V
  apply_options [] c = c
  apply_options (option ∷ options) c = apply_options options (option c)

  unfoldable pub new : ℤ → List (Cache K V → Cache K V) → Cache K V
  unfolding apply_options
  new size options =
      apply_options options
        (record { cache = new_cache_base size; locked = false; no_sync = false })

  unfoldable pub with_expiry : ℤ → Cache K V → Cache K V
  with_expiry expiry c = let base = c.cache in record c { cache = record base { expiry = expiry } }

  unfoldable pub with_eviction_callback : Cache K V → Cache K V
  with_eviction_callback c =
      let base = c.cache in record c { cache = record base { has_callback = true } }

  unfoldable pub without_sync : Cache K V → Cache K V
  without_sync c = record c { no_sync = true }

  -- sync.Mutex: `Lock`, and `Unlock` when the method returns.
  unfoldable pub lock : Cache K V → Option (Cache K V)
  lock c = if c.locked then none else some (record c { locked = true })

  unfoldable pub unlock : Cache K V → Cache K V
  unlock c = record c { locked = false }

  -- The head of a method, and what it has deferred.
  unfoldable pub enter : Cache K V → Option (Cache K V)
  unfolding lock
  enter c = if not c.no_sync then lock c else some c

  unfoldable pub leave : Cache K V → Cache K V
  unfolding unlock
  leave c = if not c.no_sync then unlock c else c

module _ {ℓ} {K V : Type ℓ} (dec : Discrete K) where
  unfoldable pub add : ℤ → K → V → Cache K V → Option (Cache K V × Unit {0})
  unfolding enter leave
  add now key value c = elim (enter c) [
    | none ↦ none
    | some c' ↦ some (leave (record c' { cache = Base.add dec now key value c'.cache }), tt)
  ]

  unfoldable pub get : ℤ → K → Cache K V → Option (Cache K V × Option V)
  unfolding enter leave
  get now key c = elim (enter c) [
    | none ↦ none
    | some c' ↦ some (
      leave (record c' { cache = (Base.get dec now key c'.cache).0 }),
      (Base.get dec now key c'.cache).1,
    )
  ]

  unfoldable pub update_element : K → V → Cache K V → Option (Cache K V × Unit {0})
  unfolding enter leave
  update_element key value c = elim (enter c) [
    | none ↦ none
    | some c' ↦ some (leave (record c' { cache = Base.update_element dec key value c'.cache }), tt)
  ]

  unfoldable pub remove : K → Cache K V → Option (Cache K V × Unit {0})
  unfolding enter leave
  remove key c = elim (enter c) [
    | none ↦ none
    | some c' ↦ some (leave (record c' { cache = Base.remove dec key c'.cache }), tt)
  ]

  unfoldable pub remove_oldest : Cache K V → Option (Cache K V × Unit {0})
  unfolding enter leave
  remove_oldest c = elim (enter c) [
    | none ↦ none
    | some c' ↦ some (leave (record c' { cache = Base.remove_oldest dec c'.cache }), tt)
  ]

  unfoldable pub len : Cache K V → Option (Cache K V × ℕ)
  unfolding enter leave
  len c = elim (enter c) [
    | none ↦ none
    | some c' ↦ some (leave (record c' { cache = c'.cache }), Base.len c'.cache)
  ]

  unfoldable pub clear : MapRange (K × ℕ) → Cache K V → Option (Cache K V × Unit {0})
  unfolding enter leave
  clear range c = elim (enter c) [
    | none ↦ none
    | some c' ↦ some (leave (record c' { cache = Base.clear dec range c'.cache }), tt)
  ]

  -- A call of one of the methods, its result put in the same form for all.
  unfoldable pub call_method : Call K V → Cache K V → Option (Cache K V × Reply V)
  unfolding add get update_element remove remove_oldest len clear
  call_method (add_call now k v) c = elim (add now k v c) [
    | none ↦ none
    | some r ↦ some (r.0, no_reply)
  ]
  call_method (get_call now k) c = elim (get now k c) [
    | none ↦ none
    | some r ↦ some (r.0, value_reply r.1)
  ]
  call_method (update_call k v) c = elim (update_element k v c) [
    | none ↦ none
    | some r ↦ some (r.0, no_reply)
  ]
  call_method (remove_call k) c = elim (remove k c) [ none ↦ none | some r ↦ some (r.0, no_reply) ]
  call_method remove_oldest_call c = elim (remove_oldest c) [
    | none ↦ none
    | some r ↦ some (r.0, no_reply)
  ]
  call_method len_call c = elim (len c) [ none ↦ none | some r ↦ some (r.0, len_reply r.1) ]
  call_method (clear_call range) c = elim (clear range c) [
    | none ↦ none
    | some r ↦ some (r.0, no_reply)
  ]

  -- Every method, Len and Clear among them, waits on a synchronized cache whose mutex is held; otherwise it
  -- returns, does to the base cache what the base method does, returns its result, and leaves the
  -- mutex and the cache's mode as they were.
  pub call_method-perform :
      (call : Call K V) (c : Cache K V)
      → call_method call c ≡ (
          if not c.no_sync && c.locked
          then none
          else some
              (record c { cache = (perform dec call c.cache).0 }, (perform dec call c.cache).1))
  unfolding call_method perform
  call_method-perform (add_call now k v) c = ground arith
  call_method-perform (get_call now k) c = ground arith
  call_method-perform (update_call k v) c = ground arith
  call_method-perform (remove_call k) c = ground arith
  call_method-perform remove_oldest_call c = ground arith
  call_method-perform len_call c = ground arith
  call_method-perform (clear_call range) c = ground arith
