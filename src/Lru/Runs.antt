-- ===== src/Lru/Runs.antt =====
-- lru/: whatever calls a cache receives, it stays well formed and within its size, and it returns what
-- the specification returns.
use mathlib.Core.List.{Permᴰ}
use gofrog.Lru.Clear.{clear-reports, clear_keeps, pairs-view}
use gofrog.Prelude.{
  ℕ, ◌<◌, ◌≤◌, ◌≡◌, refl, List, [], ◌∷◌, length, Option, arith, Option-cases, inl, inr, ℤ, pos, ap,
  sym, ◌∙◌, ◌++◌, map, MapRange, if◌then◌else◌, length-take-le,
}
use gofrog.Lru.Base.{
  Element, len, clear, CacheBase, add, get, update_element, remove, remove_oldest,
}
use gofrog.Lru.Invariant.{IsValid}
use gofrog.Lru.Spec.{
  Entry, Model, entries_of, view, last, all_but_last, evict_oldest, lookup, assign, read, store,
  discard,
}
use gofrog.Lru.Refinement.{
  get-read, add-store, remove-discard, remove_oldest-evict_oldest, update_element-assign,
  length-entries_of,
}
use gofrog.Lru.Window.{store-take, config-store, config-evict_oldest, length-erase}

-- The calls that a cache can receive, with the clock readings of those that read the clock, and for Clear the
-- order in which it ranges over the map.
pub data Call {ℓ} (K V : Type ℓ) : Type ℓ where
  add_call : ℤ → K → V → Call K V
  get_call : ℤ → K → Call K V
  update_call : K → V → Call K V
  remove_call : K → Call K V
  remove_oldest_call : Call K V
  len_call : Call K V
  clear_call : MapRange (K × ℕ) → Call K V

-- What a call returns: nothing, the value of `Get` with its flag, or the number of `Len`.
pub data Reply {ℓ} (V : Type ℓ) : Type ℓ where
  no_reply : Reply V
  value_reply : Option V → Reply V
  len_reply : ℕ → Reply V

module _ {ℓ} {K V : Type ℓ} (dec : Discrete K) where
  -- The state after a call, and what it returns.
  unfoldable pub perform : Call K V → CacheBase K V → CacheBase K V × Reply V
  perform (add_call now k v) c = (add dec now k v c, no_reply)
  perform (get_call now k) c = ((get dec now k c).0, value_reply (get dec now k c).1)
  perform (update_call k v) c = (update_element dec k v c, no_reply)
  perform (remove_call k) c = (remove dec k c, no_reply)
  perform remove_oldest_call c = (remove_oldest dec c, no_reply)
  perform len_call c = (c, len_reply (len c))
  perform (clear_call range) c = (clear dec range c, no_reply)

  -- An empty model that has reported each entry once, in some order, if there is a callback.
  pub record IsCleared (m n : Model K V) : Type ℓ where
    pub expiry : n.expiry ≡ m.expiry
    pub size : n.size ≡ m.size
    pub has_callback : n.has_callback ≡ m.has_callback
    pub entries : n.entries ≡ []
    pub reports : List (K × V)
    pub evicted : n.evicted ≡ (if m.has_callback then m.evicted ++ reports else m.evicted)
    pub each_once : Permᴰ reports (map (λ e. (e.key, e.value)) m.entries)

  -- The specification of a call: the model before it, the model after it and what it returns.
  abbrev pub Promises : Call K V → Model K V → Model K V → Reply V → Type ℓ
  Promises (add_call now k v) m n r = (n ≡ store dec now k v m) × (r ≡ no_reply)
  Promises (get_call now k) m n r =
      (n ≡ (read dec now k m).0) × (r ≡ value_reply (read dec now k m).1)
  Promises (update_call k v) m n r =
      (n ≡ record m { entries = assign dec k v m.entries }) × (r ≡ no_reply)
  Promises (remove_call k) m n r = (n ≡ discard dec k m) × (r ≡ no_reply)
  Promises remove_oldest_call m n r = (n ≡ evict_oldest m) × (r ≡ no_reply)
  Promises len_call m n r = (n ≡ m) × (r ≡ len_reply (length m.entries))
  Promises (clear_call range) m n r = IsCleared m n × (r ≡ no_reply)

  -- All calls in turn: the last state, and the results.
  unfoldable pub run : List (Call K V) → CacheBase K V → CacheBase K V × List (Reply V)
  run [] c = (c, [])
  run (call ∷ calls) c =
      let (c', result) = perform call c in
      let (last_state, results) = run calls c' in (last_state, result ∷ results)

  -- The specification of all calls, with the models in between.
  pub data Promised : Model K V → List (Call K V) → Model K V → List (Reply V) → Type ℓ where
    no_calls : {m : Model K V} → Promised m [] m []
    one_call :
        {call : Call K V} {calls : List (Call K V)} {m m' n : Model K V} {r : Reply V}
        {rs : List (Reply V)}
        → Promises call m m' r
        → Promised m' calls n rs
        → Promised m (call ∷ calls) n (r ∷ rs)

  perform-Promises :
      (call : Call K V) (c : CacheBase K V)
      → IsValid dec c
      → IsValid dec (perform call c).0
        × Promises call (view c) (view (perform call c).0) (perform call c).1
  unfolding perform len
  perform-Promises (add_call now k x) c v =
      let (kept, seen) = add-store dec now k x c v in (kept, (seen, refl))
  perform-Promises (get_call now k) c v =
      let (kept, seen, same) = get-read dec now k c v in
      (kept, (seen, ap (λ o. value_reply o) same))
  perform-Promises (update_call k x) c v =
      let (kept, seen) = update_element-assign dec k x c v in (kept, (seen, refl))
  perform-Promises (remove_call k) c v =
      let (kept, seen) = remove-discard dec k c v in (kept, (seen, refl))
  perform-Promises remove_oldest_call c v =
      let (kept, seen) = remove_oldest-evict_oldest dec c v in (kept, (seen, refl))
  perform-Promises len_call c v =
      (v, (refl, ap (λ n. len_reply n) (sym (length-entries_of dec c.ll))))
  perform-Promises (clear_call range) c v =
      let (kept, empty, no_keys, (reports, reported, each_once)) = clear-reports dec range c v in
      let (expiry, size, has_callback) = clear_keeps dec range c in
      (
        kept,
        (
          record {
            expiry = expiry;
            size = size;
            has_callback = has_callback;
            entries = ap (λ (l : List (Element K V)). entries_of l) empty;
            reports = reports;
            evicted = reported;
            each_once = rw (pairs-view dec c.ll) at each_once;
          },
          refl,
        ),
      )

  -- For every sequence of calls on a valid cache, Len and Clear among them: the map and the list stay in
  -- step, and the entries, the reported evictions and all results are as the specification has them.
  pub run-Promised :
      (calls : List (Call K V)) (c : CacheBase K V)
      → IsValid dec c
      → IsValid dec (run calls c).0 × Promised (view c) calls (view (run calls c).0) (run calls c).1
  unfolding run
  run-Promised [] c v = (v, no_calls)
  run-Promised (call ∷ calls) c v =
      let (kept, promises) = perform-Promises call c v in
      let (kept', promised) = run-Promised calls (perform call c).0 kept in
      (kept', one_call promises promised)

  length-all_but_last : (l : List (Entry K V)) → length (all_but_last l) ≤ length l
  unfolding all_but_last
  length-all_but_last [] = omega arith
  length-all_but_last (e ∷ []) = omega arith
  length-all_but_last (e ∷ f ∷ l) = omega (arith, length-all_but_last (f ∷ l))

  length-evict_oldest : (m : Model K V) → length (evict_oldest m).entries ≤ length m.entries
  unfolding evict_oldest
  length-evict_oldest m = elim (Option-cases (last m.entries)) [
    | inl h ↦ ground arith
    | inr (e, h) ↦ ground (arith, length-all_but_last m.entries)
  ]

  length-assign : (k : K) (x : V) (l : List (Entry K V)) → length (assign dec k x l) ≡ length l
  unfolding assign
  length-assign k x [] = refl
  length-assign k x (e ∷ l) = ground (arith, length-assign k x l)

  -- The bound that a positive size puts on the entries.
  abbrev WithinSize : ℕ → Model K V → Type 0
  WithinSize n m = (length m.entries ≤ n) × (m.size ≡ pos n)

  Promises-WithinSize :
      (call : Call K V) (m m' : Model K V) (r : Reply V) (n : ℕ)
      → 0 < n
      → Promises call m m' r
      → WithinSize n m
      → WithinSize n m'
  unfolding read discard
  Promises-WithinSize (add_call now k x) m m' r n p (same, _) w = rw (same) (
    rw (store-take dec now k x m n w.1 p w.0) (length-take-le n _),
    (config-store dec now k x m).1 ∙ w.1,
  )
  Promises-WithinSize (get_call now k) m m' r n p (same, _) w =
      elim (Option-cases (lookup dec k m.entries)) [
        | inl miss ↦ ground (arith, w, same)
        | inr (e, hit) ↦ ground (arith, w, same, length-erase dec k m.entries e hit)
      ]
  Promises-WithinSize (update_call k x) m m' r n p (same, _) w =
      rw (same) (omega (arith, length-assign k x m.entries), w.1)
  Promises-WithinSize (remove_call k) m m' r n p (same, _) w =
      elim (Option-cases (lookup dec k m.entries)) [
        | inl miss ↦ ground (arith, w, same)
        | inr (e, hit) ↦ ground (arith, w, same, length-erase dec k m.entries e hit)
      ]
  Promises-WithinSize remove_oldest_call m m' r n p (same, _) w =
      rw (same) (omega (arith, length-evict_oldest m), (config-evict_oldest m).1 ∙ w.1)
  Promises-WithinSize len_call m m' r n p (same, _) w = rw (same) w
  Promises-WithinSize (clear_call range) m m' r n p (cleared, _) w =
      (rw (cleared.entries) (omega arith), cleared.size ∙ w.1)

  Promised-WithinSize :
      {calls : List (Call K V)} {m m' : Model K V} {rs : List (Reply V)} (n : ℕ)
      → 0 < n
      → Promised m calls m' rs
      → WithinSize n m
      → WithinSize n m'
  Promised-WithinSize n p no_calls w = w
  Promised-WithinSize n p (one_call {call = call} {m' = m'} {r = r} promises promised) w =
      Promised-WithinSize n p promised (Promises-WithinSize call _ m' r n p promises w)

  -- From a valid cache of a positive size n with at most n entries, no sequence of calls, Len and Clear
  -- among them, leads to a cache with more than n entries.
  pub length-run :
      (calls : List (Call K V)) (c : CacheBase K V) (n : ℕ)
      → IsValid dec c
      → c.size ≡ pos n
      → 0 < n
      → length c.ll ≤ n
      → length (run calls c).0.ll ≤ n
  length-run calls c n v size p h =
      let start : length (entries_of c.ll) ≤ n = omega (arith, length-entries_of dec c.ll) in
      let within = Promised-WithinSize n p (run-Promised calls c v).1 (start, size) in
      omega (arith, within.0, length-entries_of dec (run calls c).0.ll)
