-- ===== src/Lru/Refinement.antt =====
-- lru/lru_base.go: every method does to the list of entries what the specification says.
use gofrog.Prelude.{
  suc, ◌≡◌, refl, List, [], ◌∷◌, length, Option, none, some, arith, Option-cases, inl, inr, ℤ, ap,
}
use gofrog.Lru.Base.{
  Element, CacheBase, write_entry, epoch_now, remove_oldest, add, get, update_element, remove,
}
use gofrog.Lru.Elements.{
  last?, back-last?, by_key, without, DistinctKeys, DistinctAddresses, key-by_key,
  element_at-by_key, move_to_front-by_key, by_key-last?, found, written,
}
use gofrog.Lru.Invariant.{
  IsValid, drop, remove_element-drop, drop-IsValid, front-IsValid, push-IsValid, written-IsValid,
}
use gofrog.Lru.Spec.{
  Entry, entry_of, entries_of, view, last, all_but_last, report, stale, evict_oldest, lookup, erase,
  assign, read, store, discard,
}

module _ {ℓ} {K V : Type ℓ} (dec : Discrete K) where
  abbrev entry? : Option (Element K V) → Option (Entry K V)
  entry? none = none
  entry? (some e) = some (entry_of e)

  lookup-entries_of :
      (k : K) (l : List (Element K V)) → lookup dec k (entries_of l) ≡ entry? (by_key dec k l)
  unfolding lookup by_key
  lookup-entries_of k [] = refl
  lookup-entries_of k (e ∷ l) = ground (arith, lookup-entries_of k l)

  erase-entries_of :
      (k : K) (l : List (Element K V)) → erase dec k (entries_of l) ≡ entries_of (without dec k l)
  unfolding erase without
  erase-entries_of k [] = refl
  erase-entries_of k (e ∷ l) = ground (arith, erase-entries_of k l)

  last-entries_of : (l : List (Element K V)) → last (entries_of l) ≡ entry? (last? l)
  unfolding last last?
  last-entries_of [] = refl
  last-entries_of (e ∷ []) = refl
  last-entries_of (_ ∷ f ∷ l) = last-entries_of (f ∷ l)

  pub length-entries_of : (l : List (Element K V)) → length (entries_of l) ≡ length l
  length-entries_of [] = refl
  length-entries_of (e ∷ l) = ap suc (length-entries_of l)

  all_but_last-without :
      (l : List (Element K V)) (e : Element K V)
      → DistinctKeys dec l
      → last? l ≡ some e
      → entries_of (without dec e.key l) ≡ all_but_last (entries_of l)
  unfolding last? without all_but_last
  all_but_last-without [] e d h = refl
  all_but_last-without (x ∷ []) e d h = ground arith
  all_but_last-without (x ∷ y ∷ l) e d h =
      ground (arith, all_but_last-without (y ∷ l) e d.1, by_key-last? dec (y ∷ l) e d.1)

  view-drop :
      (e : Element K V) (c : CacheBase K V)
      → view (drop dec e c)
        ≡ report (entry_of e) (record (view c) { entries = erase dec e.key (entries_of c.ll) })
  unfolding drop report
  view-drop e c = ground (arith, erase-entries_of e.key c.ll)

  -- `Get` of a valid cache leaves a valid cache, and returns and leaves what the specification says:
  -- a fresh entry moves to the front, a stale one is dropped and reported.
  pub get-read :
      (now : ℤ) (k : K) (c : CacheBase K V)
      → IsValid dec c
      → IsValid dec (get dec now k c).0
        × (view (get dec now k c).0 ≡ (read dec now k (view c)).0)
        × ((get dec now k c).1 ≡ (read dec now k (view c)).1)
  unfolding get read stale
  get-read now k c v = elim (Option-cases (by_key dec k c.ll)) [
    | inl miss ↦ ground (arith, v.indexed k, lookup-entries_of k c.ll)
    | inr (e, hit) ↦ ground (
      arith,
      v.indexed k,
      lookup-entries_of k c.ll,
      erase-entries_of k c.ll,
      key-by_key dec k c.ll e hit,
      element_at-by_key dec k c.ll e v.distinct_addresses hit,
      move_to_front-by_key dec k c.ll e v.distinct_addresses hit,
      remove_element-drop dec k e c v hit,
      view-drop e c,
      drop-IsValid dec e c v,
      front-IsValid dec k e e c v hit refl refl,
    )
  ]

  -- `Remove` of a valid cache leaves a valid cache without the entry of the key, which is reported.
  pub remove-discard :
      (k : K) (c : CacheBase K V)
      → IsValid dec c
      → IsValid dec (remove dec k c) × (view (remove dec k c) ≡ discard dec k (view c))
  unfolding remove discard
  remove-discard k c v = elim (Option-cases (by_key dec k c.ll)) [
    | inl miss ↦ ground (arith, v.indexed k, lookup-entries_of k c.ll)
    | inr (e, hit) ↦ ground (
      arith,
      v.indexed k,
      lookup-entries_of k c.ll,
      erase-entries_of k c.ll,
      key-by_key dec k c.ll e hit,
      remove_element-drop dec k e c v hit,
      view-drop e c,
      drop-IsValid dec e c v,
    )
  ]

  -- `RemoveOldest` of a valid cache leaves a valid cache without its last entry, which is reported.
  pub remove_oldest-evict_oldest :
      (c : CacheBase K V)
      → IsValid dec c
      → IsValid dec (remove_oldest dec c) × (view (remove_oldest dec c) ≡ evict_oldest (view c))
  unfolding remove_oldest evict_oldest
  remove_oldest-evict_oldest c v = elim (Option-cases (last? c.ll)) [
    | inl miss ↦ ground (arith, back-last? c.ll, last-entries_of c.ll)
    | inr (e, hit) ↦
        let here = by_key-last? dec c.ll e v.distinct_keys hit in
        ground (
          arith,
          back-last? c.ll,
          last-entries_of c.ll,
          erase-entries_of e.key c.ll,
          all_but_last-without c.ll e v.distinct_keys hit,
          remove_element-drop dec e.key e c v here,
          view-drop e c,
          drop-IsValid dec e c v,
        )
  ]

  assign-entries_of :
      (k : K) (x : V) (l : List (Element K V)) (e : Element K V)
      → DistinctAddresses l
      → by_key dec k l ≡ some e
      → entries_of (written dec e.address x l) ≡ assign dec k x (entries_of l)
  unfolding assign by_key write_entry
  assign-entries_of k x [] e d h = refl
  assign-entries_of k x (y ∷ l) e d h =
      ground (arith, assign-entries_of k x l e d.1, found dec k l e)

  assign_absent :
      (k : K) (x : V) (l : List (Element K V))
      → by_key dec k l ≡ none
      → assign dec k x (entries_of l) ≡ entries_of l
  unfolding assign by_key
  assign_absent k x [] h = refl
  assign_absent k x (e ∷ l) h = ground (arith, assign_absent k x l)

  -- `UpdateElement` of a valid cache leaves a valid cache in which the value of the key is the new
  -- one, if the key is there, and the order of the entries and their times are as before.
  pub update_element-assign :
      (k : K) (x : V) (c : CacheBase K V)
      → IsValid dec c
      → IsValid dec (update_element dec k x c)
        × (view (update_element dec k x c)
            ≡ record (view c) { entries = assign dec k x (entries_of c.ll) })
  unfolding update_element
  update_element-assign k x c v = elim (Option-cases (by_key dec k c.ll)) [
    | inl miss ↦ ground (arith, v.indexed k, assign_absent k x c.ll miss)
    | inr (e, hit) ↦ ground (
      arith,
      v.indexed k,
      assign-entries_of k x c.ll e v.distinct_addresses hit,
      written-IsValid dec e.address x c v,
    )
  ]

  -- `Add` to a valid cache leaves a valid cache and does what the specification says: an entry with
  -- the key is replaced and moves to the front; a new one goes to the front, and the oldest entry
  -- is evicted and reported if the size is not zero and exceeded.
  pub add-store :
      (now : ℤ) (k : K) (x : V) (c : CacheBase K V)
      → IsValid dec c
      → IsValid dec (add dec now k x c) × (view (add dec now k x c) ≡ store dec now k x (view c))
  unfolding add store write_entry
  add-store now k x c v = elim (Option-cases (by_key dec k c.ll)) [
    | inl miss ↦
        let e : Element K V = record {
          address = c.next;
          key = k;
          value = x;
          time_insert = epoch_now now c;
        } in
        let pushed : CacheBase K V = record c {
          ll = e ∷ c.ll;
          cache = (k, c.next) ∷ c.cache;
          next = suc c.next;
        } in
        let valid = push-IsValid dec k e c v (ground (arith, v.indexed k)) refl refl in
        let (kept, seen) = remove_oldest-evict_oldest pushed valid in
        ground
          (arith, v.indexed k, lookup-entries_of k c.ll, length-entries_of c.ll, kept, seen, valid)
    | inr (e, hit) ↦
        let e' : Element K V = record e { value = x; time_insert = epoch_now now c } in
        ground (
          arith,
          v.indexed k,
          lookup-entries_of k c.ll,
          erase-entries_of k c.ll,
          key-by_key dec k c.ll e hit,
          move_to_front-by_key dec k c.ll e v.distinct_addresses hit,
          front-IsValid dec k e e' c v hit refl refl,
        )
  ]
