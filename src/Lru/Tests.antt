-- ===== src/Lru/Tests.antt =====
-- Runs of lru/, and its theorems at concrete inputs.
use mathlib.Core.List.Permᴰ
use mathlib.Core.List.{Permᴰ}
use native.Mathlib.Decide.{ℕ_discrete as dec}
use mathlib.Core.Path.{subst}
use gofrog.Prelude.{
  ℕ, ◌≤◌, ◌≡◌, refl, List, [], ◌∷◌, ◌++◌, true, false, if◌then◌else◌, none, some, pos, arith,
  MapRange, length,
}
use gofrog.Lru.Base.{
  len, CacheBase, new_cache_base, exceeds, add, get, update_element, remove, remove_oldest, clear,
  find,
}
use gofrog.Lru.Elements.{by_key}
use gofrog.Lru.Invariant.{IsValid}
use gofrog.Lru.Spec.{view, read, store}
use gofrog.Lru.Refinement.{get-read, add-store}
use gofrog.Lru.Deletions.{pairs_of}
use gofrog.Lru.Clear.{clear-reports}
use gofrog.Lru.Runs.{
  len_call, clear_call, no_reply, value_reply, len_reply, Call, add_call, get_call, perform, run,
  Promised, run-Promised, length-run,
}
use gofrog.Lru.Cache.{Cache, call_method, call_method-perform}

abbrev program : Unit {0}
unfolding add get update_element remove remove_oldest clear len new_cache_base exceeds run dec
    perform
program = tt

abbrev empty : CacheBase ℕ ℕ
empty = record {
  expiry = pos 0;
  size = pos 2;
  has_callback = true;
  ll = [];
  cache = [];
  next = 0;
  evicted = [];
}

abbrev backwards : MapRange (ℕ × ℕ)
backwards = record { visit = λ m. m; visits_all = Permᴰ.refl }

abbrev calls : List (Call ℕ ℕ)
calls =
    add_call (pos 0) 1 10
    ∷ add_call (pos 0) 2 20
    ∷ get_call (pos 0) 1
    ∷ add_call (pos 0) 3 30
    ∷ get_call (pos 0) 2
    ∷ len_call
    ∷ clear_call backwards
    ∷ len_call
    ∷ []

abbrev two : CacheBase ℕ ℕ
two = record empty {
  ll =
      record { address = 1; key = 2; value = 20; time_insert = pos 0 }
      ∷ record { address = 0; key = 1; value = 10; time_insert = pos 0 }
      ∷ [];
  cache = (2, 1) ∷ (1, 0) ∷ [];
  next = 2;
}

two_added : add dec (pos 0) 2 20 (add dec (pos 0) 1 10 empty) ≡ two
unfolding program
two_added = refl

evicts_oldest : (run dec calls empty).0.evicted ≡ (2, 20) ∷ (3, 30) ∷ (1, 10) ∷ []
unfolding program
evicts_oldest = refl

results :
    (run dec calls empty).1
    ≡ no_reply
      ∷ no_reply
      ∷ value_reply (some 10)
      ∷ no_reply
      ∷ value_reply none
      ∷ len_reply 2
      ∷ no_reply
      ∷ len_reply 0
      ∷ []
unfolding program
results = refl

empty-IsValid : IsValid dec empty
unfolding find by_key
empty-IsValid = record {
  indexed = λ k. refl;
  distinct_map = tt;
  distinct_keys = tt;
  distinct_addresses = tt;
  fresh = tt;
}

two-IsValid : IsValid dec two
two-IsValid =
    subst (IsValid dec) two_added
      (add-store dec (pos 0) 2 20 (add dec (pos 0) 1 10 empty)
        (add-store dec (pos 0) 1 10 empty empty-IsValid).0).0

get-read_example :
    IsValid dec (get dec (pos 5) 1 two).0
    × (view (get dec (pos 5) 1 two).0 ≡ (read dec (pos 5) 1 (view two)).0)
    × ((get dec (pos 5) 1 two).1 ≡ (read dec (pos 5) 1 (view two)).1)
get-read_example = get-read dec (pos 5) 1 two two-IsValid

add-store_example :
    IsValid dec (add dec (pos 5) 3 30 two)
    × (view (add dec (pos 5) 3 30 two) ≡ store dec (pos 5) 3 30 (view two))
add-store_example = add-store dec (pos 5) 3 30 two two-IsValid

clear-reports_example :
    IsValid dec (clear dec backwards two)
    × ((clear dec backwards two).ll ≡ [])
    × ((clear dec backwards two).cache ≡ [])
    × ((reports : List (ℕ × ℕ)) × ((clear dec backwards two).evicted
          ≡ (if two.has_callback then two.evicted ++ reports else two.evicted))
        × Permᴰ reports (pairs_of two.ll))
clear-reports_example = clear-reports dec backwards two two-IsValid

run-Promised_example :
    IsValid dec (run dec calls empty).0
    × Promised dec (view empty) calls (view (run dec calls empty).0) (run dec calls empty).1
run-Promised_example = run-Promised dec calls empty empty-IsValid

length-run_example : length (run dec calls empty).0.ll ≤ 2
length-run_example = length-run dec calls empty 2 empty-IsValid refl (omega arith) (omega arith)

abbrev free : Cache ℕ ℕ
free = record { cache = two; locked = false; no_sync = false }

call_method-perform_example :
    call_method dec (clear_call backwards) free
    ≡ some (record free { cache = (perform dec (clear_call backwards) two).0 }, no_reply)
unfolding program
call_method-perform_example = call_method-perform dec (clear_call backwards) free
