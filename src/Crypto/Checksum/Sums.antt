-- ===== src/Crypto/Checksum/Sums.antt =====
-- crypto/checksum.go: maps from algorithms to hashes, and hashes that take a text in pieces.
use mathlib.Core.Option.{map as map_option}
use gofrog.Prelude.{
  ◌≡◌, refl, List, [], ◌∷◌, ◌++◌, Bool, true, false, ◌&&◌, ◌||◌, if◌then◌else◌, none, some, Bytes,
  arith,
}
use gofrog.MultiWriter.{write_all}
use gofrog.MultiWriter.Written.{all_take}
use gofrog.Crypto.Hex as Hex
use gofrog.Crypto.Checksum.{
  Algorithm, md5, sha1, sha256, other, Hashing, same_algorithm, lookup, insert, algorithm_func,
  insert_new, add_hashes, get_checksum_by_algorithm, sum_results, hash_writer,
}

-- An algorithm that has a hash, and one that a caller asks for.
abbrev pub is_known : Algorithm → Bool
is_known (other _) = false
is_known _ = true

abbrev pub all_known : List Algorithm → Bool
all_known [] = true
all_known (a ∷ types) = is_known a && all_known types

abbrev pub is_named : Algorithm → List Algorithm → Bool
is_named a [] = false
is_named a (b ∷ types) = same_algorithm b a || is_named a types

-- No algorithm named asks for all three.
abbrev pub is_wanted : Algorithm → List Algorithm → Bool
is_wanted a [] = is_known a
is_wanted a (b ∷ types) = is_named a (b ∷ types)

same_algorithm-eq : (a b : Algorithm) → same_algorithm a b ≡ true → a ≡ b
unfolding same_algorithm
same_algorithm-eq md5 md5 h = refl
same_algorithm-eq md5 sha1 h = cc
same_algorithm-eq md5 sha256 h = cc
same_algorithm-eq md5 (other n) h = cc
same_algorithm-eq sha1 md5 h = cc
same_algorithm-eq sha1 sha1 h = refl
same_algorithm-eq sha1 sha256 h = cc
same_algorithm-eq sha1 (other n) h = cc
same_algorithm-eq sha256 md5 h = cc
same_algorithm-eq sha256 sha1 h = cc
same_algorithm-eq sha256 sha256 h = refl
same_algorithm-eq sha256 (other n) h = cc
same_algorithm-eq (other n) md5 h = cc
same_algorithm-eq (other n) sha1 h = cc
same_algorithm-eq (other n) sha256 h = cc
same_algorithm-eq (other n) (other m) h = cc

same_algorithm_self : (a : Algorithm) → is_known a ≡ true → same_algorithm a a ≡ true
unfolding same_algorithm
same_algorithm_self md5 h = refl
same_algorithm_self sha1 h = refl
same_algorithm_self sha256 h = refl
same_algorithm_self (other n) h = cc

lookup-insert :
    {A : Type 0} (a b : Algorithm) (v : A) (m : List (Algorithm × A))
    → lookup a (insert b v m) ≡ (if same_algorithm b a then some v else lookup a m)
unfolding lookup insert
lookup-insert a b v [] = refl
lookup-insert a b v ((c, w) ∷ m) = ground (arith, lookup-insert a b v m, same_algorithm-eq c b)

module _ {H : Type 0} (hashing : Hashing H) where
  -- Writing in two pieces is writing their concatenation.
  pub record IsHash : Type 0 where
    pub absorb_nothing : (h : H) → hashing.absorb h [] ≡ h
    pub absorb_twice :
        (h : H) (p q : Bytes) → hashing.absorb (hashing.absorb h p) q ≡ hashing.absorb h (p ++ q)

  -- Every hash has taken a text.
  abbrev pub absorb_each : Bytes → List (Algorithm × H) → List (Algorithm × H)
  absorb_each p [] = []
  absorb_each p ((a, h) ∷ hs) = (a, hashing.absorb h p) ∷ absorb_each p hs

  algorithm_func-known :
      (a : Algorithm) → is_known a ≡ true → algorithm_func hashing a ≡ some (hashing.new a)
  unfolding algorithm_func
  algorithm_func-known md5 h = refl
  algorithm_func-known sha1 h = refl
  algorithm_func-known sha256 h = refl
  algorithm_func-known (other n) h = cc

  add_hashes_lem :
      (types : List Algorithm) (m : List (Algorithm × H))
      → all_known types ≡ true
      → (r : List (Algorithm × H)) × (add_hashes hashing types (some m) ≡ some r)
        × ((a : Algorithm)
            → lookup a r ≡ (if is_named a types then some (hashing.new a) else lookup a m))
  unfolding add_hashes insert_new
  add_hashes_lem [] m h = (m, refl, λ a. refl)
  add_hashes_lem (b ∷ types) m h =
      let known : is_known b ≡ true = ground arith in
      let (r, made, found) = add_hashes_lem types (insert b (hashing.new b) m) (ground arith) in
      (
        r,
        ground (arith, made, algorithm_func-known b known),
        λ a. ground (arith, found a, lookup-insert a b (hashing.new b) m, same_algorithm-eq b a),
      )

  pub get_checksum_by_algorithm_lem :
      (types : List Algorithm)
      → all_known types ≡ true
      → (r : List (Algorithm × H)) × (get_checksum_by_algorithm hashing types ≡ some r)
        × ((a : Algorithm)
            → lookup a r ≡ (if is_wanted a types then some (hashing.new a) else none))
  unfolding get_checksum_by_algorithm lookup
  get_checksum_by_algorithm_lem [] h =
      let (r, made, found) = add_hashes_lem (md5 ∷ sha1 ∷ sha256 ∷ []) [] refl in
      (r, made, λ a. ground (arith, found a, all_three a))
    where
      all_three : (a : Algorithm) → is_named a (md5 ∷ sha1 ∷ sha256 ∷ []) ≡ is_known a
      all_three md5 = refl
      all_three sha1 = refl
      all_three sha256 = refl
      all_three (other n) = refl
  get_checksum_by_algorithm_lem (b ∷ types) h = add_hashes_lem (b ∷ types) [] h

  pub lookup-absorb_each :
      (a : Algorithm) (p : Bytes) (hs : List (Algorithm × H))
      → lookup a (absorb_each p hs) ≡ map_option (λ h. hashing.absorb h p) (lookup a hs)
  unfolding lookup
  lookup-absorb_each a p [] = refl
  lookup-absorb_each a p ((b, h) ∷ hs) = ground (arith, lookup-absorb_each a p hs)

  pub lookup-sum_results :
      (a : Algorithm) (hs : List (Algorithm × H))
      → lookup a (sum_results hashing hs)
        ≡ map_option (λ h. Hex.encode (hashing.sum h)) (lookup a hs)
  unfolding lookup sum_results
  lookup-sum_results a [] = refl
  lookup-sum_results a ((b, h) ∷ hs) = ground (arith, lookup-sum_results a hs)

  pub write_all-hashes :
      (X : Type 0) (p : Bytes) (hs : List (Algorithm × H))
      → write_all (hash_writer {X = X} hashing) p hs ≡ absorb_each p hs
  unfolding write_all
  write_all-hashes X p [] = refl
  write_all-hashes X p ((a, h) ∷ hs) = ground (arith, write_all-hashes X p hs)

  pub all_take-hashes :
      (X : Type 0) (p : Bytes) (hs : List (Algorithm × H))
      → all_take (hash_writer {X = X} hashing) p hs ≡ true
  all_take-hashes X p [] = refl
  all_take-hashes X p ((a, h) ∷ hs) = ground (arith, all_take-hashes X p hs)

  pub absorb_each-twice :
      (p q : Bytes) (hs : List (Algorithm × H))
      → IsHash
      → absorb_each q (absorb_each p hs) ≡ absorb_each (p ++ q) hs
  absorb_each-twice p q [] law = refl
  absorb_each-twice p q ((a, h) ∷ hs) law =
      ground (arith, law.absorb_twice h p q, absorb_each-twice p q hs law)

  pub absorb_each-nothing : (hs : List (Algorithm × H)) → IsHash → absorb_each [] hs ≡ hs
  absorb_each-nothing [] law = refl
  absorb_each-nothing ((a, h) ∷ hs) law =
      ground (arith, law.absorb_nothing h, absorb_each-nothing hs law)
