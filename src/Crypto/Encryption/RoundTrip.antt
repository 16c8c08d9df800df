-- ===== src/Crypto/Encryption/RoundTrip.antt =====
-- crypto/aes_encryption.go and crypto/key_generator.go: what is encrypted is decrypted, with the keys
-- that the package generates.
use gofrog.Prelude.{
  ℕ, zero, suc, ◌*◌, ◌≤◌, ◌≡◌, refl, [], ◌∷◌, ◌++◌, Bool, true, ◌||◌, ◌==◌, length, take, some,
  Bytes, codes, All, All-append, length-append, arith, if◌then◌else◌,
}
use gofrog.Strings.{
  contains, contains-append, replace_all, replace_all-append, has_byte, has_byte-append,
}
use gofrog.Crypto.Hex as Hex
use gofrog.Crypto.Hex.{IsByte}
use gofrog.Crypto.Base64 as Base64
use gofrog.Crypto.Encryption.{
  err, ok, empty_key, bind, Aead, new_cipher, drop, format_encryption, encrypt_bytes, decrypt_bytes,
  encrypt, decrypt, is_text_encrypted, generate_random_bytes, generate_random_key_string,
  generate_key_id,
}

take-append : (s t : Bytes) → take (length s) (s ++ t) ≡ s
take-append [] t = refl
take-append (c ∷ s) t = ground (arith, take-append s t)

drop-append : (s t : Bytes) → drop (length s) (s ++ t) ≡ t
drop-append [] t = refl
drop-append (c ∷ s) t = drop-append s t

length-take : (n : ℕ) (s : Bytes) → n ≤ length s → length (take n s) ≡ n
length-take zero s h = refl
length-take (suc n) [] h = absurd (omega arith)
length-take (suc n) (c ∷ s) h = omega (arith, length-take n s (omega arith))

-- A key of an AES size.
abbrev pub is_key_size : ℕ → Bool
is_key_size n = n == 16 || n == 24 || n == 32

format_encryption-dollar : (key_id : Bytes) → has_byte b'$' (format_encryption key_id) ≡ true
unfolding format_encryption
format_encryption-dollar key_id = ground (arith, has_byte-append b'$' key_id (codes "$aes256$"))

module _ (aead : Aead) where
  -- GCM opens what it has sealed under the same key and nonce, and yields bytes.
  pub record IsAead : Type 0 where
    pub opens :
        (k nonce plaintext : Bytes)
        → aead.open_sealed k nonce (aead.seal k nonce plaintext) ≡ some plaintext
    pub seals_bytes :
        (k nonce plaintext : Bytes)
        → All IsByte plaintext
        → All IsByte (aead.seal k nonce plaintext)

  decrypt_bytes-sealed :
      (k nonce plaintext : Bytes)
      → IsAead
      → is_key_size (length k) ≡ true
      → length nonce ≡ 12
      → decrypt_bytes aead (nonce ++ aead.seal k nonce plaintext) k ≡ ok plaintext
  unfolding decrypt_bytes new_cipher
  decrypt_bytes-sealed k nonce plaintext law size n =
      let t = take-append nonce (aead.seal k nonce plaintext) in
      let d = drop-append nonce (aead.seal k nonce plaintext) in
      ground (
        arith,
        t,
        d,
        law.opens k nonce plaintext,
        length-append nonce (aead.seal k nonce plaintext),
      )

  -- The marker and what follows are taken apart again.
  unformatted :
      (key_id s : Bytes)
      → All IsByte s
      → (contains (format_encryption key_id ++ Base64.encode s) (format_encryption key_id) ≡ true)
        × (Base64.decode (
              replace_all
                (format_encryption key_id ++ Base64.encode s)
                (format_encryption key_id)
                [])
            ≡ some s)
  unformatted key_id s h = (
    contains-append (format_encryption key_id) (Base64.encode s),
    ground (
      arith,
      replace_all-append b'$' (format_encryption key_id) (Base64.encode s) []
          (format_encryption-dollar key_id) (Base64.has_byte-encode s h),
      Base64.decode-encode s h,
    ),
  )

  encrypt_lem :
      (nonce text key key_id k : Bytes)
      → Hex.decode key ≡ some k
      → is_key_size (length k) ≡ true
      → encrypt aead (some nonce) text key key_id
        ≡ ok (format_encryption key_id ++ Base64.encode (nonce ++ aead.seal k nonce text))
  unfolding encrypt encrypt_bytes new_cipher
  encrypt_lem nonce text key key_id k d size = ground arith

  -- Under a hexadecimal key of an AES size and 12 random bytes, encryption returns a text, decryption
  -- under the same key and id returns what was encrypted, and the text passes for encrypted; this
  -- for every id, whatever bytes it holds, if GCM opens what it has sealed.
  pub decrypt-encrypt :
      (nonce text key key_id k : Bytes)
      → IsAead
      → Hex.decode key ≡ some k
      → is_key_size (length k) ≡ true
      → length nonce ≡ 12
      → All IsByte nonce
      → All IsByte text
      → (bind (encrypt aead (some nonce) text key key_id) (λ f. decrypt aead f key key_id)
          ≡ ok text)
        × (bind
              (encrypt aead (some nonce) text key key_id)
              (λ f. is_text_encrypted aead f key key_id)
            ≡ ok true)
  unfolding decrypt is_text_encrypted
  decrypt-encrypt nonce text key key_id k law d size n h t =
      let sealed = nonce ++ aead.seal k nonce text in
      let all : All IsByte sealed =
        All-append IsByte nonce (aead.seal k nonce text) h (law.seals_bytes k nonce text t) in
      let e = encrypt_lem nonce text key key_id k d size in
      let u = unformatted key_id sealed all in
      let o = decrypt_bytes-sealed k nonce text law size n in
      (ground (arith, e, u, o), ground (arith, e, u, o))

  -- A text passes for encrypted exactly when it is decrypted, and fails with the same error.
  pub is_text_encrypted-decrypt :
      (formatted key key_id : Bytes)
      → is_text_encrypted aead formatted key key_id
        ≡ bind (decrypt aead formatted key key_id) (λ _. ok true)
  unfolding is_text_encrypted decrypt
  is_text_encrypted-decrypt formatted key key_id = ground arith

-- Random bytes make a key of twice their number of characters, which decodes to these bytes; the id of
-- a key that is not empty has six characters when its hash has at least three bytes, and the empty
-- key has none.
pub generate_random_key_string-generate_key_id :
    (sha256 : Bytes → Bytes) (random key : Bytes)
    → All IsByte random
    → generate_random_key_string (some random) ≡ ok key
    → 3 ≤ length (sha256 key)
    → (Hex.decode key ≡ some random)
      × (length key ≡ 2 * length random)
      × (bind (generate_key_id sha256 key) (λ id. ok (length id))
          ≡ (if length random == 0 then err empty_key else ok 6))
unfolding generate_random_key_string generate_random_bytes generate_key_id
generate_random_key_string-generate_key_id sha256 random key h e n = (
  ground (arith, Hex.decode-encode random h),
  ground (arith, Hex.length-encode random),
  ground (
    arith,
    Hex.length-encode random,
    Hex.length-encode (sha256 key),
    length-take 6 (Hex.encode (sha256 key)),
  ),
)
