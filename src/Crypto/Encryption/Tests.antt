-- ===== src/Crypto/Encryption/Tests.antt =====
-- Runs of crypto/aes_encryption.go and crypto/key_generator.go, and their theorems at concrete inputs.
use gofrog.Prelude.{
  ◌*◌, ◌≡◌, refl, [], ◌∷◌, true, Option, none, some, Bytes, codes, length, if◌then◌else◌, ◌==◌,
  arith,
}
use gofrog.Filepath.{has_prefix}
use gofrog.Strings.{contains, replace_all}
use gofrog.Crypto.Hex as Hex
use gofrog.Crypto.Base64 as Base64
use gofrog.Crypto.Hex.{IsByte}
use gofrog.Crypto.Encryption.{
  err, ok, bind, empty_key, bad_key_size, Aead, encrypt, decrypt, is_text_encrypted,
  generate_random_key_string, generate_key_id, encrypt_bytes, decrypt_bytes, new_cipher,
  format_encryption,
}
use gofrog.Crypto.Encryption.RoundTrip.{
  IsAead, decrypt-encrypt, generate_random_key_string-generate_key_id,
}

abbrev program : Unit {0}
unfolding has_prefix contains replace_all Hex.encode Hex.decode Base64.encode Base64.decode encrypt
    decrypt is_text_encrypted generate_random_key_string generate_key_id encrypt_bytes decrypt_bytes
    new_cipher format_encryption
program = tt

-- A stand-in for GCM that seals with a tag of one byte.
abbrev open_tagged : Bytes → Option Bytes
open_tagged [] = none
open_tagged (c ∷ s) = if c == 7 then some s else none

abbrev tagged : Aead
tagged = record { seal = λ k nonce s. 7 ∷ s; open_sealed = λ k nonce s. open_tagged s }

tagged-IsAead : IsAead tagged
tagged-IsAead = record { opens = λ k nonce s. refl; seals_bytes = λ k nonce s h. (omega arith, h) }

abbrev key : Bytes
key = codes "000102030405060708090a0b0c0d0e0f"

abbrev key_byte : Bytes
key_byte = 0 ∷ 1 ∷ 2 ∷ 3 ∷ 4 ∷ 5 ∷ 6 ∷ 7 ∷ 8 ∷ 9 ∷ 10 ∷ 11 ∷ 12 ∷ 13 ∷ 14 ∷ 15 ∷ []

abbrev nonce : Bytes
nonce = 9 ∷ 8 ∷ 7 ∷ 6 ∷ 5 ∷ 4 ∷ 3 ∷ 2 ∷ 1 ∷ 0 ∷ 255 ∷ 254 ∷ []

encrypted :
    encrypt tagged (some nonce) (codes "hi") key (codes "a$")
    ≡ ok (codes "a$$aes256$CQgHBgUEAwIBAP_-B2hp")
unfolding program
encrypted = refl

-- The marker may stand anywhere.
marker_behind :
    decrypt tagged (codes "CQgHBgUEAwIBAP_-B2hpa$$aes256$") key (codes "a$") ≡ ok (codes "hi")
unfolding program
marker_behind = refl

short_key : encrypt tagged (some nonce) (codes "hi") (codes "00") (codes "a") ≡ err bad_key_size
unfolding program
short_key = refl

decrypt-encrypt_example :
    (bind
        (encrypt tagged (some nonce) (codes "hi") key (codes "a$"))
        (λ f. decrypt tagged f key (codes "a$"))
      ≡ ok (codes "hi"))
    × (bind
          (encrypt tagged (some nonce) (codes "hi") key (codes "a$"))
          (λ f. is_text_encrypted tagged f key (codes "a$"))
        ≡ ok true)
unfolding program
decrypt-encrypt_example =
    decrypt-encrypt tagged nonce (codes "hi") key (codes "a$") key_byte tagged-IsAead refl refl refl
      (omega arith) (omega arith)

generate_random_key_string-generate_key_id_example :
    (Hex.decode key ≡ some key_byte)
    × (length key ≡ 2 * length key_byte)
    × (bind (generate_key_id (λ s. 1 ∷ 2 ∷ 3 ∷ s) key) (λ id. ok (length id))
        ≡ (if length key_byte == 0 then err empty_key else ok 6))
unfolding program
generate_random_key_string-generate_key_id_example =
    generate_random_key_string-generate_key_id (λ s. 1 ∷ 2 ∷ 3 ∷ s) key_byte key (omega arith) refl
      (omega arith)
