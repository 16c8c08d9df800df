-- ===== src/Crypto/Encryption.antt =====
-- crypto/aes_encryption.go and crypto/key_generator.go. AES in GCM mode and SHA-256 are parameters;
-- random bytes are an argument, none where reading them fails.
mod RoundTrip
mod Tests
use gofrog.Prelude.{
  ℕ, zero, suc, ◌<◌, ◌≤◌, ◌≡◌, List, [], ◌∷◌, ◌++◌, Bool, true, false, ◌||◌, if◌then◌else◌, ltb,
  ◌==◌, not, length, take, Option, none, some, Bytes, codes, All,
}
use gofrog.Version.{is_empty}
use gofrog.Strings.{contains, replace_all}
use gofrog.Crypto.Hex as Hex
use gofrog.Crypto.Base64 as Base64

pub data CryptoError : Type 0 where
  bad_hex bad_key_size no_randomness bad_base64 too_short not_authentic : CryptoError
  badly_formatted empty_key : CryptoError

pub data Result (A : Type 0) : Type 0 where
  err : CryptoError → Result A
  ok : A → Result A

abbrev pub bind : {A B : Type 0} → Result A → (A → Result B) → Result B
bind (err e) f = err e
bind (ok a) f = f a

-- An error in place of none.
abbrev pub require : {A : Type 0} → CryptoError → Option A → Result A
require e none = err e
require e (some a) = ok a

-- GCM under a key: seal key nonce plaintext, and open, which checks that the text is authentic.
pub record Aead : Type 0 where
  pub seal : Bytes → Bytes → Bytes → Bytes
  pub open_sealed : Bytes → Bytes → Bytes → Option Bytes

-- `aes.NewCipher`: the sizes of AES keys.
unfoldable pub new_cipher : Bytes → Result Bytes
new_cipher key =
    if length key == 16 || length key == 24 || length key == 32 then ok key else err bad_key_size

abbrev pub nonce_size : ℕ
nonce_size = 12

abbrev pub drop : ℕ → Bytes → Bytes
drop zero s = s
drop (suc n) [] = []
drop (suc n) (_ ∷ s) = drop n s

-- `keyId + "$" + "aes256" + "$"`.
unfoldable pub format_encryption : Bytes → Bytes
format_encryption key_id = key_id ++ codes "$aes256$"

module _ (aead : Aead) where
  -- The text that is encrypted, under the bytes of the key.
  unfoldable pub encrypt_bytes : Option Bytes → Bytes → Bytes → Result Bytes
  unfolding new_cipher
  encrypt_bytes random plaintext key = bind (new_cipher key) λ k.
      bind (require no_randomness random)
        λ nonce. ok (Base64.encode (nonce ++ aead.seal k nonce plaintext))

  unfoldable pub decrypt_bytes : Bytes → Bytes → Result Bytes
  unfolding new_cipher
  decrypt_bytes ciphertext key = bind (new_cipher key) λ k.
      if ltb (length ciphertext) nonce_size
      then err too_short
      else require not_authentic
          (aead.open_sealed k (take nonce_size ciphertext) (drop nonce_size ciphertext))

  unfoldable pub encrypt : Option Bytes → Bytes → Bytes → Bytes → Result Bytes
  unfolding encrypt_bytes format_encryption
  encrypt random text key key_id = bind (require bad_hex (Hex.decode key)) λ key_byte.
      bind (encrypt_bytes random text key_byte)
        λ cipher_text. ok (format_encryption key_id ++ cipher_text)

  unfoldable pub decrypt : Bytes → Bytes → Bytes → Result Bytes
  unfolding decrypt_bytes format_encryption
  decrypt formatted key key_id =
      if not (contains formatted (format_encryption key_id))
      then err badly_formatted
      else bind (require bad_hex (Hex.decode key)) λ key_byte.
        bind
          (require bad_base64 (Base64.decode (replace_all formatted (format_encryption key_id) [])))
          λ cipher_text. decrypt_bytes cipher_text key_byte

  -- false stands beside each error that the code returns.
  unfoldable pub is_text_encrypted : Bytes → Bytes → Bytes → Result Bool
  unfolding decrypt_bytes format_encryption
  is_text_encrypted formatted key key_id =
      if not (contains formatted (format_encryption key_id))
      then err badly_formatted
      else bind (require bad_hex (Hex.decode key)) λ key_byte.
        bind
          (require bad_base64 (Base64.decode (replace_all formatted (format_encryption key_id) [])))
          λ cipher_text. bind (decrypt_bytes cipher_text key_byte) λ _. ok true

unfoldable pub generate_random_bytes : Option Bytes → Result Bytes
generate_random_bytes random = require no_randomness random

-- The code returns the empty text beside an error.
unfoldable pub generate_random_key_string : Option Bytes → Result Bytes
unfolding generate_random_bytes
generate_random_key_string random = bind (generate_random_bytes random) λ b. ok (Hex.encode b)

-- `sha256` is the hash of Go's library.
unfoldable pub generate_key_id : (Bytes → Bytes) → Bytes → Result Bytes
generate_key_id sha256 key =
    if length key == 0 then err empty_key else ok (take 6 (Hex.encode (sha256 key)))
