-- ===== src/Crypto/Hex.antt =====
-- Go's encoding/hex, as crypto uses it.
use gofrog.Prelude.{
  ℕ, ◌+◌, ◌-◌, ◌*◌, ◌/◌, ◌%◌, ◌<◌, ◌≡◌, refl, [], ◌∷◌, ◌&&◌, if◌then◌else◌, ltb, leb, length,
  Option, none, some, Bytes, All, arith,
}

abbrev pub IsByte : ℕ → Type 0
IsByte c = c < 256

hex_digit : ℕ → ℕ
hex_digit v = if ltb v 10 then b'0' + v else 87 + v

unfoldable pub encode : Bytes → Bytes
unfolding hex_digit
encode [] = []
encode (c ∷ s) = hex_digit (c / 16) ∷ hex_digit (c % 16) ∷ encode s

hex_value : ℕ → Option ℕ
hex_value c =
    if leb b'0' c && leb c b'9'
    then some (c - b'0')
    else if leb b'a' c && leb c b'f'
    then some (c - 87)
    else if leb b'A' c && leb c b'F'
    then some (c - 55)
    else none

add_byte : Option ℕ → Option ℕ → Option Bytes → Option Bytes
add_byte none low rest = none
add_byte (some h) none rest = none
add_byte (some h) (some l) none = none
add_byte (some h) (some l) (some rest) = some ((h * 16 + l) ∷ rest)

-- DecodeString: none is an error, for a byte that is no digit and for an odd length.
unfoldable pub decode : Bytes → Option Bytes
unfolding hex_value add_byte
decode [] = some []
decode (_ ∷ []) = none
decode (a ∷ b ∷ s) = add_byte (hex_value a) (hex_value b) (decode s)

hex_value-hex_digit : (v : ℕ) → v < 16 → hex_value (hex_digit v) ≡ some v
unfolding hex_value hex_digit
hex_value-hex_digit v h = ground arith

pub decode-encode : (s : Bytes) → All IsByte s → decode (encode s) ≡ some s
unfolding decode encode add_byte
decode-encode [] h = refl
decode-encode (c ∷ s) h = ground (
  arith,
  hex_value-hex_digit (c / 16) (omega arith),
  hex_value-hex_digit (c % 16) (omega arith),
  decode-encode s h.1,
)

pub length-encode : (s : Bytes) → length (encode s) ≡ 2 * length s
unfolding encode
length-encode [] = refl
length-encode (c ∷ s) = omega (arith, length-encode s)
