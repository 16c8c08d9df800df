-- ===== src/Crypto/Base64.antt =====
-- Go's base64.URLEncoding, as crypto uses it: the alphabet of URLs, with padding.
use gofrog.Prelude.{
  ℕ, ◌+◌, ◌-◌, ◌*◌, ◌/◌, ◌%◌, ◌<◌, ◌≡◌, refl, [], ◌∷◌, false, ◌&&◌, ◌||◌, if◌then◌else◌, ltb, leb,
  ◌==◌, Option, none, some, Bytes, All, arith,
}
use gofrog.Version.{is_empty}
use gofrog.Strings.{has_byte}
use gofrog.Crypto.Hex.{IsByte}

sextet_char : ℕ → ℕ
sextet_char v =
    if ltb v 26
    then b'A' + v
    else if ltb v 52
    then 71 + v
    else if ltb v 62
    then v - 4
    else if v == 62
    then b'-'
    else b'_'

abbrev pad : ℕ
pad = b'='

unfoldable pub encode : Bytes → Bytes
unfolding sextet_char
encode [] = []
encode (a ∷ []) = sextet_char (a / 4) ∷ sextet_char (a % 4 * 16) ∷ pad ∷ pad ∷ []
encode (a ∷ b ∷ []) =
    sextet_char (a / 4) ∷ sextet_char (a % 4 * 16 + b / 16) ∷ sextet_char (b % 16 * 4) ∷ pad ∷ []
encode (a ∷ b ∷ c ∷ s) =
    sextet_char (a / 4)
    ∷ sextet_char (a % 4 * 16 + b / 16)
    ∷ sextet_char (b % 16 * 4 + c / 64)
    ∷ sextet_char (c % 64)
    ∷ encode s

char_sextet : ℕ → Option ℕ
char_sextet c =
    if leb b'A' c && leb c b'Z'
    then some (c - b'A')
    else if leb b'a' c && leb c b'z'
    then some (c - 71)
    else if leb b'0' c && leb c b'9'
    then some (c + 4)
    else if c == b'-'
    then some 62
    else if c == b'_'
    then some 63
    else none

-- A quantum without padding, and the last one with two or three characters.
three_bytes : Option ℕ → Option ℕ → Option ℕ → Option ℕ → Option Bytes → Option Bytes
three_bytes (some u) (some v) (some w) (some x) (some s) =
    some ((u * 4 + v / 16) ∷ (v % 16 * 16 + w / 4) ∷ (w % 4 * 64 + x) ∷ s)
three_bytes _ _ _ _ _ = none

two_bytes : Option ℕ → Option ℕ → Option ℕ → Option Bytes
two_bytes (some u) (some v) (some w) = some ((u * 4 + v / 16) ∷ (v % 16 * 16 + w / 4) ∷ [])
two_bytes _ _ _ = none

one_byte : Option ℕ → Option ℕ → Option Bytes
one_byte (some u) (some v) = some ((u * 4 + v / 16) ∷ [])
one_byte _ _ = none

decode_quanta : Bytes → Option Bytes
unfolding char_sextet three_bytes two_bytes one_byte
decode_quanta [] = some []
decode_quanta (a ∷ b ∷ c ∷ d ∷ s) =
    let rest = decode_quanta s in
    if d == pad
    then if is_empty s
      then if c == pad
        then one_byte (char_sextet a) (char_sextet b)
        else two_bytes (char_sextet a) (char_sextet b) (char_sextet c)
      else none
    else three_bytes (char_sextet a) (char_sextet b) (char_sextet c) (char_sextet d) rest
decode_quanta _ = none

drop_newlines : Bytes → Bytes
drop_newlines [] = []
drop_newlines (c ∷ s) = let rest = drop_newlines s in if c == 10 || c == 13 then rest else c ∷ rest

-- DecodeString: none is an error.
unfoldable pub decode : Bytes → Option Bytes
unfolding decode_quanta drop_newlines
decode s = decode_quanta (drop_newlines s)

-- The characters of the alphabet are no newlines, no padding and no dollar sign.
abbrev IsPlain : ℕ → Type 0
IsPlain v =
    (char_sextet (sextet_char v) ≡ some v)
    × ((sextet_char v == pad) ≡ false)
    × ((sextet_char v == 10 || sextet_char v == 13) ≡ false)
    × ((sextet_char v == b'$') ≡ false)

sextet_char-IsPlain : (v : ℕ) → v < 64 → IsPlain v
unfolding char_sextet sextet_char
sextet_char-IsPlain v h = ground arith

one_char : (a : ℕ) → IsByte a → IsPlain (a / 4) × IsPlain (a % 4 * 16)
one_char a h =
    (sextet_char-IsPlain (a / 4) (omega arith), sextet_char-IsPlain (a % 4 * 16) (omega arith))

two_chars :
    (a b : ℕ)
    → IsByte a
    → IsByte b
    → IsPlain (a / 4) × IsPlain (a % 4 * 16 + b / 16) × IsPlain (b % 16 * 4)
two_chars a b h k = (
  sextet_char-IsPlain (a / 4) (omega arith),
  sextet_char-IsPlain (a % 4 * 16 + b / 16) (omega arith),
  sextet_char-IsPlain (b % 16 * 4) (omega arith),
)

three_chars :
    (a b c : ℕ)
    → IsByte a
    → IsByte b
    → IsByte c
    → IsPlain (a / 4)
      × IsPlain (a % 4 * 16 + b / 16)
      × IsPlain (b % 16 * 4 + c / 64)
      × IsPlain (c % 64)
three_chars a b c h k l = (
  sextet_char-IsPlain (a / 4) (omega arith),
  sextet_char-IsPlain (a % 4 * 16 + b / 16) (omega arith),
  sextet_char-IsPlain (b % 16 * 4 + c / 64) (omega arith),
  sextet_char-IsPlain (c % 64) (omega arith),
)

decode_quanta-encode : (s : Bytes) → All IsByte s → decode_quanta (encode s) ≡ some s
unfolding decode_quanta encode three_bytes two_bytes one_byte is_empty
decode_quanta-encode [] h = refl
decode_quanta-encode (a ∷ []) h = ground (arith, one_char a h.0)
decode_quanta-encode (a ∷ b ∷ []) h = ground (arith, two_chars a b h.0 h.1.0)
decode_quanta-encode (a ∷ b ∷ c ∷ s) h =
    ground (arith, three_chars a b c h.0 h.1.0 h.1.1.0, decode_quanta-encode s h.1.1.1)

drop_newlines-encode : (s : Bytes) → All IsByte s → drop_newlines (encode s) ≡ encode s
unfolding drop_newlines encode
drop_newlines-encode [] h = refl
drop_newlines-encode (a ∷ []) h = ground (arith, one_char a h.0)
drop_newlines-encode (a ∷ b ∷ []) h = ground (arith, two_chars a b h.0 h.1.0)
drop_newlines-encode (a ∷ b ∷ c ∷ s) h =
    ground (arith, three_chars a b c h.0 h.1.0 h.1.1.0, drop_newlines-encode s h.1.1.1)

pub decode-encode : (s : Bytes) → All IsByte s → decode (encode s) ≡ some s
unfolding decode
decode-encode s h = ground (arith, drop_newlines-encode s h, decode_quanta-encode s h)

-- No encoded text holds a dollar sign.
pub has_byte-encode : (s : Bytes) → All IsByte s → has_byte b'$' (encode s) ≡ false
unfolding encode
has_byte-encode [] h = refl
has_byte-encode (a ∷ []) h = ground (arith, one_char a h.0)
has_byte-encode (a ∷ b ∷ []) h = ground (arith, two_chars a b h.0 h.1.0)
has_byte-encode (a ∷ b ∷ c ∷ s) h =
    ground (arith, three_chars a b c h.0 h.1.0 h.1.1.0, has_byte-encode s h.1.1.1)
