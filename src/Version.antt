-- ===== src/Version.antt =====
-- version/version.go: versions as dotted texts and their comparison. A text is a list of bytes; that
-- `strings.TrimSpace` also trims spaces outside ASCII is left out, so texts are meant to be ASCII.
mod Order
mod Padded
mod Suffix
mod Tests
use gofrog.Prelude.{
  ℕ, zero, suc, ◌+◌, ◌-◌, ◌*◌, List, [], ◌∷◌, ◌++◌, Bool, true, false, not, ◌&&◌, ◌||◌,
  if◌then◌else◌, ◌==◌, ltb, leb, length, get_elem?, Option, none, some, ℤ, pos, negsuc, ltb_ℤ,
  leb_ℤ, eqb_ℤ, sub_ℕ, Bytes, codes, same_bytes, compare_bytes,
}

pub record Version : Type 0 where
  pub version : Bytes

unfoldable pub new_version : Bytes → Version
new_version version = record { version = version }

unfoldable pub get_version : Version → Bytes
get_version v = v.version

unfoldable pub set_version : Bytes → Version → Version
set_version version v = record v { version = version }

-- strings.Split by a one-byte separator.
cons_head : ℕ → List Bytes → List Bytes
cons_head c [] = (c ∷ []) ∷ []
cons_head c (t ∷ ts) = (c ∷ t) ∷ ts

unfoldable pub split : ℕ → Bytes → List Bytes
unfolding cons_head
split sep [] = [] ∷ []
split sep (c ∷ s) = let rest = split sep s in if c == sep then [] ∷ rest else cons_head c rest

-- strings.TrimSpace on ASCII: '\t', '\n', '\v', '\f', '\r' and ' '.
is_space : ℕ → Bool
is_space c = leb 9 c && leb c 13 || c == 32

unfoldable pub is_empty : Bytes → Bool
is_empty [] = true
is_empty (_ ∷ _) = false

trim_left : Bytes → Bytes
trim_left [] = []
trim_left (c ∷ s) = if is_space c then trim_left s else c ∷ s

trim_right : Bytes → Bytes
trim_right [] = []
trim_right (c ∷ s) = let rest = trim_right s in if is_space c && is_empty rest then [] else c ∷ rest

unfoldable pub trim_space : Bytes → Bytes
unfolding trim_left trim_right is_space is_empty
trim_space s = trim_right (trim_left s)

-- strconv.Atoi: the value, and whether there was no error. Out of range it returns the nearest `int`
-- with an error, and 0 with an error where the text is no number.
unfoldable pub is_digit : ℕ → Bool
is_digit c = leb b'0' c && leb c b'9'

digits_value : ℕ → Bytes → Option ℕ
digits_value acc [] = some acc
digits_value acc (c ∷ s) =
    let rest = digits_value (acc * 10 + (c - b'0')) s in if is_digit c then rest else none

abbrev pub int_limit : ℕ
int_limit = 9223372036854775808

positive_int : Option ℕ → ℤ × Bool
positive_int none = (pos 0, false)
positive_int (some n) = if ltb n int_limit then (pos n, true) else (pos (int_limit - 1), false)

negative_int : Option ℕ → ℤ × Bool
negative_int none = (pos 0, false)
negative_int (some n) = if leb n int_limit then (sub_ℕ 0 n, true) else (sub_ℕ 0 int_limit, false)

-- The digits after a sign; there has to be one.
unsigned : Bytes → Option ℕ
unsigned [] = none
unsigned (c ∷ s) = digits_value 0 (c ∷ s)

unfoldable pub atoi : Bytes → ℤ × Bool
unfolding is_digit digits_value positive_int negative_int unsigned
atoi [] = (pos 0, false)
atoi (c ∷ s) =
    if c == b'-'
    then negative_int (unsigned s)
    else if c == b'+'
    then positive_int (unsigned s)
    else positive_int (unsigned (c ∷ s))

-- The loop of `splitNumberAndSuffix`: the digits taken so far, and the text from `i` on.
unfoldable pub take_digits : Bytes → Bytes → Bytes × Bytes
take_digits numeric [] = (numeric, [])
take_digits numeric (c ∷ rest) =
    let onward = take_digits (numeric ++ c ∷ []) rest in
    if (atoi (c ∷ [])).1 then onward else (numeric, c ∷ rest)

unfoldable pub split_number_and_suffix : Bytes → Bytes × Bytes
split_number_and_suffix token =
    let (numeric, suffix) = take_digits [] token in
    if is_empty numeric then (codes "0", token) else (numeric, suffix)

unfoldable pub compare_tokens : Bytes → Bytes → ℤ
compare_tokens ver1_token ver2_token =
    let (ver1_number, ver1_suffix) = split_number_and_suffix ver1_token in
    let (ver2_number, ver2_suffix) = split_number_and_suffix ver2_token in
    let ver1_token_int = (atoi ver1_number).0 in
    let ver2_token_int = (atoi ver2_number).0 in
    if same_bytes ver1_token ver2_token
    then pos 0
    else if ltb_ℤ ver2_token_int ver1_token_int
    then pos 1
    else if ltb_ℤ ver1_token_int ver2_token_int
    then negsuc 0
    else if is_empty ver1_suffix
    then negsuc 0
    else if is_empty ver2_suffix
    then pos 1
    else compare_bytes ver1_token ver2_token

-- The token at an index, and "0" behind the last one.
unfoldable pub token_at : List Bytes → ℕ → Bytes
unfolding trim_space
token_at tokens index = elim (get_elem? tokens index) [
  | none ↦ codes "0"
  | some token ↦ trim_space token
]

-- The loop of `Compare`, over the rounds that are left.
unfoldable pub compare_from : ℕ → ℕ → List Bytes → List Bytes → ℤ
compare_from zero index ver1_tokens ver2_tokens = pos 0
compare_from (suc rounds) index ver1_tokens ver2_tokens =
    let rest = compare_from rounds (index + 1) ver1_tokens ver2_tokens in
    let order = compare_tokens (token_at ver1_tokens index) (token_at ver2_tokens index) in
    if eqb_ℤ order (pos 0) then rest else order

unfoldable pub max_index : List Bytes → List Bytes → ℕ
max_index ver1_tokens ver2_tokens =
    if ltb (length ver1_tokens) (length ver2_tokens) then length ver2_tokens else length ver1_tokens

abbrev pub development : Bytes
development = codes "development"

unfoldable pub compare : Version → Bytes → ℤ
compare v ver1 =
    let ver1_tokens = split b'.' ver1 in
    let ver2_tokens = split b'.' v.version in
    let order = compare_from (max_index ver1_tokens ver2_tokens) 0 ver1_tokens ver2_tokens in
    if same_bytes ver1 v.version
    then pos 0
    else if same_bytes ver1 development
    then pos 1
    else if same_bytes v.version development
    then negsuc 0
    else order

unfoldable pub at_least : Version → Bytes → Bool
at_least v min_version = leb_ℤ (compare v min_version) (pos 0)
