-- ===== src/Version/Order.antt =====
-- version/version.go: the order that `Compare` puts on versions.
use gofrog.Prelude.{
  ◌≡◌, ◌↔◌, Bool, true, false, not, ◌&&◌, ℤ, pos, negsuc, eqb_ℤ, neg, Bytes, same_bytes,
  same_bytes_iff, compare_bytes_antisym, compare_bytes_zero, arith,
}
use gofrog.Version.{atoi, split_number_and_suffix, is_empty, compare_tokens}

-- The number in front of a token, as `Compare` reads it, and what follows it.
abbrev pub number : Bytes → ℤ
number token = (atoi (split_number_and_suffix token).0).0

abbrev pub suffix : Bytes → Bytes
suffix token = (split_number_and_suffix token).1

-- Two different texts that are read as the same number, with nothing behind it: "1" and "01", or two
-- numbers that are both past `int`.
unfoldable pub respelled : Bytes → Bytes → Bool
respelled a b =
    not (same_bytes a b)
    && eqb_ℤ (number a) (number b)
    && is_empty (suffix a)
    && is_empty (suffix b)

-- Two tokens compare as equal exactly when they are the same text.
pub compare_tokens-zero_iff : (a b : Bytes) → (compare_tokens a b ≡ pos 0) ↔ (a ≡ b)
unfolding compare_tokens
compare_tokens-zero_iff a b = ground (arith, same_bytes_iff a b, compare_bytes_zero a b)

-- The order of two tokens turns round with the tokens, unless both are read as the same number.
pub compare_tokens-antisym :
    (a b : Bytes) → respelled a b ≡ false → compare_tokens a b ≡ neg (compare_tokens b a)
unfolding compare_tokens respelled
compare_tokens-antisym a b h =
    ground (arith, same_bytes_iff a b, same_bytes_iff b a, compare_bytes_antisym a b)

-- Of two tokens that are read as the same number, with nothing behind it, each one is below the other.
pub compare_tokens-respelled :
    (a b : Bytes)
    → respelled a b ≡ true
    → (compare_tokens a b ≡ negsuc 0) × (compare_tokens b a ≡ negsuc 0)
unfolding compare_tokens respelled
compare_tokens-respelled a b h = ground (arith, same_bytes_iff a b, same_bytes_iff b a)
