-- ===== src/Wildcards/Translation.antt =====
-- stringutils/wildcards.go: the translation of a pattern, byte by byte.
use mathlib.Core.List.{flat_map}
use gofrog.Prelude.{
  ℕ, ◌≡◌, refl, List, [], ◌∷◌, ◌++◌, Bool, true, false, not, ◌||◌, ◌&&◌, if◌then◌else◌, ◌==◌, Bytes,
  arith,
}
use gofrog.Version.{is_empty}
use gofrog.Strings.{replace_all, replace_all-one, has_byte}
use gofrog.Wildcards.{
  special_chars, escape_chars, escape_special_chars, ends_with, wildcard,
  wildcard_pattern_to_reg_exp,
}

-- What a byte of a pattern becomes.
abbrev pub translate : ℕ → Bytes
translate c =
    if has_byte c special_chars then b'\\' ∷ c ∷ [] else if c == b'*' then wildcard else c ∷ []

abbrev pub ends_in_separator : Bytes → Bool
ends_in_separator path = ends_with b'/' path || ends_with b'\\' path

replace_all-head :
    (d c : ℕ) (s new : Bytes)
    → replace_all (c ∷ s) (d ∷ []) new
      ≡ (if c == d then new ++ replace_all s (d ∷ []) new else c ∷ replace_all s (d ∷ []) new)
unfolding flat_map
replace_all-head d c s new = ground (arith, replace_all-one d (c ∷ s) new, replace_all-one d s new)

escape_chars-other :
    (chars : List ℕ) (c : ℕ) (s : Bytes)
    → has_byte c chars ≡ false
    → escape_chars chars (c ∷ s) ≡ c ∷ escape_chars chars s
unfolding escape_chars
escape_chars-other [] c s h = refl
escape_chars-other (d ∷ chars) c s h = ground (
  arith,
  replace_all-head d c s (b'\\' ∷ d ∷ []),
  escape_chars-other chars c (replace_all s (d ∷ []) (b'\\' ∷ d ∷ [])),
)

-- No byte stands twice.
abbrev is_distinct : List ℕ → Bool
is_distinct [] = true
is_distinct (d ∷ chars) = not (has_byte d chars) && is_distinct chars

escape_chars-special :
    (chars : List ℕ) (c : ℕ) (s : Bytes)
    → is_distinct chars ≡ true
    → has_byte b'\\' chars ≡ false
    → has_byte c chars ≡ true
    → escape_chars chars (c ∷ s) ≡ b'\\' ∷ c ∷ escape_chars chars s
unfolding escape_chars
escape_chars-special [] c s distinct h k = ground arith
escape_chars-special (d ∷ chars) c s distinct h k =
    let s' = replace_all s (d ∷ []) (b'\\' ∷ d ∷ []) in
    ground (
      arith,
      replace_all-head d c s (b'\\' ∷ d ∷ []),
      escape_chars-other chars b'\\' (c ∷ s'),
      escape_chars-other chars c s',
      escape_chars-special chars c s',
    )

escape_special_chars_lem :
    (c : ℕ) (s : Bytes)
    → escape_special_chars (c ∷ s) ≡ (
        if has_byte c special_chars
        then b'\\' ∷ c ∷ escape_special_chars s
        else c ∷ escape_special_chars s)
unfolding escape_special_chars
escape_special_chars_lem c s =
    ground (
      arith,
      escape_chars-special special_chars c s refl refl,
      escape_chars-other special_chars c s,
    )

translated_nil : replace_all (escape_special_chars []) (b'*' ∷ []) wildcard ≡ []
unfolding escape_special_chars escape_chars replace_all
translated_nil = refl

translated :
    (s : Bytes) → replace_all (escape_special_chars s) (b'*' ∷ []) wildcard ≡ flat_map translate s
unfolding flat_map
translated [] = translated_nil
translated (c ∷ s) = ground (
  arith,
  escape_special_chars_lem c s,
  replace_all-head b'*' b'\\' (c ∷ escape_special_chars s) wildcard,
  replace_all-head b'*' c (escape_special_chars s) wildcard,
  translated s,
)

ends_with_rest : (d : ℕ) (s t : Bytes) → is_empty t ≡ false → ends_with d (s ++ t) ≡ ends_with d t
unfolding ends_with is_empty
ends_with_rest d [] t h = refl
ends_with_rest d (c ∷ []) [] h = ground arith
ends_with_rest d (c ∷ []) (x ∷ t) h = refl
ends_with_rest d (c ∷ y ∷ s) t h = ends_with_rest d (y ∷ s) t h

is_empty-translated : (c : ℕ) (s : Bytes) → is_empty (translate c ++ s) ≡ false
unfolding is_empty
is_empty-translated c s = ground arith

-- Translation keeps whether the pattern ends in a separator.
ends_in_separator-translated :
    (s : Bytes) → ends_in_separator (flat_map translate s) ≡ ends_in_separator s
unfolding flat_map ends_with
ends_in_separator-translated [] = refl
ends_in_separator-translated (c ∷ []) = ground arith
ends_in_separator-translated (c ∷ x ∷ s) = ground (
  arith,
  ends_in_separator-translated (x ∷ s),
  is_empty-translated x (flat_map translate s),
  ends_with_rest b'/' (translate c) (translate x ++ flat_map translate s),
  ends_with_rest b'\\' (translate c) (translate x ++ flat_map translate s),
)

-- The expression for a pattern is anchored at both ends and translates the pattern byte by byte: the six
-- special characters are escaped, each `*` becomes `.*`, all else stands for itself; a pattern that
-- ends in a slash or a backslash has one more `.*`.
pub wildcard_pattern_to_reg_exp-translate :
    (path : Bytes)
    → wildcard_pattern_to_reg_exp path
      ≡ b'^'
          ∷ (if ends_in_separator path
              then flat_map translate path ++ wildcard
              else flat_map translate path)
        ++ b'$' ∷ []
unfolding wildcard_pattern_to_reg_exp
wildcard_pattern_to_reg_exp-translate path =
    ground (arith, translated path, ends_in_separator-translated path)
