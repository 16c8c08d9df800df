-- ===== src/Wildcards.antt =====
-- stringutils/wildcards.go: wildcard patterns as regular expressions. What Go's regexp does with a
-- text is a parameter, the function that compiles it.
mod Translation
mod Tests
use gofrog.Prelude.{
  ℕ, List, [], ◌∷◌, ◌++◌, Bool, true, false, ◌||◌, if◌then◌else◌, ◌==◌, Option, none, some, Bytes,
  codes,
}
use gofrog.Strings.{replace_all}

abbrev pub special_chars : List ℕ
special_chars = b'.' ∷ b'^' ∷ b'$' ∷ b'+' ∷ b'[' ∷ b']' ∷ []

-- The loop over the special characters.
unfoldable pub escape_chars : List ℕ → Bytes → Bytes
unfolding replace_all
escape_chars [] path = path
escape_chars (char ∷ chars) path =
    escape_chars chars (replace_all path (char ∷ []) (b'\\' ∷ char ∷ []))

unfoldable pub escape_special_chars : Bytes → Bytes
unfolding escape_chars
escape_special_chars path = escape_chars special_chars path

-- strings.HasSuffix for one byte.
unfoldable pub ends_with : ℕ → Bytes → Bool
ends_with d [] = false
ends_with d (c ∷ s) = elim s [ [] ↦ c == d | _ ∷ _ ↦ ends_with d s ]

abbrev pub wildcard : Bytes
wildcard = b'.' ∷ b'*' ∷ []

unfoldable pub wildcard_pattern_to_reg_exp : Bytes → Bytes
unfolding escape_special_chars ends_with
wildcard_pattern_to_reg_exp path =
    let path' = replace_all (escape_special_chars path) (b'*' ∷ []) wildcard in
    let path'' =
      if ends_with b'/' path' || ends_with b'\\' path' then path' ++ wildcard else path' in
    b'^' ∷ path'' ++ b'$' ∷ []

-- The error is that of `regexp.Compile`.
unfoldable pub match_wildcard_pattern :
    (Bytes → Option (Bytes → Bool)) → Bytes → Bytes → Option Bool
unfolding wildcard_pattern_to_reg_exp
match_wildcard_pattern compile pattern str = elim (compile (wildcard_pattern_to_reg_exp pattern)) [
  | none ↦ none
  | some matches ↦ some (matches str)
]
