-- ===== src/Wildcards/Tests.antt =====
-- Runs of stringutils/wildcards.go, and its theorem at a concrete input.
use mathlib.Core.List.{flat_map}
use gofrog.Prelude.{◌≡◌, refl, [], ◌∷◌, ◌++◌, if◌then◌else◌, codes}
use gofrog.Filepath.{has_prefix}
use gofrog.Strings.{replace_all}
use gofrog.Wildcards.{wildcard, wildcard_pattern_to_reg_exp}
use gofrog.Wildcards.Translation.{
  translate, ends_in_separator, wildcard_pattern_to_reg_exp-translate,
}

directory : wildcard_pattern_to_reg_exp (codes "a.b/*/") ≡ codes "^a\\.b/.*/.*$"
unfolding wildcard_pattern_to_reg_exp replace_all has_prefix
directory = refl

wildcard_pattern_to_reg_exp-translate_example :
    wildcard_pattern_to_reg_exp (codes "a[1].*/")
    ≡ b'^'
        ∷ (if ends_in_separator (codes "a[1].*/")
            then flat_map translate (codes "a[1].*/") ++ wildcard
            else flat_map translate (codes "a[1].*/"))
      ++ b'$' ∷ []
wildcard_pattern_to_reg_exp-translate_example =
    wildcard_pattern_to_reg_exp-translate (codes "a[1].*/")
