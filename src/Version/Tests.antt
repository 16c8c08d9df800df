-- ===== src/Version/Tests.antt =====
-- Runs of version/version.go, and its theorems at concrete inputs.
use gofrog.Prelude.{◌≡◌, refl, pos, negsuc, neg, codes, same_bytes, compare_bytes, if◌then◌else◌}
use gofrog.Version.Order.{respelled}
use gofrog.Version.Padded.{
  tokens, compare_padded, compare-compare_padded, respelled_somewhere, compare-antisym,
}
use gofrog.Version.{
  development, new_version, split, trim_space, atoi, take_digits, split_number_and_suffix, is_empty,
  compare_tokens, token_at, compare_from, max_index, compare, at_least,
}

abbrev program : Unit {0}
unfolding new_version split trim_space atoi take_digits split_number_and_suffix is_empty same_bytes
    compare_bytes compare_tokens token_at compare_from max_index compare at_least
program = tt

older : compare (new_version (codes "1.10.0")) (codes "1.9") ≡ negsuc 0
unfolding program
older = refl

trailing : compare (new_version (codes "1.0")) (codes "1. 0.0") ≡ pos 0
unfolding program
trailing = refl

ab : compare (new_version (codes "1.01")) (codes "1.1") ≡ negsuc 0
unfolding program
ab = refl

ba : compare (new_version (codes "1.1")) (codes "1.01") ≡ negsuc 0
unfolding program
ba = refl

compare-compare_padded_example : compare (new_version (codes "1.2")) (codes "1.3") ≡ (
    if same_bytes (codes "1.3") (codes "1.2")
    then pos 0
    else if same_bytes (codes "1.3") development
    then pos 1
    else if same_bytes (codes "1.2") development
    then negsuc 0
    else compare_padded (tokens (codes "1.3")) (tokens (codes "1.2")))
compare-compare_padded_example = compare-compare_padded (codes "1.2") (codes "1.3")

compare-antisym_example :
    compare (new_version (codes "1.2")) (codes "1.10")
    ≡ neg (compare (new_version (codes "1.10")) (codes "1.2"))
unfolding program respelled_somewhere respelled
compare-antisym_example = compare-antisym (codes "1.2") (codes "1.10") refl
