-- ===== src/Filepath.antt =====
-- The parts of Go's path/filepath and strings that unarchive/archive.go uses, on Unix.
use gofrog.Prelude.{
  ℕ, suc, List, [], ◌∷◌, ◌++◌, Bool, true, false, ◌||◌, ◌&&◌, if◌then◌else◌, ◌==◌, Bytes,
  same_bytes,
}
use gofrog.Version.{split, is_empty}

abbrev pub separator : ℕ
separator = 47

abbrev pub dot : Bytes
dot = 46 ∷ []

abbrev pub dot_dot : Bytes
dot_dot = 46 ∷ 46 ∷ []

unfoldable pub has_prefix : Bytes → Bytes → Bool
has_prefix s [] = true
has_prefix [] (_ ∷ _) = false
has_prefix (a ∷ s) (b ∷ t) = a == b && has_prefix s t

-- strings.TrimSuffix and strings.Count for the separator.
unfoldable pub trim_separator : Bytes → Bytes
trim_separator [] = []
trim_separator (c ∷ s) = if c == separator && is_empty s then [] else c ∷ trim_separator s

unfoldable pub count_separators : Bytes → ℕ
count_separators [] = 0
count_separators (c ∷ s) =
    let rest = count_separators s in if c == separator then suc rest else rest

unfoldable pub is_abs : Bytes → Bool
is_abs [] = false
is_abs (c ∷ _) = c == separator

-- Clean keeps the names so far, the last one first.
unfoldable pub go_up : Bool → List Bytes → List Bytes
go_up rooted [] = if rooted then [] else dot_dot ∷ []
go_up rooted (n ∷ out) = if same_bytes n dot_dot then dot_dot ∷ n ∷ out else out

unfoldable pub clean_name : Bool → Bytes → List Bytes → List Bytes
unfolding go_up
clean_name rooted name out =
    if is_empty name || same_bytes name dot
    then out
    else if same_bytes name dot_dot
    then go_up rooted out
    else name ∷ out

unfoldable pub clean_names : Bool → List Bytes → List Bytes → List Bytes
unfolding clean_name
clean_names rooted [] out = out
clean_names rooted (n ∷ ns) out = clean_names rooted ns (clean_name rooted n out)

unfoldable pub render : List Bytes → Bytes
render [] = []
render (n ∷ out) = let rest = render out in if is_empty rest then n else rest ++ separator ∷ n

unfoldable pub clean : Bytes → Bytes
unfolding is_abs clean_names render
clean path =
    let names = render (clean_names (is_abs path) (split separator path) []) in
    if is_abs path then separator ∷ names else if is_empty names then dot else names

unfoldable pub join_names : List Bytes → Bytes
join_names [] = []
join_names (e ∷ es) = elim es [ [] ↦ e | _ ∷ _ ↦ e ++ separator ∷ join_names es ]

unfoldable pub join : List Bytes → Bytes
unfolding join_names clean
join [] = []
join (e ∷ es) = let rest = join es in if is_empty e then rest else clean (join_names (e ∷ es))

unfoldable pub through_last_separator : Bytes → Bytes
through_last_separator [] = []
through_last_separator (c ∷ s) =
    let rest = through_last_separator s in
    if is_empty rest then if c == separator then c ∷ [] else [] else c ∷ rest

unfoldable pub dir : Bytes → Bytes
unfolding through_last_separator clean
dir path = clean (through_last_separator path)

strip_separators : Bytes → Bytes
strip_separators [] = []
strip_separators (c ∷ s) =
    let rest = strip_separators s in
    if is_empty rest then if c == separator then [] else c ∷ [] else c ∷ rest

-- The name behind the last separator, after the letters so far.
unfoldable pub after_last : Bytes → Bytes → Bytes
after_last so_far [] = so_far
after_last so_far (c ∷ s) = after_last (if c == separator then [] else so_far ++ (c ∷ [])) s

unfoldable pub base : Bytes → Bytes
unfolding strip_separators after_last
base path =
    let name = after_last [] (strip_separators path) in
    if is_empty path then dot else if is_empty name then separator ∷ [] else name
