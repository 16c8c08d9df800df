-- ===== src/Unarchive/Tests.antt =====
-- Runs of unarchive/archive.go on small archives, and its theorems at concrete inputs.
use mathlib.Core.List.Permᴰ
use gofrog.Prelude.{
  ◌≡◌, refl, arith, inr, [], ◌∷◌, Bool, true, false, none, some, pos, Bytes, codes, same_bytes,
  bytes_discrete, MapRange, List, if◌then◌else◌,
}
use gofrog.Version.{split, trim_space, is_empty}
use gofrog.Datastructures.Set.{make_set, exists_key, add}
use gofrog.Filepath.{
  has_prefix, trim_separator, count_separators, is_abs, clean, clean_names, render, join,
  join_names, dir, through_last_separator,
}
use gofrog.Unarchive.{
  Format, zip, brotli, Unarchiver, File, Library, Instance, illegal_path, illegal_uplink, err, ok,
  new_uplinks_validator, add_target_link, add_entry_file, get_path_in_archive, new_instance,
  ensure_links, ensure_no_uplink_dirs, is_supported_archive, target_of, check_symlink_entry,
  is_link, inspect_entry_at, inspect_entry, inspect_entries, inspect_archive, first_format,
  by_extension, unarchive,
}
use gofrog.Unarchive.Admitted.{is_ok, inspect_entries-All}

abbrev program : Unit {0}
unfolding split trim_space is_empty make_set exists_key add has_prefix trim_separator
    count_separators is_abs clean clean_names render join join_names dir through_last_separator
    new_uplinks_validator add_target_link add_entry_file get_path_in_archive new_instance
    ensure_links ensure_no_uplink_dirs is_supported_archive target_of check_symlink_entry is_link
    inspect_entry_at inspect_entry inspect_entries inspect_archive first_format by_extension
    unarchive bytes_discrete same_bytes
program = tt

abbrev plain : Bytes → File Bool
plain path = record {
  header = inr (record { entry_path = path; target_link = [] });
  is_symlink = false;
  is_dir = false;
  content = inr [];
}

abbrev link : Bytes → Bytes → File Bool
link path target = record {
  header = inr (record { entry_path = path; target_link = [] });
  is_symlink = true;
  is_dir = false;
  content = inr target;
}

-- A library whose archives hold the given files.
abbrev library : List (File Bool) → Library Bool
library files = record {
  check_ext = λ f name. if same_bytes name (codes "x.zip") then is_zip f else is_brotli f;
  by_extension = λ name. some true;
  is_unarchiver = is_zip;
  is_walker = is_zip;
  walk = λ f p. (files, none);
}
  where
    is_zip : Format → Bool
    is_zip zip = true
    is_zip _ = false

    is_brotli : Format → Bool
    is_brotli brotli = true
    is_brotli _ = false

abbrev in_order : MapRange (Bytes × Bytes)
in_order = record { visit = λ links. links; visits_all = Permᴰ.refl }

abbrev zip_archive : Instance
zip_archive = record { format = zip; options = some (true, pos 1) }

abbrev careful : Unarchiver
careful = record { bypass_inspection = false; strip_components = pos 1 }

cleaned : clean (codes "a//b/./../c/") ≡ codes "a/c"
unfolding program
cleaned = refl

joined : join (codes "/d" ∷ codes "a" ∷ codes "../../e" ∷ []) ≡ codes "/e"
unfolding program
joined = refl

brotli_unrecognized : by_extension careful (library []) (codes "x.br") ≡ none
unfolding program
brotli_unrecognized = refl

slipped :
    unarchive careful
      (library (plain (codes "../../etc/x") ∷ []))
      in_order
      (codes "p")
      (codes "x.zip")
      (codes "/t/d/")
    ≡ err (illegal_path (codes "../../etc/x") (codes "/t/d"))
unfolding program
slipped = refl

uplink :
    unarchive careful
      (library (link (codes "a/b/l") (codes "..") ∷ []))
      in_order
      (codes "p")
      (codes "x.zip")
      (codes "/t/d")
    ≡ err (illegal_uplink (codes "/t/d/a/b/l") (codes "/t/d/a"))
unfolding program
uplink = refl

-- The prefix is no test of the directory: a sibling with a longer name passes.
abbrev sibling : Library Bool
sibling = library (plain (codes "../d-evil/x") ∷ [])

sibling_extracted :
    unarchive careful sibling in_order (codes "p") (codes "x.zip") (codes "/t/d")
    ≡ ok (zip_archive, codes "p", codes "/t/d")
unfolding program
sibling_extracted = refl

-- A file, and a link to it from below.
abbrev linked : Library Bool
linked = library (plain (codes "a") ∷ link (codes "b/l") (codes "../a") ∷ [])

inspect_entries-All_example :
    is_ok (
      inspect_entries
        (codes "/t/d")
        (plain (codes "a") ∷ link (codes "b/l") (codes "../a") ∷ [])
        new_uplinks_validator)
    ≡ true
unfolding program
inspect_entries-All_example =
    inspect_entries-All (codes "/t/d") (plain (codes "a") ∷ link (codes "b/l") (codes "../a") ∷ [])
      new_uplinks_validator
      (
        record {
          header = record { entry_path = codes "a"; target_link = [] };
          has_header = refl;
          path_inside = refl;
          link_inside = λ l. absurd (ground arith);
        },
        (
          record {
            header = record { entry_path = codes "b/l"; target_link = [] };
            has_header = refl;
            path_inside = refl;
            link_inside =
                λ _. record { target = codes "../a"; is_target = refl; target_inside = refl };
          },
          tt,
        ),
      )
