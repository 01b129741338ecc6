-- ===== src/Bundle/Tests.antt =====
-- Runs of package bundle, and its theorems at concrete inputs.
use funcbox.Prelude.{
  ◌≡◌, refl, true, Bytes, codes, [], ◌∷◌, ok, err, ◌≢◌, str_eq, str_eq_iff, List, Option, none,
  some, false, arith,
}
use funcbox.Prelude.Maps.{Map, remove}
use funcbox.Bundle.Paths.{normalize_path, bad_path}
use funcbox.Bundle.Paths.Safe.{IsSafePath, normalize_path-IsSafePath}
use funcbox.Bundle.Pack.{PackedEntry, pack}
use funcbox.Bundle.Pack.Canonical.{pack-Reorder, swapped}
use funcbox.Bundle.Unpack.{type_dir, type_reg, Archive, unpack}
use funcbox.Bundle.Unpack.Limits.{IsUnpacked, unpack-IsUnpacked}

normalize_path_run : normalize_path (codes "./src//lib/../a.js") ≡ ok (codes "src/a.js")
unfolding normalize_path
normalize_path_run = refl

normalize_path_escape : normalize_path (codes "src/../../a.js") ≡ err bad_path
unfolding normalize_path
normalize_path_escape = refl

normalize_path-IsSafePath_example : IsSafePath (codes "src/a.js")
normalize_path-IsSafePath_example =
    normalize_path-IsSafePath (codes "./src//lib/../a.js") (codes "src/a.js") normalize_path_run

abbrev archive : Archive
archive = record {
  entries =
      record { name = codes "src/"; typeflag = type_dir; contents = []; readable = true }
      ∷ record {
        name = codes "src/a.js";
        typeflag = type_reg;
        contents = codes "1";
        readable = true;
      }
      ∷ [];
  ends_well = true;
}

abbrev files : Map Bytes
files = (codes "src/a.js", codes "1") ∷ []

unpack_run : unpack archive ≡ ok files
unfolding unpack remove
unpack_run = refl

unpack-IsUnpacked_example : IsUnpacked archive.entries files
unpack-IsUnpacked_example = unpack-IsUnpacked archive files unpack_run

abbrev two_files : Map Bytes
two_files = (codes "a.js", codes "1") ∷ (codes "b.js", codes "2") ∷ []

abbrev two_files_again : Map Bytes
two_files_again = (codes "b.js", codes "2") ∷ (codes "a.js", codes "1") ∷ []

abbrev first_name : List PackedEntry → Option Bytes
first_name [] = none
first_name (e ∷ es) = some e.name

unequal : (s t : Bytes) → str_eq s t ≡ false → s ≢ t
unequal s t h e = ground (arith, str_eq_iff s t)

names_apart : codes "a.js" ≢ codes "b.js"
unfolding str_eq
names_apart = unequal (codes "a.js") (codes "b.js") refl

pack-Reorder_example : pack first_name two_files ≡ pack first_name two_files_again
pack-Reorder_example =
    pack-Reorder first_name
      (swapped (codes "a.js", codes "1") (codes "b.js", codes "2") [] names_apart)
