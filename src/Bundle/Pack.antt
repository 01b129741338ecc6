-- ===== src/Bundle/Pack.antt =====
-- bundle/pack.go: the canonical archive of some files. `write_archive` stands for the writers of
-- archive/tar and compress/gzip: the archive of the entries, if they can write it.
pub mod Canonical
use funcbox.Prelude.{
  ℕ, ◌+◌, ◌*◌, length, Bool, true, false, ◌&&◌, ◌||◌, Bytes, List, [], ◌∷◌, map, Option, ltb, ◌==◌,
  if◌then◌else◌,
}
use funcbox.Prelude.Maps.{Map}
use funcbox.Bundle.Unpack.{Typeflag, type_reg}

-- The order of Go strings, byte by byte.
unfoldable pub str_le : Bytes → Bytes → Bool
str_le [] t = true
str_le (x ∷ s) [] = false
str_le (x ∷ s) (y ∷ t) = ltb x y || (x == y && str_le s t)

-- sort.Strings, on the names with what they stand for
unfoldable pub insert_sorted : Bytes × Bytes → Map Bytes → Map Bytes
unfolding str_le
insert_sorted f [] = f ∷ []
insert_sorted f (g ∷ fs) =
    let rest = insert_sorted f fs in if str_le (f.0) (g.0) then f ∷ g ∷ fs else g ∷ rest

unfoldable pub sorted_files : Map Bytes → Map Bytes
unfolding insert_sorted
sorted_files [] = []
sorted_files (f ∷ fs) = insert_sorted f (sorted_files fs)

-- time.Unix(0, 0), in seconds
abbrev pub epoch : ℕ
epoch = 0

-- What Pack sets of a tar.Header, and the contents that follow it.
pub record PackedEntry : Type 0 where
  pub name : Bytes
  pub typeflag : Typeflag
  pub size : ℕ
  pub mode : ℕ
  pub uid : ℕ
  pub gid : ℕ
  pub uname : Bytes
  pub gname : Bytes
  pub mod_time : ℕ
  pub contents : Bytes

-- Mode is 0644 in octal.
unfoldable pub entry_of : Bytes × Bytes → PackedEntry
entry_of (name, contents) = record {
  name = name;
  typeflag = type_reg;
  size = length contents;
  mode = 6 * 64 + 4 * 8 + 4;
  uid = 0;
  gid = 0;
  uname = [];
  gname = [];
  mod_time = epoch;
  contents = contents;
}

unfoldable pub pack : (List PackedEntry → Option Bytes) → Map Bytes → Option Bytes
unfolding sorted_files entry_of
pack write_archive files = write_archive (map entry_of (sorted_files files))
