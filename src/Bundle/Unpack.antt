-- ===== src/Bundle/Unpack.antt =====
-- bundle/unpack.go: Unpack, over what archive/tar reads. An archive is the sequence of its headers
-- with the contents behind each, up to the end of the archive or an error of the reader.
pub mod Limits
use funcbox.Prelude.{
  ℕ, suc, ◌+◌, ◌-◌, ◌*◌, Bool, true, false, Bytes, List, [], ◌∷◌, leb, ltb, length, Option, none,
  some, Result, ok, err, ◌>>=◌, if◌then◌else◌,
}
use funcbox.Prelude.Maps.{Map, get, put, remove}
use funcbox.Bundle.Paths.{
  BundleError, too_large, too_many_files, bad_path, bad_entry_type, read_failed, normalize_path,
}

-- 5 MiB
abbrev pub max_unpacked_bytes : ℕ
max_unpacked_bytes = 5 * 1048576

abbrev pub max_files : ℕ
max_files = 1000

-- hdr.Typeflag: '5', '0' or '\x00', and the rest
pub data Typeflag : Type 0 where
  type_dir type_reg : Typeflag
  type_other : ℕ → Typeflag

-- `readable` is false where the reader fails after it gave `contents`.
pub record TarEntry : Type 0 where
  pub name : Bytes
  pub typeflag : Typeflag
  pub contents : Bytes
  pub readable : Bool

-- How the archive ends: with io.EOF, or with an error of Next.
pub record Archive : Type 0 where
  pub entries : List TarEntry
  pub ends_well : Bool

-- readWithinBudget: io.ReadAll of a LimitReader of one byte more than is left. A reader that fails
-- behind that byte is not read so far.
unfoldable pub read_within_budget : TarEntry → ℕ → Result BundleError Bytes
read_within_budget e remaining =
    if ltb remaining (length e.contents)
    then err too_large
    else if e.readable
    then ok e.contents
    else err read_failed

-- The variables of the loop.
pub record Progress : Type 0 where
  pub files : Map Bytes
  pub total : ℕ
  pub count : ℕ

unfoldable pub add_unless_known :
    Bytes → TarEntry → Option Bytes → Progress → Result BundleError Progress
unfolding read_within_budget put remove
add_unless_known name e (some dup) s = err bad_path
add_unless_known name e none s =
    if ltb max_files (suc s.count)
    then err too_many_files
    else (read_within_budget e (max_unpacked_bytes - s.total) >>= λ contents. ok (record {
      files = put name contents s.files;
      total = s.total + length contents;
      count = suc s.count;
    }))

unfoldable pub read_file : TarEntry → Progress → Result BundleError Progress
unfolding normalize_path add_unless_known get
read_file e s = normalize_path e.name >>= λ name. add_unless_known name e (get name s.files) s

-- One turn of the loop.
unfoldable pub read_entry : Typeflag → TarEntry → Progress → Result BundleError Progress
unfolding read_file
read_entry type_dir e s = ok s
read_entry type_reg e s = read_file e s
read_entry (type_other c) e s = err bad_entry_type

unfoldable pub read_entries : List TarEntry → Progress → Result BundleError Progress
unfolding read_entry
read_entries [] s = ok s
read_entries (e ∷ entries) s = read_entry e.typeflag e s >>= read_entries entries

unfoldable pub unpack : Archive → Result BundleError (Map Bytes)
unfolding read_entries
unpack a = read_entries a.entries (record { files = []; total = 0; count = 0 }) >>= λ s.
    if a.ends_well then ok s.files else err read_failed
