-- ===== src/Bundle/Paths.antt =====
-- bundle/unpack.go: normalizePath.
mod Stacks
pub mod Safe
use funcbox.Prelude.{
  ℕ, ◌≤◌, Bool, true, false, ◌||◌, Bytes, codes, str_eq, List, [], ◌∷◌, leb, ltb, length, Result,
  ok, err, if◌then◌else◌,
}
use funcbox.Go.Strings.{has_prefix, replace_byte}
use funcbox.Go.Path.{clean, slash, is_dot, is_dot_dot, no_bytes}

abbrev pub max_path_length : ℕ
max_path_length = 256

-- The errors of package bundle; the ones of the readers are texts of their own.
pub data BundleError : Type 0 where
  too_large too_many_files bad_path bad_entry_type read_failed : BundleError

-- "../"
abbrev pub up : Bytes
up = 46 ∷ 46 ∷ 47 ∷ []

-- '\\' is 92
unfoldable pub normalize_path : Bytes → Result BundleError Bytes
unfolding clean has_prefix replace_byte is_dot is_dot_dot no_bytes
normalize_path name =
    let norm : Bytes = replace_byte 92 47 name in
    let cleaned : Bytes = clean norm in
    if no_bytes name
    then err bad_path
    else if has_prefix norm slash
    then err bad_path
    else if is_dot cleaned || is_dot_dot cleaned || has_prefix cleaned up
    then err bad_path
    else if has_prefix cleaned slash
    then err bad_path
    else if ltb max_path_length (length cleaned)
    then err bad_path
    else ok cleaned
