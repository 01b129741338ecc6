-- ===== src/Manifest.antt =====
-- Package manifest: a function's manifest, read, checked and put in its stored form.
pub mod Reserved
pub mod Validate
pub mod Main
pub mod Size
pub mod Parse
pub mod Normalized
mod Tests
use funcbox.Prelude.{Bool, Option, Bytes, List, ℕ}
use funcbox.Go.Strconv.{ℤ}
use funcbox.Policy.Pattern.{Pattern}
use funcbox.Policy.Fetch.{FetchMode, FetchPolicy}
use funcbox.Policy.Visibility.{Visibility}

pub record FetchPermission : Type 0 where
  pub mode : FetchMode
  pub allow : List Pattern

-- (FetchPermission).FetchPolicy
unfoldable pub fetch_policy : FetchPermission → FetchPolicy
fetch_policy f = record { mode = f.mode; allow = f.allow }

-- `nodejs` is Compat.Nodejs and `fetch` Permissions.Fetch; `none` is a nil pointer.
pub record Manifest : Type 0 where
  pub source : Bytes
  pub name : Bytes
  pub owner : Bytes
  pub main : Bytes
  pub description : Bytes
  pub timeout : Option ℤ
  pub memory : Option ℤ
  pub nodejs : Bool
  pub fetch : FetchPermission
  pub env : List Bytes
  pub visibility : Option Visibility

-- The package's errors, by their sentinels.
pub data ManifestError : Type 0 where
  parse_error invalid_timeout invalid_memory invalid_fetch_policy invalid_visibility : ManifestError
  invalid_name invalid_owner reserved_name description_too_long invalid_env : ManifestError
  duplicate_env main_not_found no_entry_point nil_manifest : ManifestError
