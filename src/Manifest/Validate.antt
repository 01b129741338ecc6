-- ===== src/Manifest/Validate.antt =====
-- manifest/validate.go: the rules that do not need the bundle.
pub mod Rules
use funcbox.Prelude.{
  ℕ, Bool, true, false, not, ◌&&◌, ◌||◌, Bytes, codes, str_eq, List, [], ◌∷◌, ◌==◌, ltb, all,
  if◌then◌else◌, Option, none, some, Result, ok, err, ◌>>=◌, ◌>>◌, reject_if,
}
use funcbox.Go.Chars.{is_lower_alnum, is_alnum, is_upper, is_lower}
use funcbox.Go.Utf8.{rune_count}
use funcbox.Labels.{dns_label}
use funcbox.Manifest.Reserved.{is_reserved, in_set}
use funcbox.Manifest.{
  Manifest, ManifestError, invalid_name, invalid_owner, reserved_name, description_too_long,
  invalid_env, duplicate_env, nil_manifest,
}

-- nameRE
unfoldable pub name_re : Bytes → Bool
unfolding is_lower_alnum dns_label
name_re = dns_label is_lower_alnum

-- envNameRE, `^[A-Za-z_][A-Za-z0-9_]*$`
unfoldable pub env_first : ℕ → Bool
unfolding is_upper is_lower
env_first c = is_upper c || is_lower c || c == b'_'

unfoldable pub env_char : ℕ → Bool
unfolding is_alnum
env_char c = is_alnum c || c == b'_'

unfoldable pub is_valid_env_key : Bytes → Bool
unfolding env_first env_char
is_valid_env_key [] = false
is_valid_env_key (c ∷ s) = env_first c && all env_char s

abbrev pub max_description_length : ℕ
max_description_length = 500

unfoldable pub validate_dns_label : Bytes → ManifestError → Result ManifestError (Unit {0})
unfolding name_re is_reserved
validate_dns_label value not_match =
    if not (name_re value)
    then err not_match
    else if is_reserved value
    then err reserved_name
    else ok tt

unfoldable pub validate_user_id : Bytes → Result ManifestError (Unit {0})
unfolding validate_dns_label
validate_user_id user_id = validate_dns_label user_id invalid_name

-- the loop of validateEnv, with the keys seen so far
unfoldable pub validate_env_from : List Bytes → List Bytes → Result ManifestError (Unit {0})
unfolding is_valid_env_key in_set
validate_env_from seen [] = ok tt
validate_env_from seen (key ∷ env) =
    let rest = validate_env_from (key ∷ seen) env in
    if not (is_valid_env_key key)
    then err invalid_env
    else if in_set seen key
    then err duplicate_env
    else rest

unfoldable pub validate_env : List Bytes → Result ManifestError (Unit {0})
unfolding validate_env_from
validate_env env = validate_env_from [] env

unfoldable pub validate_owner : Bytes → Result ManifestError (Unit {0})
unfolding validate_dns_label str_eq
validate_owner owner =
    if not (str_eq owner (codes "")) then validate_dns_label owner invalid_owner else ok tt

unfoldable pub validate_present : Manifest → Result ManifestError (Unit {0})
unfolding validate_dns_label validate_owner rune_count validate_env
validate_present m = do
  validate_dns_label m.name invalid_name
  validate_owner m.owner
  reject_if (ltb max_description_length (rune_count m.description)) description_too_long
  validate_env m.env

unfoldable pub validate : Option Manifest → Result ManifestError (Unit {0})
unfolding validate_present
validate none = err nil_manifest
validate (some m) = validate_present m
