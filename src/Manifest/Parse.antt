-- ===== src/Manifest/Parse.antt =====
-- manifest/parse.go: a manifest file is found, decoded and converted. The YAML decoder, floating
-- point and time.ParseDuration are parameters.
pub mod Sound
use funcbox.Prelude.{
  ℕ, Bool, true, false, not, Bytes, codes, str_eq, List, [], ◌∷◌, Option, none, some, Result, ok,
  err, ◌>>=◌, if◌then◌else◌, zero, suc,
}
use funcbox.Prelude.Maps.{Map, get}
use funcbox.Go.Strconv.{ℤ, pos, negsuc}
use funcbox.Policy.Pattern.{Pattern, PatternError, parse_pattern}
use funcbox.Policy.Fetch.{FetchMode, FetchModeError, deny, parse_fetch_mode}
use funcbox.Policy.Visibility.{Visibility, VisibilityError, parse_visibility}
use funcbox.Manifest.Size.{FloatOps, parse_byte_size}
use funcbox.Manifest.{
  FetchPermission, Manifest, ManifestError, parse_error, invalid_timeout, invalid_memory,
  invalid_fetch_policy, invalid_visibility,
}

pub record RawFetch : Type 0 where
  pub mode : Bytes
  pub allow : List Bytes

-- `nodejs` is Compat.Nodejs and `fetch` Permissions.Fetch.
pub record RawManifest : Type 0 where
  pub name : Bytes
  pub owner : Bytes
  pub main : Bytes
  pub description : Bytes
  pub timeout : Bytes
  pub memory : Bytes
  pub nodejs : Bool
  pub fetch : RawFetch
  pub env : List Bytes
  pub visibility : Bytes

-- yaml.UnmarshalWithOptions, time.ParseDuration (in nanoseconds) and float64
pub record Decoders : Type 1 where
  pub unmarshal : Bytes → Option RawManifest
  pub parse_duration : Bytes → Option ℤ
  pub floats : FloatOps

unfoldable pub as_error {ℓ} : {E A : Type ℓ} → ManifestError → Result E A → Result ManifestError A
as_error e (ok a) = ok a
as_error e (err _) = err e

-- `d <= 0` refuses
unfoldable pub positive : ManifestError → ℤ → Result ManifestError (Option ℤ)
positive e (pos zero) = err e
positive e (pos (suc n)) = ok (some (pos (suc n)))
positive e (negsuc n) = err e

unfoldable pub positive_parsed : ManifestError → Option ℤ → Result ManifestError (Option ℤ)
unfolding positive
positive_parsed e none = err e
positive_parsed e (some d) = positive e d

unfoldable pub build_mode : Bytes → Result ManifestError FetchMode
unfolding as_error parse_fetch_mode str_eq
build_mode mode =
    if not (str_eq mode (codes ""))
    then as_error invalid_fetch_policy (parse_fetch_mode mode)
    else ok deny

-- the loop over raw.Allow
unfoldable pub build_allow : List Bytes → Result ManifestError (List Pattern)
unfolding as_error parse_pattern
build_allow [] = ok []
build_allow (s ∷ allow) =
    as_error invalid_fetch_policy (parse_pattern s) >>= λ p. build_allow allow >>= λ ps. ok (p ∷ ps)

unfoldable pub build_fetch_permission : RawFetch → Result ManifestError FetchPermission
unfolding build_mode build_allow
build_fetch_permission raw = build_mode raw.mode >>= λ mode.
    build_allow raw.allow >>= λ allow. ok (record { mode = mode; allow = allow })

unfoldable pub build_visibility : Bytes → Result ManifestError (Option Visibility)
unfolding as_error parse_visibility str_eq
build_visibility s =
    if not (str_eq s (codes ""))
    then (as_error invalid_visibility (parse_visibility s) >>= λ v. ok (some v))
    else ok none

abbrev pub manifest_filenames : List Bytes
manifest_filenames = codes "funcbox.yaml" ∷ codes "funcbox.yml" ∷ codes "funcbox.json" ∷ []

unfoldable pub find_among : List Bytes → Map Bytes → Option (Bytes × Bytes)
unfolding get
find_among [] files = none
find_among (candidate ∷ rest) files = elim (get candidate files) [
  | some content ↦ some (candidate, content)
  | none ↦ find_among rest files
]

unfoldable pub find_manifest_file : Map Bytes → Option (Bytes × Bytes)
unfolding find_among
find_manifest_file files = find_among manifest_filenames files

-- `&Manifest{}`: the zero FetchMode is FetchModeDeny.
abbrev pub zero_manifest : Manifest
zero_manifest = record {
  source = [];
  name = [];
  owner = [];
  main = [];
  description = [];
  timeout = none;
  memory = none;
  nodejs = false;
  fetch = record { mode = deny; allow = [] };
  env = [];
  visibility = none;
}

module _ (d : Decoders) where
  open d use {unmarshal, parse_duration, floats}

  unfoldable pub build_timeout : Bytes → Result ManifestError (Option ℤ)
  unfolding positive_parsed str_eq
  build_timeout s =
      if not (str_eq s (codes ""))
      then positive_parsed invalid_timeout (parse_duration s)
      else ok none

  unfoldable pub build_memory : Bytes → Result ManifestError (Option ℤ)
  unfolding parse_byte_size positive str_eq
  build_memory s =
      if not (str_eq s (codes ""))
      then (parse_byte_size floats s >>= λ n. positive invalid_memory n)
      else ok none

  unfoldable pub build_manifest : RawManifest → Result ManifestError Manifest
  unfolding build_timeout build_memory build_fetch_permission build_visibility
  build_manifest raw = build_timeout raw.timeout >>= λ timeout.
      build_memory raw.memory >>= λ memory. build_fetch_permission raw.fetch >>= λ fetch.
      build_visibility raw.visibility >>= λ visibility. ok (record {
        source = [];
        name = raw.name;
        owner = raw.owner;
        main = raw.main;
        description = raw.description;
        timeout = timeout;
        memory = memory;
        nodejs = raw.nodejs;
        fetch = fetch;
        env = raw.env;
        visibility = visibility;
      })

  unfoldable pub build_decoded : Bytes → Option RawManifest → Result ManifestError Manifest
  unfolding build_manifest
  build_decoded name none = err parse_error
  build_decoded name (some raw) = build_manifest raw >>= λ m. ok (record m { source = name })

  unfoldable pub parse_found : Option (Bytes × Bytes) → Result ManifestError Manifest
  unfolding build_decoded
  parse_found none = ok zero_manifest
  parse_found (some (name, content)) = build_decoded name (unmarshal content)

  -- Parse
  unfoldable pub parse : Map Bytes → Result ManifestError Manifest
  unfolding parse_found find_manifest_file
  parse files = parse_found (find_manifest_file files)
