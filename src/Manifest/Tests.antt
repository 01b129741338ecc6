-- ===== src/Manifest/Tests.antt =====
-- Runs of package manifest, and its theorems at concrete inputs.
use funcbox.Prelude.{ℕ, ◌*◌, ◌≡◌, refl, ◌↔◌, Bool, true, false, Bytes, codes, [], ◌∷◌, some, ok}
use funcbox.Prelude.Maps.{Map}
use funcbox.Go.Strconv.{ℤ, pos, negsuc, atoi}
use funcbox.Policy.Fetch.{allowlist}
use funcbox.Policy.Visibility.{org}
use funcbox.Manifest.{Manifest, FetchPermission}
use funcbox.Manifest.Validate.{validate}
use funcbox.Manifest.Validate.Rules.{IsValid, validate_iff}
use funcbox.Manifest.Main.{resolve_main}
use funcbox.Manifest.Size.{FloatOps}
use funcbox.Manifest.Parse.{RawFetch, RawManifest, Decoders, parse, build_fetch_permission}
use funcbox.Manifest.Parse.Sound.{IsReadFrom, parse-Agrees}

abbrev bundle_files : Map Bytes
bundle_files = (codes "index.mjs", codes "1") ∷ (codes "main.js", codes "2") ∷ []

abbrev raw_fetch : RawFetch
raw_fetch = record { mode = codes "allowlist"; allow = codes "a.b" ∷ [] }

abbrev fetch : FetchPermission
fetch = record {
  mode = allowlist;
  allow = record { raw = codes "a.b"; host = codes "a.b"; wildcard = false; port = 0 } ∷ [];
}

abbrev raw : RawManifest
raw = record {
  name = codes "app";
  owner = [];
  main = codes "main.js";
  description = [];
  timeout = codes "5";
  memory = codes "128";
  nodejs = false;
  fetch = raw_fetch;
  env = codes "KEY" ∷ [];
  visibility = codes "org";
}

abbrev app : Manifest
app = record {
  source = [];
  name = codes "app";
  owner = [];
  main = codes "main.js";
  description = [];
  timeout = some (pos 5);
  memory = some (pos 128);
  nodejs = false;
  fetch = fetch;
  env = codes "KEY" ∷ [];
  visibility = some org;
}

-- Floats that are whole numbers.
abbrev is_below_zero : ℤ → Bool
is_below_zero (pos n) = false
is_below_zero (negsuc n) = true

abbrev times : ℤ → ℕ → ℤ
times (pos n) k = pos (n * k)
times (negsuc n) k = pos 0

abbrev whole_floats : FloatOps
whole_floats = record { Float = ℤ; parse_float = atoi; is_negative = is_below_zero; scaled = times }

abbrev decoders : Decoders
decoders = record { unmarshal = λ content. some raw; parse_duration = atoi; floats = whole_floats }

build_fetch_permission_run : build_fetch_permission raw_fetch ≡ ok fetch
unfolding build_fetch_permission
build_fetch_permission_run = refl

resolve_main_run : resolve_main [] bundle_files ≡ ok (codes "index.mjs")
unfolding resolve_main
resolve_main_run = refl

validate_run : validate (some app) ≡ ok tt
unfolding validate
validate_run = refl

validate_iff_example : (validate (some app) ≡ ok tt) ↔ IsValid app
validate_iff_example = validate_iff app

abbrev with_manifest : Map Bytes
with_manifest = (codes "funcbox.yml", codes "name: app") ∷ bundle_files

abbrev parsed_app : Manifest
parsed_app = record app { source = codes "funcbox.yml" }

parse_run : parse decoders with_manifest ≡ ok parsed_app
unfolding parse
parse_run = refl

parse-Agrees_example : IsReadFrom decoders with_manifest parsed_app
parse-Agrees_example = parse-Agrees decoders with_manifest parsed_app parse_run
