-- ===== src/Manifest/Normalized.antt =====
-- manifest/normalized.go: the stored form.
pub mod RoundTrip
use funcbox.Prelude.{Bool, Bytes, List, [], ◌∷◌, map, Option, none, some}
use funcbox.Go.Strconv.{ℤ, pos}
use funcbox.Policy.Pattern.{Pattern}
use funcbox.Policy.Fetch
use funcbox.Policy.Visibility
use funcbox.Policy.Visibility.{Visibility}
use funcbox.Manifest.{FetchPermission, Manifest}

pub record NormalizedFetch : Type 0 where
  pub mode : Bytes
  pub allow : List Bytes

pub record Normalized : Type 0 where
  pub source : Bytes
  pub name : Bytes
  pub owner : Bytes
  pub main : Bytes
  pub description : Bytes
  pub timeout : Bytes
  pub memory : ℤ
  pub nodejs : Bool
  pub fetch : NormalizedFetch
  pub env : List Bytes
  pub visibility : Bytes

unfoldable pub pattern_strings : List Pattern → List Bytes
pattern_strings = map (λ p. p.raw)

unfoldable pub normalized_fetch : FetchPermission → NormalizedFetch
unfolding pattern_strings Fetch.to_string
normalized_fetch f = record { mode = Fetch.to_string f.mode; allow = pattern_strings f.allow }

unfoldable pub visibility_string : Option Visibility → Bytes
unfolding Visibility.to_string
visibility_string none = []
visibility_string (some v) = Visibility.to_string v

unfoldable pub memory_or_zero : Option ℤ → ℤ
memory_or_zero none = pos 0
memory_or_zero (some n) = n

-- the parameter is (time.Duration).String
unfoldable pub timeout_string : (ℤ → Bytes) → Option ℤ → Bytes
timeout_string duration_string none = []
timeout_string duration_string (some d) = duration_string d

unfoldable pub normalized : (ℤ → Bytes) → Manifest → Normalized
unfolding normalized_fetch visibility_string memory_or_zero timeout_string
normalized duration_string m = record {
  source = m.source;
  name = m.name;
  owner = m.owner;
  main = m.main;
  description = m.description;
  timeout = timeout_string duration_string m.timeout;
  memory = memory_or_zero m.memory;
  nodejs = m.nodejs;
  fetch = normalized_fetch m.fetch;
  env = m.env;
  visibility = visibility_string m.visibility;
}
