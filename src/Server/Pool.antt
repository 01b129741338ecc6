-- ===== src/Server/Pool.antt =====
-- server/internal/invoke/pool.go, buildFetchPolicy: the fetch permission of a stored version is parsed
-- once, when its pool is built.
pub mod Stored
use funcbox.Prelude.{Bytes, List, [], ◌∷◌, Result, ok, err, ◌>>=◌}
use funcbox.Policy.Pattern.{Pattern, parse_pattern}
use funcbox.Policy.Fetch.{FetchPolicy, parse_fetch_mode}
use funcbox.Manifest.Normalized.{NormalizedFetch}

pub data PoolError : Type 0 where
  stored_mode stored_pattern : Bytes → PoolError

-- The level that the adapter resolves with those of the owner, and the patterns that it is given.
pub record FetchPolicyAdapter : Type 0 where
  pub manifest_level : FetchPolicy
  pub allow : List Pattern

unfoldable pub stored_as {ℓ} : {E A : Type ℓ} → PoolError → Result E A → Result PoolError A
stored_as e (ok a) = ok a
stored_as e (err x) = err e

-- the loop over f.Allow
unfoldable pub parse_stored : List Bytes → Result PoolError (List Pattern)
unfolding stored_as parse_pattern
parse_stored [] = ok []
parse_stored (s ∷ ss) =
    stored_as (stored_pattern s) (parse_pattern s) >>= λ p. parse_stored ss >>= λ ps. ok (p ∷ ps)

unfoldable pub build_fetch_policy : NormalizedFetch → Result PoolError FetchPolicyAdapter
unfolding stored_as parse_fetch_mode parse_stored
build_fetch_policy f = stored_as (stored_mode f.mode) (parse_fetch_mode f.mode) >>= λ mode.
    parse_stored f.allow >>= λ allow.
    ok (record { manifest_level = record { mode = mode; allow = allow }; allow = allow })
