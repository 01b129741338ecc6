-- ===== src/Policy/Fetch.antt =====
-- policy/fetch.go: fetch modes, and the policy in effect over several levels.
pub mod Intersection
use funcbox.Prelude.{
  ℕ, Bool, true, false, not, Bytes, codes, str_eq, List, [], ◌∷◌, ltb, ◌==◌, if◌then◌else◌, Result,
  ok, err,
}
use funcbox.Policy.Pattern.{Pattern, matches}

-- in the order of the constants
pub data FetchMode : Type 0 where
  deny allowlist allow_all : FetchMode

-- the constant's number
unfoldable pub rank : FetchMode → ℕ
rank deny = 0
rank allowlist = 1
rank allow_all = 2

unfoldable pub to_string : FetchMode → Bytes
to_string deny = codes "deny"
to_string allowlist = codes "allowlist"
to_string allow_all = codes "allow-all"

-- ErrInvalidFetchMode
pub data FetchModeError : Type 0 where
  invalid_fetch_mode : Bytes → FetchModeError

unfoldable pub parse_fetch_mode : Bytes → Result FetchModeError FetchMode
unfolding str_eq
parse_fetch_mode s =
    if str_eq s (codes "deny")
    then ok deny
    else if str_eq s (codes "allowlist")
    then ok allowlist
    else if str_eq s (codes "allow-all")
    then ok allow_all
    else err (invalid_fetch_mode s)

pub record FetchPolicy : Type 0 where
  pub mode : FetchMode
  pub allow : List Pattern

pub record EffectivePolicy : Type 0 where
  pub mode : FetchMode
  pub levels : List FetchPolicy

-- the first loop of Effective
unfoldable pub least_mode : FetchMode → List FetchPolicy → FetchMode
unfolding rank
least_mode mode [] = mode
least_mode mode (l ∷ levels) =
    least_mode (if ltb (rank l.mode) (rank mode) then l.mode else mode) levels

unfoldable pub is_allowlist : FetchMode → Bool
unfolding rank
is_allowlist m = rank m == 1

-- the second loop of Effective
unfoldable pub constrained : List FetchPolicy → List FetchPolicy
unfolding is_allowlist
constrained [] = []
constrained (l ∷ levels) =
    let rest = constrained levels in if is_allowlist l.mode then l ∷ rest else rest

unfoldable pub effective : List FetchPolicy → EffectivePolicy
unfolding least_mode constrained
effective [] = record { mode = deny; levels = [] }
effective (l ∷ levels) =
    let mode = least_mode allow_all (l ∷ levels) in
    record { mode = mode; levels = if is_allowlist mode then constrained (l ∷ levels) else [] }

unfoldable pub any_pattern_matches : List Pattern → Bytes → ℕ → Bool
unfolding matches
any_pattern_matches [] host port = false
any_pattern_matches (p ∷ patterns) host port =
    if matches p host port then true else any_pattern_matches patterns host port

-- the loop of Decision over the allowlists
unfoldable pub every_level_matches : List FetchPolicy → Bytes → ℕ → Bool
unfolding any_pattern_matches
every_level_matches [] host port = true
every_level_matches (l ∷ levels) host port =
    if not (any_pattern_matches l.allow host port)
    then false
    else every_level_matches levels host port

unfoldable pub decide_by : FetchMode → List FetchPolicy → Bytes → ℕ → Bool
unfolding every_level_matches
decide_by allow_all levels host port = true
decide_by allowlist levels host port = every_level_matches levels host port
decide_by deny levels host port = false

-- (EffectivePolicy).Decision
unfoldable pub decision : EffectivePolicy → Bytes → ℕ → Bool
unfolding decide_by
decision e host port = decide_by e.mode e.levels host port
