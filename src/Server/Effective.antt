-- ===== src/Server/Effective.antt =====
-- server/internal/invoke/effective.go, over the settings of server/internal/settings/settings.go: the
-- fields that it reads. The store and the JSON decoder are parameters.
pub mod Cache
pub mod Narrowest
use funcbox.Prelude.{
  ℕ, Bool, true, false, not, Bytes, codes, str_eq, List, [], ◌∷◌, ◌++◌, Option, none, some, Result,
  ok, err, ◌>>=◌, is_empty, if◌then◌else◌,
}
use funcbox.Prelude.Maps.{Map, get, put}
use funcbox.Go.Strconv.{itoa}
use funcbox.Policy.Fetch.{
  FetchMode, FetchPolicy, EffectivePolicy, deny, effective, parse_fetch_mode,
}
use funcbox.Policy.Pattern.{Pattern, parse_pattern}
use funcbox.Policy.Visibility.{Visibility, parse_visibility, min_visibility}
use funcbox.Server.Authz.{owner_type_workspace}

-- settings.FetchPolicy
pub record FetchSettings : Type 0 where
  pub mode : Bytes
  pub allow : List Bytes

pub record OrgSettings : Type 0 where
  pub default_visibility : Bytes
  pub max_visibility : Bytes
  pub fetch_policy : FetchSettings

pub record WorkspaceSettings : Type 0 where
  pub max_visibility : Bytes
  pub fetch_policy : FetchSettings

-- DefaultOrg and DefaultWorkspace
abbrev pub default_org : OrgSettings
default_org = record {
  default_visibility = codes "org";
  max_visibility = codes "public";
  fetch_policy = record { mode = codes "deny"; allow = [] };
}

abbrev pub default_workspace : WorkspaceSettings
default_workspace = record {
  max_visibility = [];
  fetch_policy = record { mode = codes "allow-all"; allow = [] };
}

-- A row of organizations or workspaces.
pub record Row : Type 0 where
  pub settings : Bytes
  pub settings_gen : ℕ

-- `org_row` and `workspace_row` are none where the store fails; json.Unmarshal decodes onto a value.
pub record Store : Type 0 where
  pub org_row : Option Row
  pub workspace_row : Bytes → Option Row
  pub unmarshal_org : Bytes → OrgSettings → Option OrgSettings
  pub unmarshal_workspace : Bytes → WorkspaceSettings → Option WorkspaceSettings

pub data EffectiveError : Type 0 where
  load_failed parse_failed bad_policy bad_visibility : EffectiveError

unfoldable pub or_error {ℓ} : {A : Type ℓ} → EffectiveError → Option A → Result EffectiveError A
or_error e none = err e
or_error e (some a) = ok a

unfoldable pub as_error {ℓ} : {E A : Type ℓ} → EffectiveError → Result E A → Result EffectiveError A
as_error e (ok a) = ok a
as_error e (err _) = err e

-- ParseOrg and ParseWorkspace
unfoldable pub parse_org : Store → Bytes → Result EffectiveError OrgSettings
unfolding or_error
parse_org st raw =
    if is_empty raw
    then ok default_org
    else or_error parse_failed (st.unmarshal_org raw default_org)

unfoldable pub parse_workspace : Store → Bytes → Result EffectiveError WorkspaceSettings
unfolding or_error
parse_workspace st raw =
    if is_empty raw
    then ok default_workspace
    else or_error parse_failed (st.unmarshal_workspace raw default_workspace)

unfoldable pub parse_allow : List Bytes → Result EffectiveError (List Pattern)
unfolding as_error parse_pattern
parse_allow [] = ok []
parse_allow (s ∷ allow) =
    as_error bad_policy (parse_pattern s) >>= λ p. parse_allow allow >>= λ ps. ok (p ∷ ps)

-- (FetchPolicy).Policy
unfoldable pub settings_policy : FetchSettings → Result EffectiveError FetchPolicy
unfolding as_error parse_fetch_mode parse_allow
settings_policy f = as_error bad_policy (parse_fetch_mode f.mode) >>= λ mode.
    parse_allow f.allow >>= λ allow. ok (record { mode = mode; allow = allow })

pub record OwnerSettings : Type 0 where
  pub gen : ℕ
  pub fetch : FetchPolicy

unfoldable pub load_org_settings : Store → Result EffectiveError OwnerSettings
unfolding or_error parse_org settings_policy
load_org_settings st = or_error load_failed st.org_row >>= λ row.
    parse_org st row.settings >>= λ set.
    settings_policy set.fetch_policy >>= λ fp. ok (record { gen = row.settings_gen; fetch = fp })

unfoldable pub load_workspace_settings : Store → Bytes → Result EffectiveError OwnerSettings
unfolding or_error parse_workspace settings_policy
load_workspace_settings st ws_id = or_error load_failed (st.workspace_row ws_id) >>= λ row.
    parse_workspace st row.settings >>= λ set.
    settings_policy set.fetch_policy >>= λ fp. ok (record { gen = row.settings_gen; fetch = fp })

unfoldable pub is_workspace_owner : Bytes → Bool
unfolding str_eq
is_workspace_owner owner_type = str_eq owner_type owner_type_workspace

-- The workspace level: none, which has generation 0, for a function of a user.
unfoldable pub load_owner : Store → Bytes → Bytes → Result EffectiveError (Option OwnerSettings)
unfolding is_workspace_owner load_workspace_settings
load_owner st owner_type owner_id =
    if is_workspace_owner owner_type
    then (load_workspace_settings st owner_id >>= λ ws. ok (some ws))
    else ok none

unfoldable pub gen_of : Option OwnerSettings → ℕ
gen_of none = 0
gen_of (some ws) = ws.gen

-- fmt.Sprintf("%d:%d:%s", ...)
unfoldable pub cache_key : ℕ → ℕ → Bytes → Bytes
unfolding itoa
cache_key org_gen ws_gen version_id = itoa org_gen ++ 58 ∷ (itoa ws_gen ++ 58 ∷ version_id)

unfoldable pub levels_of : FetchPolicy → Option OwnerSettings → FetchPolicy → List FetchPolicy
levels_of org none manifest_level = org ∷ manifest_level ∷ []
levels_of org (some ws) manifest_level = org ∷ ws.fetch ∷ manifest_level ∷ []

abbrev pub denied : EffectivePolicy
denied = effective (record { mode = deny; allow = [] } ∷ [])

-- The cache and what it gives.
unfoldable pub look_up :
    Map EffectivePolicy
    → Bytes
    → Option EffectivePolicy
    → List FetchPolicy
    → Map EffectivePolicy × EffectivePolicy
unfolding put effective
look_up cache key (some cached) levels = (cache, cached)
look_up cache key none levels = (put key (effective levels) cache, effective levels)

unfoldable pub resolve_loaded :
    Map EffectivePolicy
    → Bytes
    → FetchPolicy
    → Result EffectiveError (OwnerSettings × Option OwnerSettings)
    → Map EffectivePolicy × EffectivePolicy
unfolding look_up cache_key gen_of levels_of get
resolve_loaded cache version_id manifest_level (err e) = (cache, denied)
resolve_loaded cache version_id manifest_level (ok (org, ws)) =
    let key = cache_key org.gen (gen_of ws) version_id in
    look_up cache key (get key cache) (levels_of org.fetch ws manifest_level)

unfoldable pub load :
    Store → Bytes → Bytes → Result EffectiveError (OwnerSettings × Option OwnerSettings)
unfolding load_org_settings load_owner
load st owner_type owner_id =
    load_org_settings st >>= λ org. load_owner st owner_type owner_id >>= λ ws. ok (org, ws)

-- resolveFetch
unfoldable pub resolve_fetch :
    Map EffectivePolicy
    → Store
    → Bytes
    → Bytes
    → Bytes
    → FetchPolicy
    → Map EffectivePolicy × EffectivePolicy
unfolding resolve_loaded load
resolve_fetch cache st owner_type owner_id version_id manifest_level =
    resolve_loaded cache version_id manifest_level (load st owner_type owner_id)

-- The least of the levels that are set; an empty maximum of the workspace sets none.
unfoldable pub with_workspace_max :
    Visibility → Visibility → Bytes → Result EffectiveError Visibility
unfolding as_error parse_visibility min_visibility
with_workspace_max manifest_vis org_max max =
    if is_empty max
    then ok (min_visibility (manifest_vis ∷ org_max ∷ []))
    else (as_error bad_visibility (parse_visibility max) >>= λ ws_max.
        ok (min_visibility (manifest_vis ∷ ws_max ∷ org_max ∷ [])))

unfoldable pub within_workspace :
    Store → Bytes → Visibility → Visibility → Result EffectiveError Visibility
unfolding or_error parse_workspace with_workspace_max
within_workspace st owner_id manifest_vis org_max =
    or_error load_failed (st.workspace_row owner_id) >>= λ row.
    parse_workspace st row.settings >>= λ set.
    with_workspace_max manifest_vis org_max set.max_visibility

unfoldable pub declared_visibility : Bytes → OrgSettings → Bytes
declared_visibility manifest_visibility set =
    if is_empty manifest_visibility then set.default_visibility else manifest_visibility

-- resolveVisibility
unfoldable pub resolve_visibility : Store → Bytes → Bytes → Bytes → Result EffectiveError Visibility
unfolding or_error parse_org as_error parse_visibility declared_visibility is_workspace_owner
    within_workspace min_visibility
resolve_visibility st owner_type owner_id manifest_visibility =
    or_error load_failed st.org_row >>= λ row. parse_org st row.settings >>= λ set.
    as_error bad_visibility (parse_visibility set.max_visibility) >>= λ org_max.
    as_error bad_visibility (parse_visibility (declared_visibility manifest_visibility set))
    >>= λ manifest_vis.
        if is_workspace_owner owner_type
        then within_workspace st owner_id manifest_vis org_max
        else ok (min_visibility (manifest_vis ∷ org_max ∷ []))
