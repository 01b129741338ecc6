-- ===== src/Server/Tests.antt =====
-- Runs of the server's parts, and their theorems at concrete inputs.
use funcbox.Prelude.{
  ◌<◌, ℕ, zero, suc, ◌+◌, ◌-◌, ◌*◌, ◌≤◌, ◌≡◌, refl, ◌↔◌, true, Bytes, codes, [], ◌∷◌, some, take,
  length, arith, none, Option,
}
use funcbox.Prelude.{ok}
use funcbox.Prelude.Maps.{get}
use funcbox.Policy.Fetch.{FetchPolicy, EffectivePolicy, allow_all, allowlist}
use funcbox.Manifest.{FetchPermission, fetch_policy}
use funcbox.Manifest.Parse.{RawFetch, build_fetch_permission}
use funcbox.Manifest.Normalized.{normalized_fetch}
use funcbox.Server.Pool.{build_fetch_policy}
use funcbox.Server.Pool.Stored.{build_fetch_policy-normalized_fetch}
use funcbox.Policy.Visibility.{org}
use funcbox.Server.Effective.{
  OrgSettings, Store, load, gen_of, levels_of, resolve_fetch, resolve_visibility,
}
use funcbox.Server.Effective.Cache.{
  History, IsCoherent, IsCurrent, uncached, resolve_fetch-uncached,
}
use funcbox.Server.Effective.Narrowest.{IsWithin, resolve_visibility-IsWithin}
use funcbox.Server.Authz.{Actor, Target, function_manage, can, role_member, owner_type_workspace}
use funcbox.Server.Authz.Matrix.{Allowed, can_iff}
use funcbox.Server.RateLimit.{
  IpRateLimiter, new_ip_rate_limiter, allow, full, second, register_rate_burst,
  register_rate_refill_interval, register_bucket_idle_evict,
}
use funcbox.Server.RateLimit.Levels.{
  level, cost, Calls, Ordered, allowed_count, level-allow, allowed_count_bound,
}
use funcbox.Server.LogCapture.{
  new_capture, begins, ends, writes_stdout, Trace, new_invocation_tracker, run, write,
  max_captured_output_bytes,
}
use funcbox.Server.LogCapture.Bounds.{
  write_all, concat, write_all-take, BreaksContract, write-BreaksContract_iff,
}
use funcbox.Server.LogCapture.Isolation.{IsSeparate, seen, of_goroutine, alone, run-alone}

abbrev member : Actor
member = record { user_id = codes "u1"; role = role_member }

abbrev shared_function : Target
shared_function = record {
  allow_user_functions = true;
  workspace_role = some role_member;
  member_can_deploy = true;
  owner_type = owner_type_workspace;
  owner_user_id = codes "u2";
}

can_run : can member function_manage shared_function ≡ true
unfolding can
can_run = refl

can_iff_example :
    (can member function_manage shared_function ≡ true)
    ↔ Allowed member shared_function function_manage
can_iff_example = can_iff member shared_function function_manage

abbrev limiter : IpRateLimiter
limiter = new_ip_rate_limiter register_rate_burst register_rate_refill_interval

full_run : full limiter ≤ register_bucket_idle_evict
unfolding full new_ip_rate_limiter
full_run = omega arith

level-allow_example :
    level (codes "10.0.0.1") 5 (allow (codes "10.0.0.1") 5 limiter).0
      + cost
          (codes "10.0.0.1")
          (codes "10.0.0.1")
          (allow (codes "10.0.0.1") 5 limiter).1
          limiter.interval
    ≡ level (codes "10.0.0.1") 5 limiter
level-allow_example = level-allow (codes "10.0.0.1") (codes "10.0.0.1") 5 limiter full_run

abbrev calls : Calls
calls = (codes "a", 1) ∷ (codes "b", 2) ∷ (codes "a", 7 * second) ∷ []

calls-Ordered : Ordered 0 calls (8 * second)
calls-Ordered = (omega arith, (omega arith, (omega arith, omega arith)))

allowed_count_bound_example :
    allowed_count (codes "a") calls limiter * limiter.interval
    ≤ limiter.burst * limiter.interval + (8 * second - 0)
allowed_count_bound_example =
    allowed_count_bound (codes "a") calls 0 (8 * second) limiter full_run calls-Ordered

-- In between the key repeats its call in vain.
abbrev impatient : Calls
impatient = (codes "b", 2 * second) ∷ (codes "a", 3 * second) ∷ []

write_all-take_example :
    write_all (codes "ab" ∷ codes "c" ∷ []) []
    ≡ take max_captured_output_bytes (concat (codes "ab" ∷ codes "c" ∷ []))
write_all-take_example = write_all-take (codes "ab" ∷ codes "c" ∷ [])

abbrev two_goroutines : Trace
two_goroutines =
    (1, begins)
    ∷ (2, begins)
    ∷ (1, writes_stdout (codes "a"))
    ∷ (2, writes_stdout (codes "b"))
    ∷ (2, ends)
    ∷ []

run-two_goroutines :
    seen 1 (run two_goroutines new_invocation_tracker)
    ≡ some (record new_capture { stdout = codes "a" })
unfolding run new_invocation_tracker
run-two_goroutines = refl

new_invocation_tracker-IsSeparate : IsSeparate new_invocation_tracker
unfolding new_invocation_tracker
new_invocation_tracker-IsSeparate = record {
  allocated = λ i p e. ground arith;
  apart = λ i j p e f. ground arith;
}

run-alone_example :
    (seen 1 (run two_goroutines new_invocation_tracker)
      ≡ alone (of_goroutine 1 two_goroutines) (seen 1 new_invocation_tracker))
    × IsSeparate (run two_goroutines new_invocation_tracker)
run-alone_example =
    run-alone two_goroutines new_invocation_tracker 1 new_invocation_tracker-IsSeparate

abbrev filled : ℕ → Bytes
filled zero = []
filled (suc n) = 0 ∷ filled n

write-BreaksContract_iff_example :
    BreaksContract (write [] (filled 40000)) (filled 40000)
    ↔ ((0 < max_captured_output_bytes) × (max_captured_output_bytes < 0 + length (filled 40000)))
write-BreaksContract_iff_example = write-BreaksContract_iff [] (filled 40000)

-- A store that holds one organization with generation 3 and one workspace with generation 4; the
-- texts of their settings are not read.
abbrev org_set : OrgSettings
org_set = record {
  default_visibility = codes "org";
  max_visibility = codes "org";
  fetch_policy = record { mode = codes "allow-all"; allow = [] };
}

abbrev store : Store
store = record {
  org_row = some (record { settings = codes "x"; settings_gen = 3 });
  workspace_row = λ ws_id. some (record { settings = []; settings_gen = 4 });
  unmarshal_org = λ raw o. some org_set;
  unmarshal_workspace = λ raw w. some w;
}

abbrev all_allowed : FetchPolicy
all_allowed = record { mode = allow_all; allow = [] }

-- The levels at each generation: as long as the settings do not change, all are the same.
abbrev history : History
history o w v = all_allowed ∷ all_allowed ∷ all_allowed ∷ []

load_run :
    load store owner_type_workspace (codes "w")
    ≡ ok (record { gen = 3; fetch = all_allowed }, some (record { gen = 4; fetch = all_allowed }))
unfolding load
load_run = refl

load-IsCurrent :
    IsCurrent history (codes "v") all_allowed (load store owner_type_workspace (codes "w"))
unfolding load gen_of levels_of
load-IsCurrent = refl

empty-IsCoherent : IsCoherent history []
unfolding get
empty-IsCoherent o w v e h = none≢some h
  where
    none≢some : {a b : EffectivePolicy} → ◌≡◌ {A = Option EffectivePolicy} none (some a) → a ≡ b
    none≢some h = cc

resolve_fetch-uncached_example :
    ((resolve_fetch [] store owner_type_workspace (codes "w") (codes "v") all_allowed).1
      ≡ uncached all_allowed (load store owner_type_workspace (codes "w")))
    × IsCoherent history
        (resolve_fetch [] store owner_type_workspace (codes "w") (codes "v") all_allowed).0
resolve_fetch-uncached_example =
    resolve_fetch-uncached history [] store owner_type_workspace (codes "w") (codes "v") all_allowed
      empty-IsCoherent load-IsCurrent

resolve_visibility_run :
    resolve_visibility store owner_type_workspace (codes "w") (codes "public") ≡ ok org
unfolding resolve_visibility
resolve_visibility_run = refl

resolve_visibility-IsWithin_example : IsWithin store (codes "public") org
resolve_visibility-IsWithin_example =
    resolve_visibility-IsWithin store owner_type_workspace (codes "w") (codes "public") org
      resolve_visibility_run

abbrev raw_fetch : RawFetch
raw_fetch = record { mode = codes "allowlist"; allow = codes "*.a.b:8443" ∷ [] }

abbrev permission : FetchPermission
permission = record {
  mode = allowlist;
  allow =
      record { raw = codes "*.a.b:8443"; host = codes "a.b"; wildcard = true; port = 8443 } ∷ [];
}

build_fetch_permission_run : build_fetch_permission raw_fetch ≡ ok permission
unfolding build_fetch_permission
build_fetch_permission_run = refl

build_fetch_policy-normalized_fetch_example :
    build_fetch_policy (normalized_fetch permission)
    ≡ ok (record { manifest_level = fetch_policy permission; allow = permission.allow })
build_fetch_policy-normalized_fetch_example =
    build_fetch_policy-normalized_fetch raw_fetch permission build_fetch_permission_run
