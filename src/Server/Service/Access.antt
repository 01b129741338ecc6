-- ===== src/Server/Service/Access.antt =====
-- server/internal/service/deploy.go and functions.go: owners, membership and rights, with the errors
-- of errors.go by their status and code. A `Site` is what the store answers to the reads of one call,
-- the settings parsed.
use funcbox.Prelude.{
  Bool, true, false, not, Bytes, codes, str_eq, List, [], ◌∷◌, Option, none, some, ℕ, Result, ok,
  err, if◌then◌else◌,
}
use funcbox.Go.Strconv.{ℤ}
use funcbox.Manifest.{ManifestError}
use funcbox.Manifest.Validate.{validate_user_id}
use funcbox.Server.Authz.{
  Actor, is_org_admin, is_workspace, can_deploy_personal, can_deploy_to_workspace,
  can_manage_function, owner_type_workspace,
}

abbrev pub owner_type_user : Bytes
owner_type_user = codes "user"

-- Error, its HTTP status and its code
pub data ServiceError : Type 0 where
  service_error : ℕ → Bytes → ServiceError

abbrev pub internal : ServiceError
internal = service_error 500 (codes "internal")

abbrev pub forbidden : ServiceError
forbidden = service_error 403 (codes "forbidden")

abbrev pub not_found_error : ServiceError
not_found_error = service_error 404 (codes "not_found")

abbrev pub function_name_taken : ServiceError
function_name_taken = service_error 409 (codes "function_name_taken")

abbrev pub function_limit_exceeded : ServiceError
function_limit_exceeded = service_error 403 (codes "function_limit_exceeded")

-- A read of one row: it, store.ErrNotFound, or another error.
pub data Read {ℓ} (A : Type ℓ) : Type ℓ where
  found : A → Read A
  missing failed : Read A

-- settings.Workspace and settings.Org, the fields that deploys read
pub record WorkspaceRules : Type 0 where
  pub member_can_deploy : Bool
  pub max_functions_per_member : ℤ

pub record OrgRules : Type 0 where
  pub open_mode : Bool
  pub default_visibility : Bytes
  pub allow_nodejs_compat : Bool
  pub allow_user_functions : Bool
  pub max_functions_per_user : ℤ

-- `rules` is none where the settings do not parse.
pub record Workspace : Type 0 where
  pub id : Bytes
  pub rules : Option WorkspaceRules

pub record Member : Type 0 where
  pub user_id : Bytes
  pub role : Bytes

-- The reads of PublicUserIDs().ByUserID, Workspaces().ByID and Workspaces().ListMembers.
pub record Site : Type 0 where
  pub public_user_id : Bytes → Read Bytes
  pub workspace : Bytes → Read Workspace
  pub members : Bytes → Option (List Member)

unfoldable pub bad_request : Bytes → ServiceError
bad_request code = service_error 400 code

-- mapManifestErr: a duplicate key wraps ErrInvalidEnv, and the errors without a sentinel have the
-- default code.
unfoldable pub map_manifest_err : ManifestError → ServiceError
unfolding bad_request
map_manifest_err ManifestError.reserved_name = bad_request (codes "reserved_name")
map_manifest_err ManifestError.invalid_name = bad_request (codes "invalid_name")
map_manifest_err ManifestError.invalid_owner = bad_request (codes "invalid_name")
map_manifest_err ManifestError.description_too_long = bad_request (codes "description_too_long")
map_manifest_err ManifestError.invalid_env = bad_request (codes "invalid_env")
map_manifest_err ManifestError.duplicate_env = bad_request (codes "invalid_env")
map_manifest_err ManifestError.parse_error = bad_request (codes "manifest_parse_error")
map_manifest_err ManifestError.invalid_timeout = bad_request (codes "invalid_timeout")
map_manifest_err ManifestError.invalid_memory = bad_request (codes "invalid_memory")
map_manifest_err ManifestError.invalid_fetch_policy = bad_request (codes "invalid_fetch_policy")
map_manifest_err ManifestError.invalid_visibility = bad_request (codes "invalid_visibility")
map_manifest_err ManifestError.main_not_found = bad_request (codes "invalid_manifest")
map_manifest_err ManifestError.no_entry_point = bad_request (codes "invalid_manifest")
map_manifest_err ManifestError.nil_manifest = bad_request (codes "invalid_manifest")

-- resolveOwner: the owner's type and id
unfoldable pub resolve_owner : Site → Bytes → Result ServiceError (Bytes × Bytes)
unfolding map_manifest_err validate_user_id
resolve_owner site owner = elim (site.public_user_id owner) [
  | found user_id ↦ ok (owner_type_user, user_id)
  | failed ↦ err internal
  | missing ↦ elim (site.workspace owner) [
    | found ws ↦ ok (owner_type_workspace, ws.id)
    | failed ↦ err internal
    | missing ↦ elim (validate_user_id owner) [
      | err e ↦ err (map_manifest_err e)
      | ok t ↦ err not_found_error
    ]
  ]
]

-- workspaceRole: the first membership of the user
unfoldable pub role_among : Bytes → List Member → Option Bytes
unfolding str_eq
role_among user_id [] = none
role_among user_id (m ∷ ms) =
    if str_eq m.user_id user_id then some m.role else role_among user_id ms

unfoldable pub workspace_role : Site → Bytes → Bytes → Result ServiceError (Option Bytes)
unfolding role_among
workspace_role site ws_id user_id = elim (site.members ws_id) [
  | none ↦ err internal
  | some ms ↦ ok (role_among user_id ms)
]

-- The workspace of an owner, with its rules and the actor's role, as authorizeDeploy and CanManage
-- load them.
unfoldable pub load_membership :
    Site → Actor → Bytes → Result ServiceError (Option Bytes × WorkspaceRules)
unfolding workspace_role
load_membership site a ws_id = elim (site.workspace ws_id) [
  | missing ↦ err not_found_error
  | failed ↦ err internal
  | found ws ↦ elim (ws.rules) [
    | none ↦ err internal
    | some rules ↦ elim (workspace_role site ws_id a.user_id) [
      | err e ↦ err e
      | ok role ↦ ok (role, rules)
    ]
  ]
]

unfoldable pub authorize_deploy :
    Site → OrgRules → Actor → Bytes → Bytes → Result ServiceError (Unit {0})
unfolding str_eq can_deploy_personal can_deploy_to_workspace load_membership
authorize_deploy site org a owner_type owner_id =
    if str_eq owner_type owner_type_user
    then (if not (can_deploy_personal a owner_id org.allow_user_functions)
        then err forbidden
        else ok tt)
    else elim (load_membership site a owner_id) [
      | err e ↦ err e
      | ok m ↦
          if not (can_deploy_to_workspace a (m.0) m.1.member_can_deploy)
          then err forbidden
          else ok tt
    ]

-- CanManage
unfoldable pub can_manage : Site → Actor → Bytes → Bytes → Result ServiceError (Unit {0})
unfolding is_workspace load_membership can_manage_function
can_manage site a owner_type owner_id =
    if is_workspace owner_type
    then elim (load_membership site a owner_id) [
      | err e ↦ err e
      | ok m ↦
          if not (can_manage_function a owner_type [] (m.0) m.1.member_can_deploy)
          then err forbidden
          else ok tt
    ]
    else if not (can_manage_function a owner_type owner_id none false)
    then err forbidden
    else ok tt

unfoldable pub is_member : Option Bytes → Bool
is_member none = false
is_member (some role) = true

-- CanView
unfoldable pub can_view : Site → Actor → Bytes → Bytes → Result ServiceError Bool
unfolding is_org_admin str_eq workspace_role is_member
can_view site a owner_type owner_id =
    if is_org_admin a
    then ok true
    else if str_eq owner_type owner_type_user
    then ok (str_eq a.user_id owner_id)
    else elim (workspace_role site owner_id a.user_id) [
      | err e ↦ err e
      | ok role ↦ ok (is_member role)
    ]
