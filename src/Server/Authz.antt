-- ===== src/Server/Authz.antt =====
-- server/internal/authz/authz.go: the permission matrix, with the roles and owner types of
-- server/internal/store/types.go, which are strings.
pub mod Matrix
use funcbox.Prelude.{
  Bool, true, false, ◌&&◌, ◌||◌, Bytes, codes, str_eq, Option, none, some, if◌then◌else◌,
}

abbrev pub role_admin : Bytes
role_admin = codes "admin"

abbrev pub role_workspace_manager : Bytes
role_workspace_manager = codes "workspace_manager"

abbrev pub role_member : Bytes
role_member = codes "member"

abbrev pub owner_type_workspace : Bytes
owner_type_workspace = codes "workspace"

pub record Actor : Type 0 where
  pub user_id : Bytes
  pub role : Bytes

unfoldable pub is_role_admin : Bytes → Bool
unfolding str_eq
is_role_admin role = str_eq role role_admin

unfoldable pub is_org_admin : Actor → Bool
unfolding is_role_admin
is_org_admin a = is_role_admin a.role

unfoldable pub is_workspace_manager : Actor → Bool
unfolding str_eq
is_workspace_manager a = str_eq a.role role_workspace_manager

-- CanUpdateOrgSettings, CanReadAuditLog and CanManageOrgUsers
unfoldable pub can_update_org_settings : Actor → Bool
unfolding is_org_admin
can_update_org_settings a = is_org_admin a

unfoldable pub can_read_audit_log : Actor → Bool
unfolding is_org_admin
can_read_audit_log a = is_org_admin a

unfoldable pub can_manage_org_users : Actor → Bool
unfolding is_org_admin
can_manage_org_users a = is_org_admin a

unfoldable pub can_create_workspace : Actor → Bool
unfolding is_org_admin is_workspace_manager
can_create_workspace a = is_org_admin a || is_workspace_manager a

-- `ws_role` is none where the actor is not a member.
unfoldable pub is_admin_there : Option Bytes → Bool
unfolding is_role_admin
is_admin_there none = false
is_admin_there (some role) = is_role_admin role

unfoldable pub can_manage_workspace : Actor → Option Bytes → Bool
unfolding is_org_admin is_admin_there
can_manage_workspace a ws_role = is_org_admin a || is_admin_there ws_role

unfoldable pub can_deploy_there : Option Bytes → Bool → Bool
unfolding is_role_admin
can_deploy_there none member_can_deploy = false
can_deploy_there (some role) member_can_deploy =
    if is_role_admin role then true else member_can_deploy

unfoldable pub can_deploy_to_workspace : Actor → Option Bytes → Bool → Bool
unfolding is_org_admin can_deploy_there
can_deploy_to_workspace a ws_role member_can_deploy =
    if is_org_admin a then true else can_deploy_there ws_role member_can_deploy

unfoldable pub can_deploy_personal : Actor → Bytes → Bool → Bool
unfolding is_org_admin str_eq
can_deploy_personal a owner_user_id allow_user_functions =
    if is_org_admin a then true else allow_user_functions && str_eq a.user_id owner_user_id

unfoldable pub is_workspace : Bytes → Bool
unfolding str_eq
is_workspace owner_type = str_eq owner_type owner_type_workspace

unfoldable pub can_manage_function : Actor → Bytes → Bytes → Option Bytes → Bool → Bool
unfolding is_org_admin can_deploy_to_workspace str_eq is_workspace
can_manage_function a owner_type owner_user_id ws_role member_can_deploy =
    if is_workspace owner_type
    then can_deploy_to_workspace a ws_role member_can_deploy
    else is_org_admin a || str_eq a.user_id owner_user_id

-- The constants of Action, and any other string.
pub data Action : Type 0 where
  org_settings_update org_users_manage audit_read workspace_create : Action
  workspace_manage workspace_deploy personal_deploy function_manage : Action
  unknown : Bytes → Action

pub record Target : Type 0 where
  pub allow_user_functions : Bool
  pub workspace_role : Option Bytes
  pub member_can_deploy : Bool
  pub owner_type : Bytes
  pub owner_user_id : Bytes

unfoldable pub can : Actor → Action → Target → Bool
unfolding can_update_org_settings can_manage_org_users can_read_audit_log can_create_workspace
    can_manage_workspace can_deploy_to_workspace can_deploy_personal can_manage_function
can a org_settings_update t = can_update_org_settings a
can a org_users_manage t = can_manage_org_users a
can a audit_read t = can_read_audit_log a
can a workspace_create t = can_create_workspace a
can a workspace_manage t = can_manage_workspace a t.workspace_role
can a workspace_deploy t = can_deploy_to_workspace a t.workspace_role t.member_can_deploy
can a personal_deploy t = can_deploy_personal a t.owner_user_id t.allow_user_functions
can a function_manage t =
    can_manage_function a t.owner_type t.owner_user_id t.workspace_role t.member_can_deploy
can a (unknown s) t = false
