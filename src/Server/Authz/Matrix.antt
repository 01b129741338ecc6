-- ===== src/Server/Authz/Matrix.antt =====
-- The matrix of authz.go as a relation: the ways an actor comes by a right.
use funcbox.Prelude.{
  ◌≡◌, ◌≢◌, ◌∙◌, sym, refl, ◌↔◌, ◌⊎◌, inl, inr, Bool, true, false, ◌||◌, Bytes, str_eq_iff, ap,
  Option, none, some, if◌then◌else◌, arith, Bool-cases,
}
use funcbox.Server.Authz.{
  Actor, Action, Target, org_settings_update, org_users_manage, audit_read, workspace_create,
  workspace_manage, workspace_deploy, personal_deploy, function_manage, unknown, role_admin,
  role_workspace_manager, owner_type_workspace, is_role_admin, is_org_admin, is_workspace_manager,
  is_admin_there, can_deploy_there, is_workspace, can, can_update_org_settings,
  can_manage_org_users, can_read_audit_log, can_create_workspace, can_manage_workspace,
  can_deploy_to_workspace, can_deploy_personal, can_manage_function,
}

-- Deploy rights in the workspace of the target.
pub data Deployer (t : Target) : Type 0 where
  as_admin : t.workspace_role ≡ some role_admin → Deployer t
  as_member :
      (role : Bytes) → t.workspace_role ≡ some role → t.member_can_deploy ≡ true → Deployer t

-- Who may do what: every right has a reason.
pub data Allowed (a : Actor) (t : Target) : Action → Type 0 where
  admin :
      {action : Action}
      → a.role ≡ role_admin
      → ((s : Bytes) → action ≢ unknown s)
      → Allowed a t action
  manager : a.role ≡ role_workspace_manager → Allowed a t workspace_create
  workspace_admin : t.workspace_role ≡ some role_admin → Allowed a t workspace_manage
  workspace_deployer : Deployer t → Allowed a t workspace_deploy
  personal :
      t.allow_user_functions ≡ true → a.user_id ≡ t.owner_user_id → Allowed a t personal_deploy
  function_deployer : t.owner_type ≡ owner_type_workspace → Deployer t → Allowed a t function_manage
  function_owner :
      t.owner_type ≢ owner_type_workspace
      → a.user_id ≡ t.owner_user_id
      → Allowed a t function_manage

is_org_admin_iff : (a : Actor) → (is_org_admin a ≡ true) ↔ (a.role ≡ role_admin)
unfolding is_org_admin is_role_admin
is_org_admin_iff a = str_eq_iff a.role role_admin

is_workspace_manager_iff :
    (a : Actor) → (is_workspace_manager a ≡ true) ↔ (a.role ≡ role_workspace_manager)
unfolding is_workspace_manager
is_workspace_manager_iff a = str_eq_iff a.role role_workspace_manager

is_workspace_iff : (o : Bytes) → (is_workspace o ≡ true) ↔ (o ≡ owner_type_workspace)
unfolding is_workspace
is_workspace_iff o = str_eq_iff o owner_type_workspace

is_role_admin_iff : (r : Bytes) → (is_role_admin r ≡ true) ↔ (r ≡ role_admin)
unfolding is_role_admin
is_role_admin_iff r = str_eq_iff r role_admin

||-true : (a b : Bool) → a || b ≡ true → (a ≡ true) ⊎ (b ≡ true)
||-true true b h = inl refl
||-true false b h = inr h

is_admin_there_iff : (o : Option Bytes) → (is_admin_there o ≡ true) ↔ (o ≡ some role_admin)
unfolding is_admin_there
is_admin_there_iff none = (λ h. cc, λ h. cc)
is_admin_there_iff (some r) = (λ h. cc ((is_role_admin_iff r).0 h), λ h. (is_role_admin_iff r).1 cc)

module _ (t : Target) where
  can_deploy_there→ :
      (o : Option Bytes)
      → t.workspace_role ≡ o
      → can_deploy_there o t.member_can_deploy ≡ true
      → Deployer t
  unfolding can_deploy_there
  can_deploy_there→ none e h = cc
  can_deploy_there→ (some r) e h = elim (Bool-cases (is_role_admin r)) [
    | inl f ↦ as_admin (e ∙ ap some ((is_role_admin_iff r).0 f))
    | inr f ↦ as_member r e (ground arith)
  ]

  can_deploy_there← : Deployer t → can_deploy_there t.workspace_role t.member_can_deploy ≡ true
  unfolding can_deploy_there
  can_deploy_there← (as_admin e) = rw e (rw ((is_role_admin_iff role_admin).1 refl) refl)
  can_deploy_there← (as_member r e f) = rw (e, f) (by_test (is_role_admin r))
    where
      by_test : (b : Bool) → (if b then true else true) ≡ true
      by_test true = refl
      by_test false = refl

true≢false : true ≢ false
true≢false e = cc

module _ (a : Actor) (t : Target) where
  can-admin :
      (action : Action)
      → is_org_admin a ≡ true
      → ((s : Bytes) → action ≢ unknown s)
      → can a action t ≡ true
  unfolding can can_update_org_settings can_manage_org_users can_read_audit_log can_create_workspace
      can_manage_workspace can_deploy_to_workspace can_deploy_personal can_manage_function
  can-admin org_settings_update e n = e
  can-admin org_users_manage e n = e
  can-admin audit_read e n = e
  can-admin workspace_create e n = rw e refl
  can-admin workspace_manage e n = rw e refl
  can-admin workspace_deploy e n = rw e refl
  can-admin personal_deploy e n = rw e refl
  can-admin function_manage e n = rw e (by_test (is_workspace t.owner_type))
    where
      by_test : (b : Bool) → (if b then true else true) ≡ true
      by_test true = refl
      by_test false = refl
  can-admin (unknown s) e n = absurd (n s refl)

  by_role :
      (action : Action)
      → is_org_admin a ≡ true
      → ((s : Bytes) → action ≢ unknown s)
      → Allowed a t action
  by_role action e n = admin ((is_org_admin_iff a).0 e) n

  can-not_admin :
      (action : Action) → is_org_admin a ≡ false → can a action t ≡ true → Allowed a t action
  unfolding can can_update_org_settings can_manage_org_users can_read_audit_log can_create_workspace
      can_manage_workspace can_deploy_to_workspace can_deploy_personal can_manage_function
  can-not_admin org_settings_update e h = cc
  can-not_admin org_users_manage e h = cc
  can-not_admin audit_read e h = cc
  can-not_admin workspace_create e h = manager ((is_workspace_manager_iff a).0 (ground arith))
  can-not_admin workspace_manage e h =
      workspace_admin ((is_admin_there_iff t.workspace_role).0 (ground arith))
  can-not_admin workspace_deploy e h =
      workspace_deployer (can_deploy_there→ t t.workspace_role refl (ground arith))
  can-not_admin personal_deploy e h =
      personal (ground arith) ((str_eq_iff a.user_id t.owner_user_id).0 (ground arith))
  can-not_admin function_manage e h = elim (Bool-cases (is_workspace t.owner_type)) [
    | inl f ↦
        function_deployer ((is_workspace_iff t.owner_type).0 f)
          (can_deploy_there→ t t.workspace_role refl (ground arith))
    | inr f ↦
        function_owner (λ q. cc ((is_workspace_iff t.owner_type).1 q))
          ((str_eq_iff a.user_id t.owner_user_id).0 (ground arith))
  ]
  can-not_admin (unknown s) e h = cc

  known : (x : Action) → can a x t ≡ true → (s : Bytes) → x ≢ unknown s
  unfolding can
  known x h s e = true≢false (sym h ∙ ap (λ y. can a y t) e)

  to : (x : Action) → can a x t ≡ true → Allowed a t x
  to x h = elim (Bool-cases (is_org_admin a)) [
    | inl e ↦ by_role x e (known x h)
    | inr e ↦ can-not_admin x e h
  ]

  from : (x : Action) → Allowed a t x → can a x t ≡ true
  unfolding can can_create_workspace can_manage_workspace can_deploy_to_workspace
      can_deploy_personal can_manage_function
  from x (admin e n) = can-admin x ((is_org_admin_iff a).1 e) n
  from x (manager e) = ground (arith, (is_workspace_manager_iff a).1 e)
  from x (workspace_admin e) = ground (arith, (is_admin_there_iff t.workspace_role).1 e)
  from x (workspace_deployer d) = ground (arith, can_deploy_there← t d)
  from x (personal f e) = ground (arith, (str_eq_iff a.user_id t.owner_user_id).1 e)
  from x (function_deployer o d) =
      ground (arith, can_deploy_there← t d, (is_workspace_iff t.owner_type).1 o)
  from x (function_owner o e) =
      ground
        (arith, (str_eq_iff a.user_id t.owner_user_id).1 e, (is_workspace_iff t.owner_type).0, o)

  -- Can allows exactly the actions for which the matrix has a reason: the admin role for every known
  -- action, the workspace_manager role for the creation of workspaces, and for the others the role in
  -- the workspace, the deploy flag of its members or the ownership of the function.
  pub can_iff : (action : Action) → (can a action t ≡ true) ↔ Allowed a t action
  can_iff action = (to action, from action)
