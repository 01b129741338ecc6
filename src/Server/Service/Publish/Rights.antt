-- ===== src/Server/Service/Publish/Rights.antt =====
-- Who a deploy that writes is authorized by.
use funcbox.Prelude.{
  true, false, ◌&&◌, Bytes, codes, str_eq, str_eq_iff, Option, some, ok, err, ◌≡◌, ◌⊎◌, refl, arith,
  Bool-cases, Option-cases, Result-cases, inl, inr,
}
use funcbox.Server.Authz.{Actor, is_workspace, can_deploy_personal, can_deploy_to_workspace}
use funcbox.Server.Service.Access.{
  Site, OrgRules, Workspace, WorkspaceRules, Read, found, missing, failed, resolve_owner,
  authorize_deploy, load_membership, workspace_role, owner_type_user, ServiceError, service_error,
}
use funcbox.Server.Service.Publish.{Run, Upload, DeployState, publish, write_deploy}

-- The rows of the permission matrix for a deploy, on what the store says of the owner.
pub data MayDeploy (site : Site) (org : OrgRules) (a : Actor) (owner_type owner_id : Bytes)
    : Type 0 where
  personal :
      owner_type ≡ owner_type_user
      → can_deploy_personal a owner_id org.allow_user_functions ≡ true
      → MayDeploy site org a owner_type owner_id
  shared :
      (ws : Workspace) (rules : WorkspaceRules) (role : Option Bytes)
      → site.workspace owner_id ≡ found ws
      → ws.rules ≡ some rules
      → workspace_role site owner_id a.user_id ≡ ok role
      → can_deploy_to_workspace a role rules.member_can_deploy ≡ true
      → MayDeploy site org a owner_type owner_id

Read-cases {ℓ} :
    {A : Type ℓ} (r : Read A) → ((a : A) × (r ≡ found a)) ⊎ ((r ≡ missing) ⊎ (r ≡ failed))
Read-cases (found a) = inl (a, refl)
Read-cases missing = inr (inl refl)
Read-cases failed = inr (inr refl)

load_membership-ok :
    (site : Site) (a : Actor) (ws_id : Bytes) (role : Option Bytes) (rules : WorkspaceRules)
    → load_membership site a ws_id ≡ ok (role, rules)
    → (ws : Workspace) × (site.workspace ws_id ≡ found ws)
      × (ws.rules ≡ some rules)
      × (workspace_role site ws_id a.user_id ≡ ok role)
unfolding load_membership
load_membership-ok site a ws_id role rules h = elim (Read-cases (site.workspace ws_id)) [
  | inr (inl e) ↦ absurd (ground arith)
  | inr (inr e) ↦ absurd (ground arith)
  | inl (ws, e) ↦ elim (Option-cases (ws.rules)) [
    | inl n ↦ absurd (ground arith)
    | inr (r, n) ↦ elim (Result-cases (workspace_role site ws_id a.user_id)) [
      | inr (x, w) ↦ absurd (ground arith)
      | inl (o, w) ↦ (ws, e, ground arith, ground arith)
    ]
  ]
]

pub authorize_deploy-MayDeploy :
    (site : Site) (org : OrgRules) (a : Actor) (owner_type owner_id : Bytes)
    → authorize_deploy site org a owner_type owner_id ≡ ok tt
    → MayDeploy site org a owner_type owner_id
unfolding authorize_deploy
authorize_deploy-MayDeploy site org a owner_type owner_id h =
    elim (Bool-cases (str_eq owner_type owner_type_user)) [
      | inl u ↦ personal ((str_eq_iff owner_type owner_type_user).0 u) (ground arith)
      | inr w ↦ elim (Result-cases (load_membership site a owner_id)) [
        | inr (x, m) ↦ absurd (ground arith)
        | inl ((role, rules), m) ↦
            let (ws, at, parsed, member) = load_membership-ok site a owner_id role rules m in
            shared ws rules role at parsed member (ground arith)
      ]
    ]

pub publish-write_deploy :
    (run : Run) (up : Upload) (owner : Bytes) (s : DeployState)
    → ((x : ServiceError) × (publish run up owner s ≡ (s, err x)))
      ⊎ ((owner_type owner_id : Bytes) × (resolve_owner run.site owner ≡ ok (owner_type, owner_id))
          × (run.org.open_mode && is_workspace owner_type ≡ false)
          × (authorize_deploy run.site run.org run.actor owner_type owner_id ≡ ok tt)
          × (publish run up owner s ≡ write_deploy run up owner_type owner_id s))
unfolding publish
publish-write_deploy run up owner s = elim (Result-cases (resolve_owner run.site owner)) [
  | inr (x, e) ↦ inl (x, ground arith)
  | inl ((owner_type, owner_id), e) ↦
      elim (Bool-cases (run.org.open_mode && is_workspace owner_type)) [
        | inl o ↦ inl (service_error 400 (codes "workspace_owner_disabled"), ground arith)
        | inr o ↦
            elim (Result-cases (authorize_deploy run.site run.org run.actor owner_type owner_id)) [
              | inr (x, a) ↦ inl (x, ground arith)
              | inl (tt, a) ↦ inr (owner_type, owner_id, e, o, a, ground arith)
            ]
      ]
]
