-- ===== src/Server/Service/Publish.antt =====
-- server/internal/service/deploy.go: Deploy from the resolution of the owner on, for an upload that
-- was checked, and the limit on functions. A step takes the state to the state and its result.
pub mod Rights
pub mod Activation
pub mod Spared
use funcbox.Prelude.{
  ℕ, Bool, true, false, not, ◌&&◌, ◌||◌, Bytes, codes, str_eq, List, [], ◌∷◌, ◌++◌, Option, none,
  some, Result, ok, err, ltb, leb, if◌then◌else◌,
}
use funcbox.Go.Strconv.{ℤ, pos, negsuc}
use funcbox.Server.Authz.{Actor, is_workspace}
use funcbox.Server.Functions.Tables.{
  Function, FunctionStore, Version, StoreError, not_found, conflict, limit_reached,
}
use funcbox.Server.Functions.{
  create, by_name, update, create_version, activate_version, count_by_owner,
  count_by_workspace_and_creator,
}
use funcbox.Server.Service.Access.{
  ServiceError, service_error, internal, function_name_taken, function_limit_exceeded, Read, found,
  missing, failed, OrgRules, WorkspaceRules, Site, resolve_owner, authorize_deploy, owner_type_user,
}

-- What the checks before have made of the upload: Name and Description of the manifest, its JSON, its
-- main file, and the canonical bundle with its hash and its list of files.
pub record Upload : Type 0 where
  pub name : Bytes
  pub description : Bytes
  pub manifest : Bytes
  pub main_path : Bytes
  pub bundle_hash : Bytes
  pub bundle_size : ℕ
  pub unpacked_size : ℕ
  pub files : Bytes
  pub note : Bytes

pub data Call : Type 0 where
  put_blob look_up count_functions create_function update_function add_version activate : Call

-- What one deploy meets: the ids that the store makes up, the calls that fail, whether the actor's
-- row exists, and the time.
pub record Run : Type 0 where
  pub site : Site
  pub org : OrgRules
  pub actor : Actor
  pub function_id : Bytes
  pub version_id : Bytes
  pub fails : Call → Bool
  pub known : Bool
  pub now : ℕ

-- `blobs` are the keys of the blob store, `invalidated` the versions whose pool was dropped.
pub record DeployState : Type 0 where
  pub store : FunctionStore
  pub blobs : List Bytes
  pub invalidated : List Bytes

unfoldable pub bundle_blob_key : Bytes → Bytes
bundle_blob_key sha256_hex = codes "bundles/sha256/" ++ sha256_hex ++ codes ".tar.gz"

-- A limit that is not positive is none.
unfoldable pub limit_of : ℤ → ℕ
limit_of (negsuc n) = 0
limit_of (pos n) = n

-- checkFunctionLimit: the count and the limit
unfoldable pub check_function_limit :
    Run → Bytes → Bytes → FunctionStore → Result ServiceError (ℕ × ℕ)
unfolding str_eq is_workspace limit_of count_by_owner count_by_workspace_and_creator
check_function_limit run owner_type owner_id s =
    if str_eq owner_type owner_type_user
    then (if leb (limit_of run.org.max_functions_per_user) 0
        then ok (0, 0)
        else if run.fails count_functions
        then err internal
        else ok
            (count_by_owner owner_type_user owner_id s, limit_of run.org.max_functions_per_user))
    else if is_workspace owner_type
    then elim (run.site.workspace owner_id) [
      | missing ↦ err internal
      | failed ↦ err internal
      | found ws ↦ elim (ws.rules) [
        | none ↦ err internal
        | some rules ↦
            if leb (limit_of rules.max_functions_per_member) 0
            then ok (0, 0)
            else if run.fails count_functions
            then err internal
            else ok (
              count_by_workspace_and_creator owner_id run.actor.user_id s,
              limit_of rules.max_functions_per_member,
            )
      ]
    ]
    else ok (0, 0)

unfoldable pub new_function : Run → Upload → Bytes → Bytes → Function
new_function run up owner_type owner_id = record {
  id = run.function_id;
  owner_type = owner_type;
  owner_id = owner_id;
  name = up.name;
  description = up.description;
  active_version_id = none;
  created_by = some run.actor.user_id;
  created_at = 0;
  updated_at = 0;
}

-- The error of CreateWithinLimit. The limit is read again to word the message of a lost race.
unfoldable pub creation_error : Run → Bytes → Bytes → FunctionStore → StoreError → ServiceError
unfolding check_function_limit
creation_error run owner_type owner_id s limit_reached =
    elim (check_function_limit run owner_type owner_id s) [
      | err e ↦ e
      | ok c ↦ function_limit_exceeded
    ]
creation_error run owner_type owner_id s conflict = function_name_taken
creation_error run owner_type owner_id s not_found = internal

-- The branch of Deploy for a name that no function has
unfoldable pub create_within_quota :
    Run → Upload → Bytes → Bytes → FunctionStore → FunctionStore × Result ServiceError Function
unfolding check_function_limit new_function create creation_error
create_within_quota run up owner_type owner_id s =
    elim (check_function_limit run owner_type owner_id s) [
      | err e ↦ (s, err e)
      | ok (current, limit) ↦
          if ltb 0 limit && leb limit current
          then (s, err function_limit_exceeded)
          else if run.fails create_function
          then (s, err internal)
          else elim (create (new_function run up owner_type owner_id) limit run.known run.now s) [
            | err e ↦ (s, err (creation_error run owner_type owner_id s e))
            | ok s' ↦ (s', ok (new_function run up owner_type owner_id))
          ]
    ]

-- The branches for a function that has the name
unfoldable pub reuse :
    Run
    → Upload
    → Bytes
    → Bytes
    → Function
    → FunctionStore
    → FunctionStore × Result ServiceError Function
unfolding str_eq update
reuse run up owner_type owner_id f s =
    if not (str_eq f.owner_type owner_type) || not (str_eq f.owner_id owner_id)
    then (s, err function_name_taken)
    else if str_eq f.description up.description
    then (s, ok f)
    else if run.fails update_function
    then (s, err internal)
    else (let f' : Function = record f { description = up.description } in
        elim (update f' run.now s) [ err e ↦ (s, err internal) | ok s' ↦ (s', ok f') ])

unfoldable pub claim_function :
    Run → Upload → Bytes → Bytes → FunctionStore → FunctionStore × Result ServiceError Function
unfolding by_name create_within_quota reuse
claim_function run up owner_type owner_id s =
    if run.fails look_up then (s, err internal) else elim (by_name up.name s) [
      | none ↦ create_within_quota run up owner_type owner_id s
      | some f ↦ reuse run up owner_type owner_id f s
    ]

unfoldable pub new_version : Run → Upload → Function → Version
new_version run up f = record {
  id = run.version_id;
  function_id = f.id;
  manifest = up.manifest;
  main_path = up.main_path;
  bundle_hash = up.bundle_hash;
  bundle_size = up.bundle_size;
  unpacked_size = up.unpacked_size;
  files = up.files;
  created_by = run.actor.user_id;
  note = up.note;
  created_at = 0;
  updated_at = 0;
}

-- Runtime.Invalidate on the version that was active when the function was read
unfoldable pub invalidate_old : Function → List Bytes → List Bytes
invalidate_old f invalidated = elim (f.active_version_id) [
  | none ↦ invalidated
  | some old ↦ old ∷ invalidated
]

-- CreateVersion, ActivateVersion, and the invalidation
unfoldable pub release :
    Run → Upload → Function → DeployState → DeployState × Result ServiceError (Function × Version)
unfolding new_version create_version activate_version invalidate_old
release run up f s =
    let v : Version = new_version run up f in
    if run.fails add_version
    then (s, err internal)
    else elim (create_version v run.known run.now s.store) [
      | err e ↦ (s, err internal)
      | ok with_version ↦
          let s' : DeployState = record s { store = with_version } in
          if run.fails activate
          then (s', err internal)
          else elim (activate_version f.id v.id run.now with_version) [
            | err e ↦ (s', err internal)
            | ok active ↦ (
              record s { store = active; invalidated = invalidate_old f s.invalidated },
              ok (record f { active_version_id = some v.id }, v),
            )
          ]
    ]

-- Deploy's writes for an owner that the actor may deploy to
unfoldable pub write_deploy :
    Run
    → Upload
    → Bytes
    → Bytes
    → DeployState
    → DeployState × Result ServiceError (Function × Version)
unfolding bundle_blob_key claim_function release
write_deploy run up owner_type owner_id s =
    if run.fails put_blob
    then (s, err internal)
    else (let stored : DeployState = record s {
      blobs = bundle_blob_key up.bundle_hash ∷ s.blobs;
    } in
        let claimed = claim_function run up owner_type owner_id s.store in
        let s' : DeployState = record stored { store = claimed.0 } in
        elim (claimed.1) [ err e ↦ (s', err e) | ok f ↦ release run up f s' ])

unfoldable pub publish :
    Run → Upload → Bytes → DeployState → DeployState × Result ServiceError (Function × Version)
unfolding resolve_owner authorize_deploy is_workspace write_deploy
publish run up owner s = elim (resolve_owner run.site owner) [
  | err e ↦ (s, err e)
  | ok (owner_type, owner_id) ↦
      if run.org.open_mode && is_workspace owner_type
      then (s, err (service_error 400 (codes "workspace_owner_disabled")))
      else elim (authorize_deploy run.site run.org run.actor owner_type owner_id) [
        | err e ↦ (s, err e)
        | ok t ↦ write_deploy run up owner_type owner_id s
      ]
]
