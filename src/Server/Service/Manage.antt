-- ===== src/Server/Service/Manage.antt =====
-- server/internal/service/functions.go: what is done to a function that was looked up, with the
-- versions whose pool is dropped.

use funcbox.Prelude.{
  ℕ, Bool, Bytes, str_eq, List, [], ◌∷◌, leb, is_empty, Option, none, some, Result, ok, err,
  if◌then◌else◌,
}
use funcbox.Server.Authz.{Actor}
use funcbox.Server.Functions.Tables.{Function, FunctionStore, Version, not_found}
use funcbox.Server.Functions.{
  activate_version, by_owner_and_name, version, delete_steps, set_env, delete_env,
}
use funcbox.Server.Service.Access.{
  ServiceError, internal, not_found_error, found, missing, failed, Site, owner_type_user,
  can_manage,
}
use funcbox.Server.Authz.{owner_type_workspace}

-- Functions.ResolveOwner
unfoldable pub find_owner : Site → Bytes → Result ServiceError (Bytes × Bytes)
find_owner site owner = elim (site.public_user_id owner) [
  | found user_id ↦ ok (owner_type_user, user_id)
  | failed ↦ err internal
  | missing ↦ elim (site.workspace owner) [
    | found ws ↦ ok (owner_type_workspace, ws.id)
    | failed ↦ err internal
    | missing ↦ err not_found_error
  ]
]

-- Resolve; `down` says that the database does not answer the look-up of the function.
unfoldable pub resolve : Site → Bool → Bytes → Bytes → FunctionStore → Result ServiceError Function
unfolding find_owner by_owner_and_name
resolve site down owner name s = elim (find_owner site owner) [
  | err e ↦ err e
  | ok (owner_type, owner_id) ↦
      if down then err internal else elim (by_owner_and_name owner_type owner_id name s) [
        | none ↦ err not_found_error
        | some f ↦ ok f
      ]
]

-- ActiveVersion
unfoldable pub active_version : Bool → Function → FunctionStore → Result ServiceError Version
unfolding version
active_version down f s = elim (f.active_version_id) [
  | none ↦ err not_found_error
  | some v ↦
      if down
      then err internal
      else elim (version v s) [ none ↦ err not_found_error | some w ↦ ok w ]
]

-- The pool that Activate drops: the old version's, unless it stays.
unfoldable pub replaced : Bytes → Option Bytes → List Bytes
unfolding str_eq
replaced version_id none = []
replaced version_id (some old) = if str_eq old version_id then [] else old ∷ []

-- Activate
unfoldable pub activate :
    Bool
    → Function
    → Bytes
    → ℕ
    → FunctionStore
    → FunctionStore × Result ServiceError (Function × List Bytes)
unfolding activate_version replaced
activate down f version_id now s =
    if down then (s, err internal) else elim (activate_version f.id version_id now s) [
      | err not_found ↦ (s, err not_found_error)
      | err e ↦ (s, err internal)
      | ok s' ↦ (
        s',
        ok (
          record f { active_version_id = some version_id },
          replaced version_id f.active_version_id,
        ),
      )
    ]

-- Delete: the pool goes first, then `steps` of the five statements run; the pools that it drops
unfoldable pub remove :
    ℕ → Function → ℕ → FunctionStore → (FunctionStore × List Bytes) × Result ServiceError (Unit {0})
unfolding delete_steps
remove steps f now s =
    let dropped : List Bytes = elim (f.active_version_id) [ none ↦ [] | some v ↦ v ∷ [] ] in
    ((delete_steps steps f.id now s, dropped), if leb 5 steps then ok tt else err internal)

-- SetEnv, under the key of the server and the cipher of crypto.Encrypt
unfoldable pub store_env :
    Site
    → Actor
    → Bytes
    → (Bytes → Bytes → Option Bytes)
    → Bool
    → Function
    → Bytes
    → Bytes
    → ℕ
    → FunctionStore
    → FunctionStore × Result ServiceError (Unit {0})
unfolding can_manage set_env
store_env site a env_key encrypt down f key value now s =
    elim (can_manage site a f.owner_type f.owner_id) [
      | err e ↦ (s, err e)
      | ok t ↦ if is_empty env_key then (s, err internal) else elim (encrypt env_key value) [
        | none ↦ (s, err internal)
        | some ciphertext ↦
            if down then (s, err internal) else elim (set_env f.id key ciphertext now s) [
              | err e ↦ (s, err internal)
              | ok s' ↦ (s', ok tt)
            ]
      ]
    ]

-- Functions.DeleteEnv
unfoldable pub drop_env :
    Site
    → Actor
    → Bool
    → Function
    → Bytes
    → FunctionStore
    → FunctionStore × Result ServiceError (Unit {0})
unfolding can_manage delete_env
drop_env site a down f key s = elim (can_manage site a f.owner_type f.owner_id) [
  | err e ↦ (s, err e)
  | ok t ↦ if down then (s, err internal) else (delete_env f.id key s, ok tt)
]
