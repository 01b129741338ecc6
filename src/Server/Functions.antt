-- ===== src/Server/Functions.antt =====
-- server/internal/store/sqlcommon/functions.go, and ActivateVersion of aggregate.go: functions, the
-- names they claim, versions and environment variables. Unique are functions.id, the owner and name of
-- a function, function_names.name and .function_id, and function_versions.id. A statement that breaks
-- a constraint changes nothing and is a conflict, and a transaction with it changes nothing. Stored
-- times are seconds; `now` is in nanoseconds.
pub mod Tables
pub mod Changes
pub mod Effects
pub mod Rows
pub mod Quota
pub mod Claims
use funcbox.Server.Functions.Tables.{
  EnvVar, Function, FunctionStore, LogRow, NameRow, StoreError, Version, claims, clashes, conflict,
  count, delete_where, first_where, has_function_id, in_scope, limit_reached, not_found,
  same_creator, same_owner, update_where,
}
use funcbox.Prelude.{
  ℕ, suc, Bool, true, false, not, ◌&&◌, ◌||◌, Bytes, codes, str_eq, List, [], ◌∷◌, any, Option,
  none, some, Result, ok, err, ltb, if◌then◌else◌,
}
use funcbox.Auth.AccessToken.{unix}
use funcbox.Server.Authz.{is_workspace}

-- The two rows of a new function.
abbrev pub function_row : Function → ℕ → Function
function_row f now = record f { created_at = unix now; updated_at = unix now }

abbrev pub name_row : Function → ℕ → NameRow
name_row f now = record {
  name = f.name;
  function_id = f.id;
  active = true;
  claimed_at = unix now;
  released_at = none;
}

-- create, which Create calls with limit 0 and CreateWithinLimit with its own. `known` says that the
-- rows that created_by refers to exist. A limit of 0 or less is no limit.
unfoldable pub create : Function → ℕ → Bool → ℕ → FunctionStore → Result StoreError FunctionStore
unfolding count in_scope clashes claims
create f limit known now s =
    if ltb 0 limit && not (ltb (count (in_scope f) s.functions) limit)
    then err limit_reached
    else if not known || any (clashes f) s.functions
    then err conflict
    else if any (claims f.name f.id) s.names
    then err conflict
    else ok (record s {
      functions = function_row f now ∷ s.functions;
      names = name_row f now ∷ s.names;
    })

unfoldable pub by_id : Bytes → FunctionStore → Option Function
unfolding first_where has_function_id
by_id i s = first_where (has_function_id i) s.functions

unfoldable pub holds_name : Bytes → NameRow → Bool
unfolding str_eq
holds_name name n = str_eq n.name name && n.active

unfoldable pub by_name : Bytes → FunctionStore → Option Function
unfolding first_where holds_name by_id
by_name name s = elim (first_where (holds_name name) s.names) [
  | none ↦ none
  | some n ↦ by_id n.function_id s
]

unfoldable pub by_owner_and_name : Bytes → Bytes → Bytes → FunctionStore → Option Function
unfolding first_where same_owner str_eq
by_owner_and_name owner_type owner_id name s =
    first_where (λ g. same_owner owner_type owner_id g && str_eq g.name name) s.functions

unfoldable pub count_by_owner : Bytes → Bytes → FunctionStore → ℕ
unfolding count same_owner
count_by_owner owner_type owner_id s = count (same_owner owner_type owner_id) s.functions

unfoldable pub count_by_workspace_and_creator : Bytes → Bytes → FunctionStore → ℕ
unfolding count same_owner same_creator
count_by_workspace_and_creator ws_id user_id s =
    count (λ g. same_owner (codes "workspace") ws_id g && same_creator g.created_by (some user_id))
      s.functions

-- What Update writes: the name is the one that the row has.
abbrev pub updated : Function → ℕ → Function → Function
updated f now g = record g {
  description = f.description;
  active_version_id = f.active_version_id;
  updated_at = unix now;
}

unfoldable pub update : Function → ℕ → FunctionStore → Result StoreError FunctionStore
unfolding by_id update_where has_function_id str_eq
update f now s = elim (by_id f.id s) [
  | none ↦ err not_found
  | some existing ↦
      if not (str_eq existing.name f.name)
      then err conflict
      else ok
          (record s { functions = update_where (has_function_id f.id) (updated f now) s.functions })
]

unfoldable pub claimed_by : Bytes → NameRow → Bool
unfolding str_eq
claimed_by i n = str_eq n.function_id i && n.active

abbrev pub tombstoned : ℕ → NameRow → NameRow
tombstoned now n = record n { active = false; released_at = some (unix now) }

-- The statements of Delete, each on its own: `steps` of them run before one fails.
unfoldable pub delete_steps : ℕ → Bytes → ℕ → FunctionStore → FunctionStore
unfolding update_where delete_where claimed_by has_function_id str_eq
delete_steps steps i now s = record s {
  names = if ltb 0 steps then update_where (claimed_by i) (tombstoned now) s.names else s.names;
  env_vars =
      if ltb 1 steps then delete_where (λ e. str_eq e.function_id i) s.env_vars else s.env_vars;
  logs = if ltb 2 steps then delete_where (λ l. str_eq l.function_id i) s.logs else s.logs;
  versions =
      if ltb 3 steps then delete_where (λ v. str_eq v.function_id i) s.versions else s.versions;
  functions = if ltb 4 steps then delete_where (has_function_id i) s.functions else s.functions;
}

unfoldable pub delete : Bytes → ℕ → FunctionStore → FunctionStore
unfolding delete_steps
delete i now s = delete_steps 5 i now s

unfoldable pub create_version : Version → Bool → ℕ → FunctionStore → Result StoreError FunctionStore
unfolding str_eq has_function_id
create_version v known now s =
    if not known || not (any (has_function_id v.function_id) s.functions)
    then err conflict
    else if any (λ w. str_eq w.id v.id) s.versions
    then err conflict
    else ok (record s {
      versions = record v { created_at = unix now; updated_at = unix now } ∷ s.versions;
    })

unfoldable pub version : Bytes → FunctionStore → Option Version
unfolding first_where str_eq
version i s = first_where (λ v. str_eq v.id i) s.versions

abbrev pub activated : Bytes → ℕ → Function → Function
activated version_id now g = record g { active_version_id = some version_id; updated_at = unix now }

unfoldable pub activate_version :
    Bytes → Bytes → ℕ → FunctionStore → Result StoreError FunctionStore
unfolding version update_where has_function_id str_eq
activate_version func_id version_id now s = elim (version version_id s) [
  | none ↦ err not_found
  | some v ↦
      if not (str_eq v.function_id func_id)
      then err not_found
      else if not (any (has_function_id func_id) s.functions)
      then err not_found
      else ok (record s {
        functions = update_where (has_function_id func_id) (activated version_id now) s.functions;
      })
]

unfoldable pub is_env_var : Bytes → Bytes → EnvVar → Bool
unfolding str_eq
is_env_var func_id key e = str_eq e.function_id func_id && str_eq e.key key

-- INSERT ... ON CONFLICT DO UPDATE
unfoldable pub set_env : Bytes → Bytes → Bytes → ℕ → FunctionStore → Result StoreError FunctionStore
unfolding is_env_var update_where has_function_id
set_env func_id key value_enc now s =
    if any (is_env_var func_id key) s.env_vars
    then ok (record s {
      env_vars =
          update_where (is_env_var func_id key)
            (λ e. record e { value_enc = value_enc; updated_at = unix now }) s.env_vars;
    })
    else if not (any (has_function_id func_id) s.functions)
    then err conflict
    else ok (record s {
      env_vars =
          record {
            function_id = func_id;
            key = key;
            value_enc = value_enc;
            created_at = unix now;
            updated_at = unix now;
          }
          ∷ s.env_vars;
    })

unfoldable pub delete_env : Bytes → Bytes → FunctionStore → FunctionStore
unfolding delete_where is_env_var
delete_env func_id key s = record s { env_vars = delete_where (is_env_var func_id key) s.env_vars }
