-- ===== src/Server/Functions/Changes.antt =====
-- The sequences of operations on the functions that any number of requests can come to.
use funcbox.Prelude.{ℕ, Bool, Bytes, ok, ◌≡◌}
use funcbox.Server.Functions.Tables.{Function, FunctionStore, Version}
use funcbox.Server.Functions.{
  create, update, delete_steps, create_version, activate_version, set_env, delete_env,
}

-- From the left store to the right one; a creation with a limit is one that `admits` accepts.
pub data Changes (admits : Function → ℕ → Type 0) : FunctionStore → FunctionStore → Type 0 where
  unchanged : {s : FunctionStore} → Changes admits s s
  created :
      (f : Function) (limit : ℕ) (known : Bool) (now : ℕ) {s t u : FunctionStore}
      → admits f limit
      → create f limit known now s ≡ ok t
      → Changes admits t u
      → Changes admits s u
  updated_to :
      (f : Function) (now : ℕ) {s t u : FunctionStore}
      → update f now s ≡ ok t
      → Changes admits t u
      → Changes admits s u
  deleted :
      (steps : ℕ) (i : Bytes) (now : ℕ) {s u : FunctionStore}
      → Changes admits (delete_steps steps i now s) u
      → Changes admits s u
  version_created :
      (v : Version) (known : Bool) (now : ℕ) {s t u : FunctionStore}
      → create_version v known now s ≡ ok t
      → Changes admits t u
      → Changes admits s u
  version_activated :
      (func_id version_id : Bytes) (now : ℕ) {s t u : FunctionStore}
      → activate_version func_id version_id now s ≡ ok t
      → Changes admits t u
      → Changes admits s u
  env_set :
      (func_id key value_enc : Bytes) (now : ℕ) {s t u : FunctionStore}
      → set_env func_id key value_enc now s ≡ ok t
      → Changes admits t u
      → Changes admits s u
  env_deleted :
      (func_id key : Bytes) {s u : FunctionStore}
      → Changes admits (delete_env func_id key s) u
      → Changes admits s u
