-- ===== src/Server/Functions/Tables.antt =====
-- The tables that functions.go reads and writes, and how a statement finds, updates and deletes rows.
use funcbox.Prelude.{
  ℕ, suc, Bool, false, ◌&&◌, ◌||◌, Bytes, str_eq, List, [], ◌∷◌, Option, none, some, if◌then◌else◌,
}
use funcbox.Server.Authz.{is_workspace}

pub record Function : Type 0 where
  pub id : Bytes
  pub owner_type : Bytes
  pub owner_id : Bytes
  pub name : Bytes
  pub description : Bytes
  pub active_version_id : Option Bytes
  pub created_by : Option Bytes
  pub created_at : ℕ
  pub updated_at : ℕ

-- A row of function_names; `active` is its state, the other being tombstoned.
pub record NameRow : Type 0 where
  pub name : Bytes
  pub function_id : Bytes
  pub active : Bool
  pub claimed_at : ℕ
  pub released_at : Option ℕ

pub record Version : Type 0 where
  pub id : Bytes
  pub function_id : Bytes
  pub manifest : Bytes
  pub main_path : Bytes
  pub bundle_hash : Bytes
  pub bundle_size : ℕ
  pub unpacked_size : ℕ
  pub files : Bytes
  pub created_by : Bytes
  pub note : Bytes
  pub created_at : ℕ
  pub updated_at : ℕ

pub record EnvVar : Type 0 where
  pub function_id : Bytes
  pub key : Bytes
  pub value_enc : Bytes
  pub created_at : ℕ
  pub updated_at : ℕ

-- The function of a row of invocation_logs.
pub record LogRow : Type 0 where
  pub function_id : Bytes

pub record FunctionStore : Type 0 where
  pub functions : List Function
  pub names : List NameRow
  pub versions : List Version
  pub env_vars : List EnvVar
  pub logs : List LogRow

-- store.ErrNotFound, ErrConflict and ErrFunctionLimitReached
pub data StoreError : Type 0 where
  not_found conflict limit_reached : StoreError

module _ {ℓ} {A : Type ℓ} where
  unfoldable pub count : (A → Bool) → List A → ℕ
  count p [] = 0
  count p (x ∷ xs) = let rest = count p xs in if p x then suc rest else rest

  -- DELETE ... WHERE, UPDATE ... WHERE and a query of one row
  unfoldable pub delete_where : (A → Bool) → List A → List A
  delete_where p [] = []
  delete_where p (x ∷ xs) = let rest = delete_where p xs in if p x then rest else x ∷ rest

  unfoldable pub update_where : (A → Bool) → (A → A) → List A → List A
  update_where p f [] = []
  update_where p f (x ∷ xs) = let rest = update_where p f xs in if p x then f x ∷ rest else x ∷ rest

  unfoldable pub first_where : (A → Bool) → List A → Option A
  first_where p [] = none
  first_where p (x ∷ xs) = if p x then some x else first_where p xs

unfoldable pub same_creator : Option Bytes → Option Bytes → Bool
unfolding str_eq
same_creator (some a) (some b) = str_eq a b
same_creator none b = false
same_creator (some a) none = false

unfoldable pub same_owner : Bytes → Bytes → Function → Bool
unfolding str_eq
same_owner owner_type owner_id g = str_eq g.owner_type owner_type && str_eq g.owner_id owner_id

-- functionLimitScopeCond: NULL creators are equal to none.
unfoldable pub in_scope : Function → Function → Bool
unfolding same_owner same_creator is_workspace
in_scope f g =
    if is_workspace f.owner_type
    then same_owner f.owner_type f.owner_id g && same_creator g.created_by f.created_by
    else same_owner f.owner_type f.owner_id g

unfoldable pub has_function_id : Bytes → Function → Bool
unfolding str_eq
has_function_id i g = str_eq g.id i

unfoldable pub clashes : Function → Function → Bool
unfolding has_function_id same_owner str_eq
clashes f g =
    has_function_id f.id g || (same_owner f.owner_type f.owner_id g && str_eq g.name f.name)

unfoldable pub claims : Bytes → Bytes → NameRow → Bool
unfolding str_eq
claims name function_id n = str_eq n.name name || str_eq n.function_id function_id
