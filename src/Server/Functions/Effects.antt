-- ===== src/Server/Functions/Effects.antt =====
-- Which tables an operation that succeeds changes, and how.
use funcbox.Prelude.{
  ℕ, Bool, true, false, not, ◌&&◌, ◌||◌, Bytes, str_eq, ◌∷◌, any, some, ok, ltb, ◌≡◌, ◌⊎◌, arith,
  Bool-cases, Option-cases, inl, inr,
}
use funcbox.Server.Functions.Tables.{
  Function, FunctionStore, Version, count, in_scope, clashes, claims, update_where, delete_where,
  has_function_id,
}
use funcbox.Server.Functions.{
  function_row, name_row, create, update, updated, delete_steps, by_id, create_version,
  activate_version, activated, version, set_env, is_env_var, claimed_by, tombstoned,
}

-- A creation found room in the scope, no clash and no claim on the name, and adds two rows.
pub create-ok :
    (f : Function) (limit : ℕ) (known : Bool) (now : ℕ) (s t : FunctionStore)
    → create f limit known now s ≡ ok t
    → (ltb 0 limit && not (ltb (count (in_scope f) s.functions) limit) ≡ false)
      × (any (claims f.name f.id) s.names ≡ false)
      × (function_row f now ∷ s.functions ≡ t.functions)
      × (name_row f now ∷ s.names ≡ t.names)
unfolding create
create-ok f limit known now s t h =
    elim (Bool-cases (ltb 0 limit && not (ltb (count (in_scope f) s.functions) limit))) [
      | inl full ↦ absurd (ground arith)
      | inr room ↦ elim (Bool-cases (not known || any (clashes f) s.functions)) [
        | inl clash ↦ absurd (ground arith)
        | inr free ↦ elim (Bool-cases (any (claims f.name f.id) s.names)) [
          | inl taken ↦ absurd (ground arith)
          | inr new ↦ (room, new, ground arith, ground arith)
        ]
      ]
    ]

-- The new function clashes with none.
pub create-clashes :
    (f : Function) (limit : ℕ) (known : Bool) (now : ℕ) (s t : FunctionStore)
    → create f limit known now s ≡ ok t
    → any (clashes f) s.functions ≡ false
unfolding create
create-clashes f limit known now s t h =
    elim (Bool-cases (ltb 0 limit && not (ltb (count (in_scope f) s.functions) limit))) [
      | inl full ↦ absurd (ground arith)
      | inr room ↦ elim (Bool-cases (any (clashes f) s.functions)) [
        | inl clash ↦ absurd (ground arith)
        | inr free ↦ free
      ]
    ]

pub update-ok :
    (f : Function) (now : ℕ) (s t : FunctionStore)
    → update f now s ≡ ok t
    → (update_where (has_function_id f.id) (updated f now) s.functions ≡ t.functions)
      × (s.names ≡ t.names)
unfolding update
update-ok f now s t h = elim (Option-cases (by_id f.id s)) [
  | inl n ↦ absurd (ground arith)
  | inr (g, n) ↦ elim (Bool-cases (str_eq g.name f.name)) [
    | inl same ↦ (ground arith, ground arith)
    | inr other ↦ absurd (ground arith)
  ]
]

pub create_version-ok :
    (v : Version) (known : Bool) (now : ℕ) (s t : FunctionStore)
    → create_version v known now s ≡ ok t
    → (s.functions ≡ t.functions) × (s.names ≡ t.names)
unfolding create_version
create_version-ok v known now s t h =
    elim (Bool-cases (not known || not (any (has_function_id v.function_id) s.functions))) [
      | inl bad ↦ absurd (ground arith)
      | inr good ↦ elim (Bool-cases (any (λ w. str_eq w.id v.id) s.versions)) [
        | inl bad ↦ absurd (ground arith)
        | inr new ↦ (ground arith, ground arith)
      ]
    ]

-- An activation finds the version among those of the function.
pub activate_version-ok :
    (func_id version_id : Bytes) (now : ℕ) (s t : FunctionStore)
    → activate_version func_id version_id now s ≡ ok t
    → (v : Version) × (version version_id s ≡ some v)
      × (str_eq v.function_id func_id ≡ true)
      × (any (has_function_id func_id) s.functions ≡ true)
      × (update_where (has_function_id func_id) (activated version_id now) s.functions
          ≡ t.functions)
      × (s.names ≡ t.names)
unfolding activate_version
activate_version-ok func_id version_id now s t h = elim (Option-cases (version version_id s)) [
  | inl n ↦ absurd (ground arith)
  | inr (v, n) ↦ elim (Bool-cases (str_eq v.function_id func_id)) [
    | inr other ↦ absurd (ground arith)
    | inl own ↦ elim (Bool-cases (any (has_function_id func_id) s.functions)) [
      | inr gone ↦ absurd (ground arith)
      | inl there ↦ (v, n, own, there, ground arith, ground arith)
    ]
  ]
]

pub set_env-ok :
    (func_id key value_enc : Bytes) (now : ℕ) (s t : FunctionStore)
    → set_env func_id key value_enc now s ≡ ok t
    → (s.functions ≡ t.functions) × (s.names ≡ t.names)
unfolding set_env
set_env-ok func_id key value_enc now s t h =
    elim (Bool-cases (any (is_env_var func_id key) s.env_vars)) [
      | inl old ↦ (ground arith, ground arith)
      | inr new ↦ elim (Bool-cases (any (has_function_id func_id) s.functions)) [
        | inr gone ↦ absurd (ground arith)
        | inl there ↦ (ground arith, ground arith)
      ]
    ]

-- A deletion leaves the functions, or deletes some; it leaves the names, or tombstones some.
pub delete_steps-functions :
    (steps : ℕ) (i : Bytes) (now : ℕ) (s : FunctionStore)
    → ((delete_steps steps i now s).functions ≡ s.functions)
      ⊎ ((delete_steps steps i now s).functions ≡ delete_where (has_function_id i) s.functions)
unfolding delete_steps
delete_steps-functions steps i now s = elim (Bool-cases (ltb 4 steps)) [
  | inl e ↦ inr (ground arith)
  | inr e ↦ inl (ground arith)
]

pub delete_steps-names :
    (steps : ℕ) (i : Bytes) (now : ℕ) (s : FunctionStore)
    → ((delete_steps steps i now s).names ≡ s.names)
      ⊎ ((delete_steps steps i now s).names ≡ update_where (claimed_by i) (tombstoned now) s.names)
unfolding delete_steps
delete_steps-names steps i now s = elim (Bool-cases (ltb 0 steps)) [
  | inl e ↦ inr (ground arith)
  | inr e ↦ inl (ground arith)
]
