-- ===== src/Server/Functions/Quota.antt =====
-- The limit on the functions of a scope: of an owner, or of a creator in a workspace.
use funcbox.Prelude.{
  ℕ, ◌≤◌, ◌<◌, Bool, true, false, not, ◌&&◌, Bytes, str_eq_iff, List, [], ◌∷◌, Option, none, some,
  ltb, ◌≡◌, refl, ap, arith, Bool-cases, inl, inr,
}
use mathlib.Core.Path.{subst}
use funcbox.Server.Authz.{is_workspace}
use funcbox.Server.Functions.Tables.{
  Function, FunctionStore, count, in_scope, same_owner, same_creator, update_where, delete_where,
  has_function_id,
}
use funcbox.Server.Functions.{function_row, updated, delete_steps, activated, delete_env}
use funcbox.Server.Functions.Effects.{
  create-ok, update-ok, create_version-ok, activate_version-ok, set_env-ok, delete_steps-functions,
}
use funcbox.Server.Functions.Changes.{
  Changes, unchanged, created, updated_to, deleted, version_created, version_activated, env_set,
  env_deleted,
}

module _ (p : Function → Bool) where
  count-update_where :
      (q : Function → Bool) (f : Function → Function) (xs : List Function)
      → ((g : Function) → p (f g) ≡ p g)
      → count p (update_where q f xs) ≡ count p xs
  unfolding count update_where
  count-update_where q f [] h = refl
  count-update_where q f (g ∷ xs) h = ground (arith, count-update_where q f xs h, h g)

  count-delete_where :
      (q : Function → Bool) (xs : List Function) → count p (delete_where q xs) ≤ count p xs
  unfolding count delete_where
  count-delete_where q [] = omega arith
  count-delete_where q (g ∷ xs) = ground (arith, count-delete_where q xs)

count_same :
    (p q : Function → Bool) (xs : List Function)
    → ((g : Function) → p g ≡ q g)
    → count p xs ≡ count q xs
unfolding count
count_same p q [] h = refl
count_same p q (g ∷ xs) h = ground (arith, count_same p q xs h, h g)

same_creator→eq : (a b : Option Bytes) → same_creator a b ≡ true → a ≡ b
unfolding same_creator
same_creator→eq none b h = cc
same_creator→eq (some x) none h = cc
same_creator→eq (some x) (some y) h = ap (λ (z : Bytes). some z) ((str_eq_iff x y).0 h)

same_owner→eq :
    (k f : Function)
    → same_owner k.owner_type k.owner_id f ≡ true
    → (f.owner_type ≡ k.owner_type) × (f.owner_id ≡ k.owner_id)
unfolding same_owner
same_owner→eq k f h = (
  (str_eq_iff f.owner_type k.owner_type).0 (ground arith),
  (str_eq_iff f.owner_id k.owner_id).0 (ground arith),
)

-- A function of a scope has that scope.
in_scope_same :
    (k f : Function) → in_scope k f ≡ true → (g : Function) → in_scope f g ≡ in_scope k g
unfolding in_scope
in_scope_same k f h g = elim (Bool-cases (is_workspace k.owner_type)) [
  | inl w ↦
      let e = same_owner→eq k f (ground arith) in
      let c = same_creator→eq f.created_by k.created_by (ground arith) in cc (e.0, e.1, c)
  | inr n ↦ let e = same_owner→eq k f (ground arith) in cc (e.0, e.1, n)
]

in_scope_self_row : (k f : Function) (now : ℕ) → in_scope k (function_row f now) ≡ in_scope k f
unfolding in_scope same_owner
in_scope_self_row k f now = refl

create-within :
    (k f : Function) (limit l now : ℕ) (fs : List Function)
    → 0 < limit
    → (in_scope k f ≡ true → l ≡ limit)
    → ltb 0 l && not (ltb (count (in_scope f) fs) l) ≡ false
    → count (in_scope k) fs ≤ limit
    → count (in_scope k) (function_row f now ∷ fs) ≤ limit
unfolding count
create-within k f limit l now fs pos same room le = elim (Bool-cases (in_scope k f)) [
  | inl there ↦
      let e : count (in_scope f) fs ≡ count (in_scope k) fs =
        count_same (in_scope f) (in_scope k) fs (in_scope_same k f there) in
      ground (arith, same there, in_scope_self_row k f now)
  | inr elsewhere ↦ ground (arith, in_scope_self_row k f now)
]

-- A change of the description, of the active version or of the time keeps the scope.
in_scope-updated :
    (k f : Function) (now : ℕ) (g : Function) → in_scope k (updated f now g) ≡ in_scope k g
unfolding in_scope same_owner
in_scope-updated k f now g = refl

in_scope-activated :
    (k : Function) (v : Bytes) (now : ℕ) (g : Function)
    → in_scope k (activated v now g) ≡ in_scope k g
unfolding in_scope same_owner
in_scope-activated k v now g = refl

deleted-within :
    (k : Function) (limit steps : ℕ) (i : Bytes) (now : ℕ) (s : FunctionStore)
    → count (in_scope k) s.functions ≤ limit
    → count (in_scope k) (delete_steps steps i now s).functions ≤ limit
deleted-within k limit steps i now s le = elim (delete_steps-functions steps i now s) [
  | inl e ↦ ground (arith, ap (count (in_scope k)) e)
  | inr e ↦ ground (
    arith,
    ap (count (in_scope k)) e,
    count-delete_where (in_scope k) (has_function_id i) s.functions,
  )
]

abbrev Within : Function → ℕ → List Function → Type 0
Within k limit fs = count (in_scope k) fs ≤ limit

-- Creations in a scope with its limit, which is positive, leave a scope that is within the limit
-- within it, however they interleave with each other, with creations elsewhere, updates,
-- activations and deletions that stop anywhere.
pub Changes-within :
    (k : Function) (limit : ℕ) {s u : FunctionStore}
    → 0 < limit
    → Changes (λ f l. in_scope k f ≡ true → l ≡ limit) s u
    → count (in_scope k) s.functions ≤ limit
    → count (in_scope k) u.functions ≤ limit
unfolding delete_env
Changes-within k limit pos unchanged le = le
Changes-within k limit {s} pos (created f l known now {t} admitted made r) le =
    let (room, new, rows, claimed) = create-ok f l known now s t made in
    Changes-within k limit pos r
      (subst (Within k limit) rows (create-within k f limit l now s.functions pos admitted room le))
Changes-within k limit {s} pos (updated_to f now {t} made r) le = Changes-within k limit pos r (
    subst (Within k limit) ((update-ok f now s t made).0) (
      omega (
        arith,
        count-update_where (in_scope k) (has_function_id f.id) (updated f now) s.functions
            (λ g. in_scope-updated k f now g),
      )))
Changes-within k limit {s} pos (deleted steps i now r) le =
    Changes-within k limit pos r (deleted-within k limit steps i now s le)
Changes-within k limit {s} pos (version_created v known now {t} made r) le =
    Changes-within k limit pos r
      (subst (Within k limit) ((create_version-ok v known now s t made).0) le)
Changes-within k limit {s} pos (version_activated i v now {t} made r) le =
    let (w, found, own, there, rows, names) = activate_version-ok i v now s t made in
    Changes-within k limit pos r (
      subst (Within k limit) rows (
        omega (
          arith,
          count-update_where (in_scope k) (has_function_id i) (activated v now) s.functions
              (λ g. in_scope-activated k v now g),
        )))
Changes-within k limit {s} pos (env_set i key value now {t} made r) le =
    Changes-within k limit pos r
      (subst (Within k limit) ((set_env-ok i key value now s t made).0) le)
Changes-within k limit {s} pos (env_deleted i key r) le = Changes-within k limit pos r le
