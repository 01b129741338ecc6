-- ===== src/Server/Functions/Rows.antt =====
-- The row of a function is kept by a statement on another one.
use funcbox.Prelude.{
  ℕ, Bool, false, Bytes, str_eq, str_eq_iff, List, [], ◌∷◌, any, some, ok, ◌≡◌, refl, sym, ap, ◌∙◌,
  arith, Bool-cases, Option-cases, inl, inr,
}
use mathlib.Core.Path.{subst}
use funcbox.Server.Functions.Tables.{
  Function, FunctionStore, first_where, update_where, has_function_id, clashes,
}
use funcbox.Server.Functions.{
  by_id, by_name, holds_name, activated, updated, create, activate_version, update,
}
use funcbox.Server.Functions.Effects.{activate_version-ok, update-ok, create-ok, create-clashes}

first_where-has :
    (i : Bytes) (fs : List Function) (f : Function)
    → first_where (has_function_id i) fs ≡ some f
    → f.id ≡ i
unfolding first_where has_function_id
first_where-has i [] f h = cc
first_where-has i (g ∷ fs) f h = elim (Bool-cases (str_eq g.id i)) [
  | inl e ↦
      let q : g ≡ f = ground arith in sym (ap (λ (x : Function). x.id) q) ∙ (str_eq_iff g.id i).0 e
  | inr e ↦ first_where-has i fs f (ground arith)
]

pub by_id-has : (i : Bytes) (s : FunctionStore) (f : Function) → by_id i s ≡ some f → f.id ≡ i
unfolding by_id
by_id-has i s f h = first_where-has i s.functions f h

-- The function that has a name is found by its id as well.
pub by_name-by_id :
    (name : Bytes) (s : FunctionStore) (f : Function)
    → by_name name s ≡ some f
    → by_id f.id s ≡ some f
unfolding by_name
by_name-by_id name s f h = elim (Option-cases (first_where (holds_name name) s.names)) [
  | inl n ↦ absurd (ground arith)
  | inr (n, e) ↦
      let found : by_id n.function_id s ≡ some f = ground arith in
      subst (λ (i : Bytes). by_id i s ≡ some f)
        (sym (first_where-has n.function_id s.functions f (unfold by_id in found))) found
]

-- An update by another id does not touch the row.
update_where-other :
    (i j : Bytes) (u : Function → Function) (fs : List Function)
    → ((x : Function) → (u x).id ≡ x.id)
    → str_eq j i ≡ false
    → first_where (has_function_id i) (update_where (has_function_id j) u fs)
      ≡ first_where (has_function_id i) fs
unfolding first_where update_where has_function_id
update_where-other i j u [] keeps d = refl
update_where-other i j u (g ∷ fs) keeps d = ground (
  arith,
  update_where-other i j u fs keeps d,
  ap (λ (x : Bytes). str_eq x i) (keeps g),
  str_eq_iff g.id i,
  str_eq_iff g.id j,
  str_eq_iff j i,
)

-- No row with the id of the new function is there.
unclashed :
    (f g : Function) (fs : List Function)
    → any (clashes f) fs ≡ false
    → first_where (has_function_id g.id) fs ≡ some g
    → str_eq f.id g.id ≡ false
unfolding first_where has_function_id clashes
unclashed f g [] free there = cc
unclashed f g (x ∷ fs) free there = elim (Bool-cases (str_eq x.id g.id)) [
  | inl e ↦ ground (arith, str_eq_iff x.id g.id, str_eq_iff f.id g.id, str_eq_iff x.id f.id)
  | inr e ↦ unclashed f g fs (ground arith) (ground arith)
]

-- A creation that succeeds leaves the rows that are there.
pub create-keeps :
    (f g : Function) (limit : ℕ) (known : Bool) (now : ℕ) (s t : FunctionStore)
    → create f limit known now s ≡ ok t
    → by_id g.id s ≡ some g
    → (by_id g.id t ≡ some g) × (str_eq f.id g.id ≡ false)
unfolding by_id
create-keeps f g limit known now s t h there =
    let apart = unclashed f g s.functions (create-clashes f limit known now s t h) there in
    let (room, free, rows, names) = create-ok f limit known now s t h in
    (
      subst (λ (fs : List Function). first_where (has_function_id g.id) fs ≡ some g) rows
          (unfold first_where in unfold has_function_id in ground arith),
      apart,
    )

abbrev pub Spares : Function → Function → FunctionStore → Type 0
Spares f g t = (by_id g.id t ≡ some g) × (str_eq f.id g.id ≡ false)

-- A change of another function's row
pub update-keeps :
    (f g : Function) (now : ℕ) (s t : FunctionStore)
    → update f now s ≡ ok t
    → str_eq f.id g.id ≡ false
    → by_id g.id s ≡ some g
    → by_id g.id t ≡ some g
unfolding by_id
update-keeps f g now s t h d there =
    let (rows, names) = update-ok f now s t h in
    subst (λ (fs : List Function). first_where (has_function_id g.id) fs ≡ some g) rows
      (update_where-other g.id f.id (updated f now) s.functions (λ x. refl) d ∙ there)

pub activate_version-keeps :
    (i v : Bytes) (g : Function) (now : ℕ) (s t : FunctionStore)
    → activate_version i v now s ≡ ok t
    → str_eq i g.id ≡ false
    → by_id g.id s ≡ some g
    → by_id g.id t ≡ some g
unfolding by_id
activate_version-keeps i v g now s t h d there =
    let (w, found, own, known, rows, names) = activate_version-ok i v now s t h in
    subst (λ (fs : List Function). first_where (has_function_id g.id) fs ≡ some g) rows
      (update_where-other g.id i (activated v now) s.functions (λ x. refl) d ∙ there)
