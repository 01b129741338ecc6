-- ===== src/Server/Functions/Claims.antt =====
-- A function name, once claimed, is that function's for good.
use funcbox.Prelude.{
  ℕ, Bool, true, false, not, ◌&&◌, Bytes, str_eq, str_eq_iff, str_eq_refl, List, [], ◌∷◌, any, some,
  ok, ◌≡◌, ◌≢◌, refl, sym, ◌∙◌, arith, Bool-cases, Option-cases, inl, inr,
}
use mathlib.Core.Path.{subst}
use funcbox.Server.Functions.Tables.{
  Function, FunctionStore, NameRow, claims, first_where, has_function_id, update_where,
}
use funcbox.Server.Functions.{
  name_row, create, by_name, by_id, holds_name, claimed_by, tombstoned, delete_steps, delete_env,
}
use funcbox.Server.Functions.Effects.{
  create-ok, update-ok, create_version-ok, activate_version-ok, set_env-ok, delete_steps-names,
}
use funcbox.Server.Functions.Changes.{
  Changes, unchanged, created, updated_to, deleted, version_created, version_activated, env_set,
  env_deleted,
}

module _ (name i : Bytes) where
  unfoldable is_own : NameRow → Bool
  is_own n = str_eq n.name name && str_eq n.function_id i

  unfoldable is_foreign : NameRow → Bool
  is_foreign n = str_eq n.name name && not (str_eq n.function_id i)

  -- The name has a row, of the function, and none of another function.
  abbrev Owned : List NameRow → Type 0
  Owned ns = (any is_own ns ≡ true) × (any is_foreign ns ≡ false)

  Owned-claims :
      (j : Bytes) (ns : List NameRow) → any is_own ns ≡ true → any (claims name j) ns ≡ true
  unfolding claims is_own
  Owned-claims j [] h = cc
  Owned-claims j (n ∷ ns) h = ground (arith, Owned-claims j ns)

  other_name :
      (f : Function) (now : ℕ) (ns : List NameRow)
      → any is_own ns ≡ true
      → any (claims f.name f.id) ns ≡ false
      → str_eq f.name name ≡ false
  other_name f now ns own free = elim (Bool-cases (str_eq f.name name)) [
    | inr e ↦ e
    | inl e ↦
        let named : any (claims name f.id) ns ≡ false =
          subst (λ (x : Bytes). any (claims x f.id) ns ≡ false) ((str_eq_iff f.name name).0 e)
            free in
        absurd (ground (arith, Owned-claims f.id ns own))
  ]

  Owned-create :
      (f : Function) (now : ℕ) (ns : List NameRow)
      → any (claims f.name f.id) ns ≡ false
      → Owned ns
      → Owned (name_row f now ∷ ns)
  unfolding is_own is_foreign
  Owned-create f now ns free (own, alone) =
      let e = other_name f now ns own free in (ground arith, ground arith)

  Owned-tombstone :
      (p : NameRow → Bool) (now : ℕ) (ns : List NameRow)
      → (any is_own (update_where p (tombstoned now) ns) ≡ any is_own ns)
        × (any is_foreign (update_where p (tombstoned now) ns) ≡ any is_foreign ns)
  unfolding is_own is_foreign update_where
  Owned-tombstone p now [] = (refl, refl)
  Owned-tombstone p now (n ∷ ns) =
      (ground (arith, (Owned-tombstone p now ns).0), ground (arith, (Owned-tombstone p now ns).1))

  Owned-delete :
      (steps : ℕ) (j : Bytes) (now : ℕ) (s : FunctionStore)
      → Owned s.names
      → Owned ((delete_steps steps j now s).names)
  Owned-delete steps j now s o = elim (delete_steps-names steps j now s) [
    | inl e ↦ subst Owned (sym e) o
    | inr e ↦
        let k = Owned-tombstone (claimed_by j) now s.names in
        subst Owned (sym e) (k.0 ∙ o.0, k.1 ∙ o.1)
  ]

  Changes-Owned : {s u : FunctionStore} → Changes (λ f l. Unit) s u → Owned s.names → Owned u.names
  unfolding delete_env
  Changes-Owned unchanged o = o
  Changes-Owned {s} (created f l known now {t} admitted made r) o =
      let (room, new, rows, claimed) = create-ok f l known now s t made in
      Changes-Owned r (subst Owned claimed (Owned-create f now s.names new o))
  Changes-Owned {s} (updated_to f now {t} made r) o =
      Changes-Owned r (subst Owned ((update-ok f now s t made).1) o)
  Changes-Owned {s} (deleted steps j now r) o = Changes-Owned r (Owned-delete steps j now s o)
  Changes-Owned {s} (version_created v known now {t} made r) o =
      Changes-Owned r (subst Owned ((create_version-ok v known now s t made).1) o)
  Changes-Owned {s} (version_activated j v now {t} made r) o =
      let (w, found, own, there, rows, names) = activate_version-ok j v now s t made in
      Changes-Owned r (subst Owned names o)
  Changes-Owned {s} (env_set j key value now {t} made r) o =
      Changes-Owned r (subst Owned ((set_env-ok j key value now s t made).1) o)
  Changes-Owned (env_deleted j key r) o = Changes-Owned r o

  -- The row that a look-up finds is the function's.
  found_row :
      (ns : List NameRow) (n : NameRow)
      → any is_foreign ns ≡ false
      → first_where (holds_name name) ns ≡ some n
      → n.function_id ≡ i
  unfolding first_where holds_name is_foreign
  found_row [] n alone h = cc
  found_row (m ∷ ns) n alone h = elim (Bool-cases (str_eq m.name name && m.active)) [
    | inl e ↦
        let mine : str_eq m.function_id i ≡ true = ground arith in
        let same : m ≡ n = ground arith in
        subst (λ (x : NameRow). x.function_id ≡ i) same ((str_eq_iff m.function_id i).0 mine)
    | inr e ↦ found_row ns n (ground arith) (ground arith)
  ]

found_id :
    (j : Bytes) (fs : List Function) (g : Function)
    → first_where (has_function_id j) fs ≡ some g
    → g.id ≡ j
unfolding first_where has_function_id
found_id j [] g h = cc
found_id j (f ∷ fs) g h = elim (Bool-cases (str_eq f.id j)) [
  | inl e ↦
      let same : f ≡ g = ground arith in
      subst (λ (x : Function). x.id ≡ j) same ((str_eq_iff f.id j).0 e)
  | inr e ↦ found_id j fs g (ground arith)
]

by_name-ok :
    (name : Bytes) (s : FunctionStore) (g : Function)
    → by_name name s ≡ some g
    → (n : NameRow) × (first_where (holds_name name) s.names ≡ some n)
      × (first_where (has_function_id n.function_id) s.functions ≡ some g)
unfolding by_name by_id
by_name-ok name s g h = elim (Option-cases (first_where (holds_name name) s.names)) [
  | inl e ↦ absurd (ground arith)
  | inr (n, e) ↦ (n, e, ground arith)
]

unclaimed :
    (name i : Bytes) (ns : List NameRow)
    → any (claims name i) ns ≡ false
    → any (is_foreign name i) ns ≡ false
unfolding claims is_foreign
unclaimed name i [] h = refl
unclaimed name i (n ∷ ns) h = ground (arith, unclaimed name i ns)

fresh_row-Owned :
    (f : Function) (now : ℕ) (ns : List NameRow)
    → any (claims f.name f.id) ns ≡ false
    → any (is_own f.name f.id) (name_row f now ∷ ns) ≡ true
unfolding is_own
fresh_row-Owned f now ns free = ground (arith, str_eq_refl f.name, str_eq_refl f.id)

fresh_row_alone :
    (f : Function) (now : ℕ) (ns : List NameRow)
    → any (claims f.name f.id) ns ≡ false
    → any (is_foreign f.name f.id) (name_row f now ∷ ns) ≡ false
unfolding is_foreign
fresh_row_alone f now ns free = ground (arith, str_eq_refl f.id, unclaimed f.name f.id ns free)

-- After a function is created, whatever follows, its deletion included, its name looks up no other
-- function, and no function of that name can be created again.
pub name_stays :
    (f : Function) (limit : ℕ) (known : Bool) (now : ℕ) (s t u : FunctionStore)
    → create f limit known now s ≡ ok t
    → Changes (λ g l. Unit) t u
    → ((g : Function) → by_name f.name u ≡ some g → g.id ≡ f.id)
      × ((g : Function) (limit' : ℕ) (known' : Bool) (now' : ℕ) (v : FunctionStore)
          → g.name ≡ f.name
          → create g limit' known' now' u ≢ ok v)
name_stays f limit known now s t u made r =
    let (room, new, rows, claimed) = create-ok f limit known now s t made in
    let o : Owned f.name f.id u.names = Changes-Owned f.name f.id r (
      subst (Owned f.name f.id) claimed
        (fresh_row-Owned f now s.names new, fresh_row_alone f now s.names new)) in
    (
      λ g h.
          let (n, row, found) = by_name-ok f.name u g h in
          found_id n.function_id u.functions g found ∙ found_row f.name f.id u.names n (o.1) row,
      λ g limit' known' now' v same h.
          let (room', new', rows', claimed') = create-ok g limit' known' now' u v h in
          ground (
            arith,
            other_name f.name f.id g now' u.names (o.0) new',
            (str_eq_iff g.name f.name).1 same,
          ),
    )
