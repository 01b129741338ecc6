-- ===== src/Server/Service/Publish/Spared.antt =====
-- Whose rows a deploy writes (deploy.go): the functions of its owner and those of others.
use funcbox.Prelude.{
  ℕ, Bool, true, false, not, ◌&&◌, ◌||◌, Bytes, str_eq, str_eq_iff, List, ◌∷◌, some, none, Option,
  Result, ok, err, ltb, leb, ◌≡◌, ◌⊎◌, refl, sym, ap, ◌∙◌, arith, Bool-cases, Option-cases,
  Result-cases, inl, inr,
}
use mathlib.Core.Path.{subst}
use funcbox.Server.Authz.{is_workspace}
use funcbox.Server.Functions.Tables.{
  Function, FunctionStore, Version, first_where, has_function_id, same_owner,
}
use funcbox.Server.Functions.{by_id, by_name, create, create_version, activate_version, update}
use funcbox.Server.Functions.Effects.{create_version-ok}
use funcbox.Server.Functions.Rows.{
  by_id-has, by_name-by_id, create-keeps, Spares, update-keeps, activate_version-keeps,
}
use funcbox.Server.Service.Access.{
  ServiceError, resolve_owner, internal, function_limit_exceeded, function_name_taken,
}
use funcbox.Server.Service.Publish.{
  Run, Upload, DeployState, put_blob, add_version, activate, look_up, create_function,
  update_function, check_function_limit, new_function, create_within_quota, reuse, claim_function,
  new_version, release, write_deploy, publish, creation_error, bundle_blob_key,
}
use funcbox.Server.Service.Publish.Rights.{
  MayDeploy, publish-write_deploy, authorize_deploy-MayDeploy,
}

-- What a claim comes to: an error that leaves the tables, or a function, and the other rows kept.
abbrev Claimed : Function → FunctionStore → FunctionStore × Result ServiceError Function → Type 0
Claimed g s w =
    ((x : ServiceError) × (w ≡ (s, err x)))
    ⊎ ((f : Function) × (t : FunctionStore) × (w ≡ (t, ok f)) × Spares f g t)

abbrev tables_of : FunctionStore × Result ServiceError Function → FunctionStore
tables_of w = w.0

abbrev answer_of : FunctionStore × Result ServiceError Function → Result ServiceError Function
answer_of w = w.1

module _ (run : Run) (up : Upload) (owner_type owner_id : Bytes) (g : Function) where
  create_within_quota-Claimed :
      (s : FunctionStore)
      → by_id g.id s ≡ some g
      → Claimed g s (create_within_quota run up owner_type owner_id s)
  unfolding create_within_quota
  create_within_quota-Claimed s there =
      elim (Result-cases (check_function_limit run owner_type owner_id s)) [
        | inr (x, c) ↦ inl (x, ground arith)
        | inl ((current, limit), c) ↦ elim (Bool-cases (ltb 0 limit && leb limit current)) [
          | inl full ↦ inl (function_limit_exceeded, ground arith)
          | inr room ↦ elim (Bool-cases (run.fails create_function)) [
            | inl down ↦ inl (internal, ground arith)
            | inr runs ↦
                elim (Result-cases
                  (create (new_function run up owner_type owner_id) limit run.known run.now s)) [
                    | inr (x, e) ↦ inl (creation_error run owner_type owner_id s x, ground arith)
                    | inl (t, e) ↦ inr (
                      new_function run up owner_type owner_id,
                      t,
                      ground arith,
                      create-keeps (new_function run up owner_type owner_id) g limit run.known
                          run.now s t e there,
                    )
                  ]
          ]
        ]
      ]

  -- A function of the owner is another one than one that is not.
  not_owned :
      (f : Function) (s : FunctionStore)
      → by_id f.id s ≡ some f
      → by_id g.id s ≡ some g
      → same_owner owner_type owner_id f ≡ true
      → same_owner owner_type owner_id g ≡ false
      → str_eq f.id g.id ≡ false
  not_owned f s found there own other = elim (Bool-cases (str_eq f.id g.id)) [
    | inr d ↦ d
    | inl e ↦
        let again : by_id g.id s ≡ some f =
          subst (λ (i : Bytes). by_id i s ≡ some f) ((str_eq_iff f.id g.id).0 e) found in
        let q : f ≡ g = cc in
        absurd (differ (sym own ∙ ap (same_owner owner_type owner_id) q ∙ other))
  ]
    where
      differ : true ≡ false → ⊥
      differ h = cc

  reuse-Claimed :
      (f : Function) (s : FunctionStore)
      → by_id f.id s ≡ some f
      → by_id g.id s ≡ some g
      → same_owner owner_type owner_id g ≡ false
      → Claimed g s (reuse run up owner_type owner_id f s)
  unfolding reuse
  reuse-Claimed f s found there other =
      elim (Bool-cases (not (str_eq f.owner_type owner_type) || not (str_eq f.owner_id owner_id))) [
        | inl foreign ↦ inl (function_name_taken, ground arith)
        | inr own ↦
            let apart = not_owned f s found there (unfold same_owner in ground arith) other in
            elim (Bool-cases (str_eq f.description up.description)) [
              | inl same ↦ inr (f, s, ground arith, (there, apart))
              | inr new ↦ elim (Bool-cases (run.fails update_function)) [
                | inl down ↦ inl (internal, ground arith)
                | inr runs ↦
                    let f' : Function = record f { description = up.description } in
                    elim (Result-cases (update f' run.now s)) [
                      | inr (x, e) ↦ inl (internal, ground arith)
                      | inl (t, e) ↦ inr (
                        f',
                        t,
                        ground arith,
                        (update-keeps f' g run.now s t e apart there, apart),
                      )
                    ]
              ]
            ]
      ]

  claim_function-Claimed :
      (s : FunctionStore)
      → by_id g.id s ≡ some g
      → same_owner owner_type owner_id g ≡ false
      → Claimed g s (claim_function run up owner_type owner_id s)
  unfolding claim_function
  claim_function-Claimed s there other = elim (Bool-cases (run.fails look_up)) [
    | inl down ↦ inl (internal, ground arith)
    | inr runs ↦ by_row (by_name up.name s) refl runs
  ]
    where
      by_row :
          (o : Option Function)
          → by_name up.name s ≡ o
          → run.fails look_up ≡ false
          → Claimed g s (claim_function run up owner_type owner_id s)
      by_row none e runs = rw (runs, e) (create_within_quota-Claimed s there)
      by_row (some f) e runs =
          rw (runs, e) (reuse-Claimed f s (by_name-by_id up.name s f e) there other)

  create_version-keeps :
      (v : Version) (known : Bool) (now : ℕ) (s t : FunctionStore)
      → create_version v known now s ≡ ok t
      → by_id g.id s ≡ some g
      → by_id g.id t ≡ some g
  unfolding by_id
  create_version-keeps v known now s t h there =
      subst (λ (fs : List Function). first_where (has_function_id g.id) fs ≡ some g)
        ((create_version-ok v known now s t h).0) there

  release-keeps :
      (f : Function) (s : DeployState)
      → Spares f g s.store
      → by_id g.id (release run up f s).0.store ≡ some g
  unfolding release
  release-keeps f s (there, apart) = elim (Bool-cases (run.fails add_version)) [
    | inl down ↦ ground arith
    | inr runs ↦
        elim (Result-cases (create_version (new_version run up f) run.known run.now s.store)) [
          | inr (x, e) ↦ ground arith
          | inl (t, e) ↦
              let there' : by_id g.id t ≡ some g =
                create_version-keeps (new_version run up f) run.known run.now s.store t e there in
              elim (Bool-cases (run.fails activate)) [
                | inl down ↦ ground arith
                | inr runs' ↦ elim (Result-cases (activate_version f.id run.version_id run.now t)) [
                  | inr (x, a) ↦ ground arith
                  | inl (u, a) ↦
                      let kept =
                        activate_version-keeps f.id run.version_id g run.now t u a apart there' in
                      ground arith
                ]
              ]
        ]
  ]

  write_deploy-keeps :
      (s : DeployState)
      → by_id g.id s.store ≡ some g
      → same_owner owner_type owner_id g ≡ false
      → by_id g.id (write_deploy run up owner_type owner_id s).0.store ≡ some g
  unfolding write_deploy
  write_deploy-keeps s there other = elim (Bool-cases (run.fails put_blob)) [
    | inl down ↦ ground arith
    | inr runs ↦ elim (claim_function-Claimed s.store there other) [
      | inl (x, e) ↦
          let left : (claim_function run up owner_type owner_id s.store).0 ≡ s.store =
            ap tables_of e in
          let failed : (claim_function run up owner_type owner_id s.store).1 ≡ err x =
            ap answer_of e in
          ground (arith, there)
      | inr (f, t, e, spares) ↦
          let left : (claim_function run up owner_type owner_id s.store).0 ≡ t = ap tables_of e in
          let done : (claim_function run up owner_type owner_id s.store).1 ≡ ok f =
            ap answer_of e in
          let s' : DeployState = record s {
            store = (claim_function run up owner_type owner_id s.store).0;
            blobs = bundle_blob_key up.bundle_hash ∷ s.blobs;
          } in
          let kept : by_id g.id (release run up f s').0.store ≡ some g =
            release-keeps f s' (rw left spares) in
          ground arith
    ]
  ]

-- A row that is there is kept, or one of the owner.
row_kept :
    (run : Run) (up : Upload) (owner_type owner_id : Bytes) (s : DeployState) (i : Bytes)
    → (by_id i s.store ≡ none)
      ⊎ ((by_id i (write_deploy run up owner_type owner_id s).0.store ≡ by_id i s.store)
          ⊎ ((g : Function) × (by_id i s.store ≡ some g)
              × (same_owner owner_type owner_id g ≡ true)))
row_kept run up owner_type owner_id s i = elim (Option-cases (by_id i s.store)) [
  | inl e ↦ inl e
  | inr (g, e) ↦ elim (Bool-cases (same_owner owner_type owner_id g)) [
    | inl own ↦ inr (inr (g, e, own))
    | inr other ↦
        let same : g.id ≡ i = by_id-has i s.store g e in
        inr (
          inl (
            subst
              (λ (j : Bytes). by_id j (write_deploy run up owner_type owner_id s).0.store ≡ some g)
              same
              (write_deploy-keeps run up owner_type owner_id g s
                (subst (λ (j : Bytes). by_id j s.store ≡ some g) (sym same) e) other)
            ∙ sym e))
  ]
]

-- A deploy leaves every table and the blobs as they are and drops no pool, or its owner is one that
-- the actor may deploy to, and no workspace while the organization is in open mode; and then, for any
-- id, the function that it found is as it was, or there was none, or it was one of this owner.
pub publish_rights :
    (run : Run) (up : Upload) (owner : Bytes) (s : DeployState) (i : Bytes)
    → ((publish run up owner s).0 ≡ s)
      ⊎ ((owner_type owner_id : Bytes) × (resolve_owner run.site owner ≡ ok (owner_type, owner_id))
          × (run.org.open_mode && is_workspace owner_type ≡ false)
          × MayDeploy run.site run.org run.actor owner_type owner_id
          × ((by_id i s.store ≡ none)
              ⊎ ((by_id i (publish run up owner s).0.store ≡ by_id i s.store)
                  ⊎ ((g : Function) × (by_id i s.store ≡ some g)
                      × (same_owner owner_type owner_id g ≡ true)))))
publish_rights run up owner s i = elim (publish-write_deploy run up owner s) [
  | inl (x, e) ↦ inl (ap state_of e)
  | inr (owner_type, owner_id, e, o, a, w) ↦ inr (
    owner_type,
    owner_id,
    e,
    o,
    authorize_deploy-MayDeploy run.site run.org run.actor owner_type owner_id a,
    subst
        (λ (t : DeployState).
          (by_id i s.store ≡ none)
          ⊎ ((by_id i t.store ≡ by_id i s.store)
              ⊎ ((g : Function) × (by_id i s.store ≡ some g)
                  × (same_owner owner_type owner_id g ≡ true))))
        (sym (ap state_of w)) (row_kept run up owner_type owner_id s i),
  )
]
  where
    state_of : DeployState × Result ServiceError (Function × Version) → DeployState
    state_of w = w.0
