-- ===== src/Server/Service/Publish/Activation.antt =====
-- What a deploy that succeeds leaves.
use funcbox.Prelude.{
  ℕ, true, not, ◌&&◌, ◌||◌, Bytes, str_eq, str_eq_iff, List, [], ◌∷◌, any, some, Result, ok, ltb,
  leb, ◌≡◌, refl, sym, ap, ◌∙◌, arith, Bool-cases, Option-cases, Result-cases, inl, inr,
  ok-injective,
}
use mathlib.Core.Path.{subst}
use funcbox.Server.Functions.Tables.{
  Function, FunctionStore, Version, first_where, update_where, has_function_id,
}
use funcbox.Server.Functions.{
  by_id, by_name, activated, create, create_version, activate_version, update,
}
use funcbox.Server.Functions.Effects.{activate_version-ok}
use funcbox.Server.Service.Access.{ServiceError, resolve_owner}
use funcbox.Server.Service.Publish.{
  Run, Upload, DeployState, bundle_blob_key, put_blob, add_version, activate, look_up,
  create_function, update_function, check_function_limit, new_function, create_within_quota, reuse,
  claim_function, new_version, release, write_deploy, publish,
}
use funcbox.Server.Service.Publish.Rights.{publish-write_deploy}

-- The row that an update by id reaches is the first with the id after it as well.
updated_row :
    (i : Bytes) (f : Function → Function) (fs : List Function)
    → ((g : Function) → (f g).id ≡ g.id)
    → any (has_function_id i) fs ≡ true
    → (g : Function) × (first_where (has_function_id i) (update_where (has_function_id i) f fs)
        ≡ some (f g))
unfolding first_where update_where has_function_id
updated_row i f [] keeps h = absurd (ground arith)
updated_row i f (g ∷ fs) keeps h = elim (Bool-cases (str_eq g.id i)) [
  | inl e ↦ (g, ground (arith, ap (λ (x : Bytes). str_eq x i) (keeps g)))
  | inr e ↦ let (k, found) = updated_row i f fs keeps (ground arith) in (k, ground arith)
]

create_within_quota-owner :
    (run : Run) (up : Upload) (owner_type owner_id : Bytes) (s : FunctionStore) (f : Function)
    → (create_within_quota run up owner_type owner_id s).1 ≡ ok f
    → f ≡ new_function run up owner_type owner_id
unfolding create_within_quota
create_within_quota-owner run up owner_type owner_id s f h =
    elim (Result-cases (check_function_limit run owner_type owner_id s)) [
      | inr (x, c) ↦ absurd (ground arith)
      | inl ((current, limit), c) ↦ elim (Bool-cases (ltb 0 limit && leb limit current)) [
        | inl full ↦ absurd (ground arith)
        | inr room ↦ elim (Bool-cases (run.fails create_function)) [
          | inl down ↦ absurd (ground arith)
          | inr up' ↦
              elim (Result-cases
                (create (new_function run up owner_type owner_id) limit run.known run.now s)) [
                  | inr (x, e) ↦ absurd (ground arith)
                  | inl (t, e) ↦
                      let q : new_function run up owner_type owner_id ≡ f =
                        ok-injective {E = ServiceError} (ground arith) in
                      sym q
                ]
        ]
      ]
    ]

reuse-owner :
    (run : Run) (up : Upload) (owner_type owner_id : Bytes) (g : Function) (s : FunctionStore)
    (f : Function)
    → (reuse run up owner_type owner_id g s).1 ≡ ok f
    → (f.owner_type ≡ owner_type) × (f.owner_id ≡ owner_id)
unfolding reuse
reuse-owner run up owner_type owner_id g s f h =
    elim (Bool-cases (not (str_eq g.owner_type owner_type) || not (str_eq g.owner_id owner_id))) [
      | inl other ↦ absurd (ground arith)
      | inr own ↦
          let a : g.owner_type ≡ owner_type =
            (str_eq_iff g.owner_type owner_type).0 (ground arith) in
          let b : g.owner_id ≡ owner_id = (str_eq_iff g.owner_id owner_id).0 (ground arith) in
          elim (Bool-cases (str_eq g.description up.description)) [
            | inl same ↦
                let q : g ≡ f = ok-injective {E = ServiceError} (ground arith) in
                owned_like g f q a b
            | inr new ↦ elim (Bool-cases (run.fails update_function)) [
              | inl down ↦ absurd (ground arith)
              | inr up' ↦
                  elim (Result-cases
                    (update (record g { description = up.description }) run.now s)) [
                      | inr (x, e) ↦ absurd (ground arith)
                      | inl (t, e) ↦
                          let q : record g { description = up.description } ≡ f =
                            ok-injective {E = ServiceError} (ground arith) in
                          owned_like (record g { description = up.description }) f q a b
                    ]
            ]
          ]
    ]
  where
    owned_like :
        (x y : Function)
        → x ≡ y
        → x.owner_type ≡ owner_type
        → x.owner_id ≡ owner_id
        → (y.owner_type ≡ owner_type) × (y.owner_id ≡ owner_id)
    owned_like x y q a b = (
      sym (ap (λ (z : Function). z.owner_type) q) ∙ a,
      sym (ap (λ (z : Function). z.owner_id) q) ∙ b,
    )

claim_function-owner :
    (run : Run) (up : Upload) (owner_type owner_id : Bytes) (s : FunctionStore) (f : Function)
    → (claim_function run up owner_type owner_id s).1 ≡ ok f
    → (f.owner_type ≡ owner_type) × (f.owner_id ≡ owner_id)
unfolding claim_function new_function
claim_function-owner run up owner_type owner_id s f h = elim (Bool-cases (run.fails look_up)) [
  | inl d ↦ absurd (ground arith)
  | inr u ↦ elim (Option-cases (by_name up.name s)) [
    | inr (g, n) ↦ reuse-owner run up owner_type owner_id g s f (ground arith)
    | inl n ↦
        let e : f ≡ new_function run up owner_type owner_id =
          create_within_quota-owner run up owner_type owner_id s f (ground arith) in
        (ap (λ (x : Function). x.owner_type) e, ap (λ (x : Function). x.owner_id) e)
  ]
]

-- A release adds the version, then points the function at it.
release-ok :
    (run : Run) (up : Upload) (f : Function) (s : DeployState) (g : Function) (v : Version)
    → (release run up f s).1 ≡ ok (g, v)
    → (t : FunctionStore) × (create_version (new_version run up f) run.known run.now s.store ≡ ok t)
      × (activate_version f.id run.version_id run.now t ≡ ok ((release run up f s).0.store))
      × (◌≡◌ {A = Function × Version}
          (record f { active_version_id = some run.version_id }, new_version run up f)
          (g, v))
      × ((release run up f s).0.blobs ≡ s.blobs)
unfolding release
release-ok run up f s g v h = elim (Bool-cases (run.fails add_version)) [
  | inl down ↦ absurd (ground arith)
  | inr up' ↦
      elim (Result-cases (create_version (new_version run up f) run.known run.now s.store)) [
        | inr (x, e) ↦ absurd (ground arith)
        | inl (t, e) ↦ elim (Bool-cases (run.fails activate)) [
          | inl down ↦ absurd (ground arith)
          | inr up'' ↦ elim (Result-cases (activate_version f.id run.version_id run.now t)) [
            | inr (x, a) ↦ absurd (ground arith)
            | inl (u, a) ↦
                (t, e, ground arith, ok-injective {E = ServiceError} (ground arith), ground arith)
          ]
        ]
      ]
]

write_deploy-ok :
    (run : Run) (up : Upload) (owner_type owner_id : Bytes) (s : DeployState) (g : Function)
    (v : Version)
    → (write_deploy run up owner_type owner_id s).1 ≡ ok (g, v)
    → (f : Function) × (s' : DeployState) × ((claim_function run up owner_type owner_id s.store).1
        ≡ ok f)
      × (s'.blobs ≡ bundle_blob_key up.bundle_hash ∷ s.blobs)
      × (write_deploy run up owner_type owner_id s ≡ release run up f s')
unfolding write_deploy
write_deploy-ok run up owner_type owner_id s g v h = elim (Bool-cases (run.fails put_blob)) [
  | inl down ↦ absurd (ground arith)
  | inr up' ↦ elim (Result-cases ((claim_function run up owner_type owner_id s.store).1)) [
    | inr (x, e) ↦ absurd (ground arith)
    | inl (f, e) ↦ (
      f,
      record s {
        store = (claim_function run up owner_type owner_id s.store).0;
        blobs = bundle_blob_key up.bundle_hash ∷ s.blobs;
      },
      e,
      refl,
      ground arith,
    )
  ]
]

-- After an activation the function's row names the version.
activate_version-by_id :
    (i v : Bytes) (now : ℕ) (s t : FunctionStore)
    → activate_version i v now s ≡ ok t
    → (row : Function) × (by_id i t ≡ some row) × (row.active_version_id ≡ some v)
unfolding by_id
activate_version-by_id i v now s t h =
    let (w, found, own, there, rows, names) = activate_version-ok i v now s t h in
    let (g, first) = updated_row i (activated v now) s.functions (λ x. refl) there in
    (
      activated v now g,
      subst (λ (fs : List Function). first_where (has_function_id i) fs ≡ some (activated v now g))
          rows first,
      refl,
    )

abbrev Outcome : Type 0
Outcome = DeployState × Result ServiceError (Function × Version)

abbrev result_of : Outcome → Result ServiceError (Function × Version)
result_of w = w.1

abbrev store_of : Outcome → FunctionStore
store_of w = w.0.store

abbrev blobs_of : Outcome → List Bytes
blobs_of w = w.0.blobs

-- A deploy that succeeds returns a function of the owner that it names, whose row then has the new
-- version for its active one; the version is the function's, and its bundle is stored under the hash
-- that it names.
pub publish_activates :
    (run : Run) (up : Upload) (owner : Bytes) (s : DeployState) (g : Function) (v : Version)
    → (publish run up owner s).1 ≡ ok (g, v)
    → (owner_type owner_id : Bytes) × (row : Function) × (resolve_owner run.site owner
        ≡ ok (owner_type, owner_id))
      × (g.owner_type ≡ owner_type)
      × (g.owner_id ≡ owner_id)
      × (by_id g.id (publish run up owner s).0.store ≡ some row)
      × (row.active_version_id ≡ some v.id)
      × (v.function_id ≡ g.id)
      × ((publish run up owner s).0.blobs ≡ bundle_blob_key v.bundle_hash ∷ s.blobs)
unfolding new_version
publish_activates run up owner s g v h = elim (publish-write_deploy run up owner s) [
  | inl (x, e) ↦ absurd (ground arith)
  | inr (owner_type, owner_id, resolved, o, a, w) ↦
      let (f, s', claimed, blobs, whole) =
        write_deploy-ok run up owner_type owner_id s g v (sym (ap result_of w) ∙ h) in
      let all : publish run up owner s ≡ release run up f s' = w ∙ whole in
      let (t, made, active, pair, kept) = release-ok run up f s' g v (sym (ap result_of all) ∙ h) in
      let (row, there, names) =
        activate_version-by_id f.id run.version_id run.now t (release run up f s').0.store active in
      let owned = claim_function-owner run up owner_type owner_id s.store f claimed in
      let gf : record f { active_version_id = some run.version_id } ≡ g =
        ap (λ (x : Function × Version). x.0) pair in
      let vf : new_version run up f ≡ v = ap (λ (x : Function × Version). x.1) pair in
      let same_id : f.id ≡ g.id = ap (λ (x : Function). x.id) gf in
      (
        owner_type,
        owner_id,
        row,
        resolved,
        sym (ap (λ (x : Function). x.owner_type) gf) ∙ owned.0,
        sym (ap (λ (x : Function). x.owner_id) gf) ∙ owned.1,
        subst (λ (i : Bytes). by_id i (publish run up owner s).0.store ≡ some row) same_id
            (ap (by_id f.id) (ap store_of all) ∙ there),
        names ∙ ap (λ (x : Version). some x.id) vf,
        sym (ap (λ (x : Version). x.function_id) vf) ∙ same_id,
        ap blobs_of all
            ∙ kept
            ∙ blobs
            ∙ ap (λ (x : Version). bundle_blob_key x.bundle_hash ∷ s.blobs) vf,
      )
]
