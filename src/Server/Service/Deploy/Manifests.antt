-- ===== src/Server/Service/Deploy/Manifests.antt =====
-- What the manifest of a deploy has passed, and where its parts come from.
use funcbox.Prelude.{
  str_eq, str_eq_iff, is_empty, Bool, true, false, not, ◌&&◌, Bytes, codes, some, Result, ok, err,
  ◌>>=◌, ◌≡◌, ◌⊎◌, refl, sym, ◌∙◌, arith, Bool-cases, Result-cases, inl, inr, >>=-eq-ok, reject_if,
  ok-injective,
}
use mathlib.Core.Path.{subst}
use funcbox.Prelude.Maps.{Map, get}
use funcbox.Manifest.{Manifest}
use funcbox.Manifest.Validate.{validate}
use funcbox.Manifest.Parse.{parse}
use funcbox.Manifest.Main.{resolve_main, resolve_main-present}
use funcbox.Server.Service.Access.{ServiceError, OrgRules, bad_request, map_manifest_err}
use funcbox.Server.Service.Deploy.{
  Outside, DeployParams, check_manifest, lift, agreed_name, means_workspace,
  declared_visibility_text, imports_node_core,
}

pub lift-ok :
    {E : Type 0} {A : Type 0} (f : E → ServiceError) (r : Result E A) {a : A}
    → lift f r ≡ ok a
    → r ≡ ok a
unfolding lift
lift-ok f (ok x) h = cc
lift-ok f (err e) h = cc

reject_if-ok : (b : Bool) (e : ServiceError) {t : Unit {0}} → reject_if b e ≡ ok t → b ≡ false
reject_if-ok true e h = cc
reject_if-ok false e h = refl

-- check_manifest from the manifest with its name on
abbrev rest_of : Outside → OrgRules → Map Bytes → Manifest → Result ServiceError Manifest
rest_of out org files m = lift map_manifest_err (validate (some m)) >>= λ t.
    reject_if
      (org.open_mode
        && means_workspace (declared_visibility_text m.visibility org.default_visibility))
      (bad_request (codes "workspace_visibility_disabled"))
    >>= λ t.
        lift (λ e. bad_request (codes "main_not_found")) (resolve_main m.main files)
        >>= λ main_path.
            reject_if (not m.nodejs && imports_node_core out.find_specs files)
              (bad_request (codes "node_core_import"))
            >>= λ t. ok (record m { main = main_path })

-- The name of a manifest that is deployed: not empty, and the one that the manifest and the request
-- give, where they give one.
abbrev pub Agreed : Bytes → Bytes → Bytes → Type 0
Agreed of_manifest of_request name =
    (is_empty name ≡ false)
    × ((is_empty of_manifest ≡ true) ⊎ (of_manifest ≡ name))
    × ((is_empty of_request ≡ true) ⊎ (of_request ≡ name))

-- A manifest that is stored, by where it comes from and what it passed. Before its main file is resolved
-- it is the one that Parse reads from the files, with the agreed name.
pub record IsChecked (out : Outside) (org : OrgRules) (p : DeployParams) (files : Map Bytes)
    (m : Manifest) : Type 0 where
  pub parsed : Manifest
  pub read : parse out.decoders files ≡ ok parsed
  pub named : Agreed parsed.name p.name m.name
  pub kept : m ≡ record parsed { name = m.name; main = m.main }
  pub valid : validate (some (record parsed { name = m.name })) ≡ ok tt
  pub visible :
      (org.open_mode
        && means_workspace (declared_visibility_text m.visibility org.default_visibility))
      ≡ false
  pub main : resolve_main parsed.main files ≡ ok m.main
  pub present : (content : Bytes) × (get m.main files ≡ some content)
  pub no_imports : (not m.nodejs && imports_node_core out.find_specs files) ≡ false

agreed_name-Agreed :
    (of_manifest of_request name : Bytes)
    → agreed_name of_manifest of_request ≡ ok name
    → Agreed of_manifest of_request name
unfolding agreed_name
agreed_name-Agreed a b name h = elim (Bool-cases (is_empty a)) [
  | inl no_a ↦ elim (Bool-cases (is_empty b)) [
    | inl no_b ↦ absurd (ground arith)
    | inr has_b ↦
        let q : b ≡ name = ok-injective {E = ServiceError} (ground arith) in
        (subst (λ (x : Bytes). is_empty x ≡ false) q has_b, inl no_a, inr q)
  ]
  | inr has_a ↦ elim (Bool-cases (is_empty b)) [
    | inl no_b ↦
        let q : a ≡ name = ok-injective {E = ServiceError} (ground arith) in
        (subst (λ (x : Bytes). is_empty x ≡ false) q has_a, inr q, inl no_b)
    | inr has_b ↦ elim (Bool-cases (str_eq a b)) [
      | inr differ ↦ absurd (ground arith)
      | inl same ↦
          let q : a ≡ name = ok-injective {E = ServiceError} (ground arith) in
          (
            subst (λ (x : Bytes). is_empty x ≡ false) q has_a,
            inr q,
            inr (sym ((str_eq_iff a b).0 same) ∙ q),
          )
    ]
  ]
]

check_named :
    (out : Outside) (org : OrgRules) (p : DeployParams) (files : Map Bytes) (parsed m : Manifest)
    (name : Bytes)
    → parse out.decoders files ≡ ok parsed
    → agreed_name parsed.name p.name ≡ ok name
    → rest_of out org files (record parsed { name = name }) ≡ ok m
    → IsChecked out org p files m
check_named out org p files parsed m name read agreed h =
    let before : Manifest = record parsed { name = name } in
    let (v, valid, h1) = >>=-eq-ok (lift map_manifest_err (validate (some before))) _ h in
    let (o, visible, h2) =
      >>=-eq-ok
        (reject_if
          (org.open_mode
            && means_workspace (declared_visibility_text before.visibility org.default_visibility))
          (bad_request (codes "workspace_visibility_disabled")))
        _ h1 in
    let (path, found, h3) =
      >>=-eq-ok (lift (λ e. bad_request (codes "main_not_found")) (resolve_main before.main files))
        _ h2 in
    let (i, no_imports, h4) =
      >>=-eq-ok
        (reject_if (not before.nodejs && imports_node_core out.find_specs files)
          (bad_request (codes "node_core_import")))
        _ h3 in
    let main : resolve_main parsed.main files ≡ ok path =
      lift-ok (λ e. bad_request (codes "main_not_found")) (resolve_main before.main files) found in
    let there = resolve_main-present parsed.main files main in
    subst (IsChecked out org p files) (ok-injective h4) (record {
      parsed = parsed;
      read = read;
      named = agreed_name-Agreed parsed.name p.name name agreed;
      kept = refl;
      valid = lift-ok map_manifest_err (validate (some before)) valid;
      visible = reject_if-ok _ _ visible;
      main = main;
      present = there.0;
      no_imports = reject_if-ok _ _ no_imports;
    })

pub check_manifest-IsChecked :
    (out : Outside) (org : OrgRules) (p : DeployParams) (files : Map Bytes) (m : Manifest)
    → check_manifest out org p files ≡ ok m
    → IsChecked out org p files m
unfolding check_manifest
check_manifest-IsChecked out org p files m h =
    elim (Result-cases (lift map_manifest_err (parse out.decoders files))) [
      | inr (x, e) ↦ absurd (ground arith)
      | inl (parsed, e) ↦ elim (Result-cases (agreed_name parsed.name p.name)) [
        | inr (x, n) ↦ absurd (ground arith)
        | inl (name, n) ↦
            check_named out org p files parsed m name
              (lift-ok map_manifest_err (parse out.decoders files) e) n (ground arith)
      ]
    ]
