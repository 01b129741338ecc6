-- ===== src/Server/Service/Deploy.antt =====
-- server/internal/service/deploy.go: the whole of Deploy, the checks of an upload first.
pub mod Checked
pub mod Manifests
use funcbox.Prelude.{
  ℕ, ◌+◌, Bool, true, false, not, ◌&&◌, ◌||◌, Bytes, codes, str_eq, List, [], ◌∷◌, ◌++◌, map, any,
  is_empty, length, Option, none, some, Result, ok, err, ◌>>=◌, ◌>>◌, reject_if, ltb, leb,
  if◌then◌else◌,
}
use funcbox.Prelude.Maps.{Map}
use funcbox.Go.Strings.{has_suffix, to_lower}
use funcbox.Go.Strconv.{ℤ, pos}
use funcbox.Policy.Fetch.{allowlist}
use funcbox.Policy.Fetch
use funcbox.Policy.Visibility.{Visibility, workspace, parse_visibility}
use funcbox.Policy.Visibility
use funcbox.Manifest.{Manifest, ManifestError}
use funcbox.Manifest.Parse.{Decoders, parse}
use funcbox.Manifest.Validate.{validate, validate_user_id}
use funcbox.Manifest.Main.{resolve_main}
use funcbox.Manifest.Normalized.{Normalized, normalized}
use funcbox.Bundle.Paths.{BundleError}
use funcbox.Bundle.Unpack.{Archive, unpack}
use funcbox.Bundle.Pack.{PackedEntry, pack, sorted_files}
use funcbox.Server.Authz.{Actor}
use funcbox.Server.Functions.Tables.{Function, Version, FunctionStore}
use funcbox.Server.Functions.{by_name}
use funcbox.Server.Service.Access.{
  ServiceError, service_error, bad_request, internal, map_manifest_err, Read, found, missing,
  failed, OrgRules, resolve_owner,
}
use funcbox.Server.Service.Publish.{
  Run, Upload, DeployState, look_up, check_function_limit, publish,
}

-- What the code calls of other packages: the decoders of the manifest, time.Duration.String, JSON, the
-- matches of a regular expression in a source text, the archive writers, and the hex of SHA-256.
pub record Outside : Type 1 where
  pub decoders : Decoders
  pub duration_string : ℤ → Bytes
  pub manifest_json : Normalized → Bytes
  pub files_json : List (Bytes × ℕ) → Bytes
  pub find_specs : Bytes → List Bytes
  pub write_archive : List PackedEntry → Option Bytes
  pub hash : Bytes → Bytes

pub record DeployParams : Type 0 where
  pub bundle : Archive
  pub owner : Bytes
  pub name : Bytes
  pub note : Bytes
  pub dry_run : Bool
  pub actor : Option Actor

pub data Warning : Type 0 where
  no_manifest empty_allowlist nodejs_disabled : Warning
  at_limit : ℕ → ℕ → Warning

-- The Function and Version of a DeployResult, for a deploy that is no dry run
pub record DeployResult : Type 0 where
  pub released : Option (Function × Version)
  pub manifest : Normalized
  pub warnings : List Warning

abbrev pub default_org_rules : OrgRules
default_org_rules = record {
  open_mode = false;
  default_visibility = codes "org";
  allow_nodejs_compat = true;
  allow_user_functions = true;
  max_functions_per_user = pos 0;
}

-- loadOrgSettings, on what Organizations().Get and settings.ParseOrg give
unfoldable pub load_org_rules : Read (Option OrgRules) → Result ServiceError OrgRules
load_org_rules (found (some org)) = ok org
load_org_rules (found none) = err internal
load_org_rules missing = ok default_org_rules
load_org_rules failed = err internal

unfoldable pub map_bundle_err : BundleError → ServiceError
unfolding bad_request
map_bundle_err BundleError.too_large = service_error 413 (codes "too_large")
map_bundle_err BundleError.too_many_files = bad_request (codes "too_many_files")
map_bundle_err BundleError.bad_path = bad_request (codes "bad_path")
map_bundle_err BundleError.bad_entry_type = bad_request (codes "bad_entry_type")
map_bundle_err BundleError.read_failed = bad_request (codes "bad_bundle")

-- An error of another package, as one of this
unfoldable pub lift {ℓ} :
    {E : Type 0} {A : Type ℓ} → (E → ServiceError) → Result E A → Result ServiceError A
lift f (ok a) = ok a
lift f (err e) = err (f e)

-- The manifest's name, or else the request's; they must agree.
unfoldable pub agreed_name : Bytes → Bytes → Result ServiceError Bytes
unfolding str_eq bad_request
agreed_name of_manifest of_request =
    if not (is_empty of_manifest)
      && not (is_empty of_request)
      && not (str_eq of_manifest of_request)
    then err (bad_request (codes "name_mismatch"))
    else if not (is_empty of_manifest)
    then ok of_manifest
    else if not (is_empty of_request)
    then ok of_request
    else err (bad_request (codes "missing_name"))

unfoldable pub declared_visibility_text : Option Visibility → Bytes → Bytes
unfolding Visibility.to_string
declared_visibility_text none inherited = inherited
declared_visibility_text (some v) inherited = Visibility.to_string v

unfoldable pub means_workspace : Bytes → Bool
unfolding parse_visibility
means_workspace s = elim (parse_visibility s) [ ok workspace ↦ true | ok v ↦ false | err e ↦ false ]

unfoldable pub looks_like_js_module : Bytes → Bool
unfolding has_suffix
looks_like_js_module path =
    has_suffix path (codes ".js")
    || has_suffix path (codes ".mjs")
    || has_suffix path (codes ".cjs")

-- runtime.DetectNodeCoreImports and detectNodeCoreImports find one exactly where some source has a
-- match.
unfoldable pub imports_node_core : (Bytes → List Bytes) → Map Bytes → Bool
unfolding looks_like_js_module
imports_node_core find_specs files =
    any (λ f. looks_like_js_module (f.0) && not (is_empty (find_specs (f.1)))) files

unfoldable pub is_allowlist_mode : Manifest → Bool
unfolding Fetch.to_string str_eq
is_allowlist_mode m = str_eq (Fetch.to_string m.fetch.mode) (codes "allowlist")

unfoldable pub when : Bool → Warning → List Warning
when true w = w ∷ []
when false w = []

unfoldable pub build_warnings : Manifest → OrgRules → List Warning
unfolding when is_allowlist_mode
build_warnings m org =
    when (is_empty m.source) no_manifest
    ++ when (is_allowlist_mode m && is_empty m.fetch.allow) empty_allowlist
    ++ when (m.nodejs && not org.allow_nodejs_compat) nodejs_disabled

-- The checks from the unpacked files to the manifest that is stored
unfoldable pub check_manifest :
    Outside → OrgRules → DeployParams → Map Bytes → Result ServiceError Manifest
unfolding parse agreed_name validate map_manifest_err lift declared_visibility_text means_workspace
    resolve_main imports_node_core bad_request
check_manifest out org p files = lift map_manifest_err (parse out.decoders files) >>= λ parsed.
    agreed_name parsed.name p.name >>= λ name.
    (let m : Manifest = record parsed { name = name } in
      lift map_manifest_err (validate (some m)) >>= λ t.
      reject_if
        (org.open_mode
          && means_workspace (declared_visibility_text m.visibility org.default_visibility))
        (bad_request (codes "workspace_visibility_disabled"))
      >>= λ t.
          lift (λ e. bad_request (codes "main_not_found")) (resolve_main m.main files)
          >>= λ main_path.
              reject_if (not m.nodejs && imports_node_core out.find_specs files)
                (bad_request (codes "node_core_import"))
              >>= λ t. ok (record m { main = main_path }))

-- The guards before the upload is read
unfoldable pub check_request : DeployParams → Result ServiceError (Unit {0})
unfolding bad_request validate_user_id str_eq to_lower map_manifest_err
check_request p =
    reject_if (is_empty p.owner) (bad_request (codes "missing_owner"))
    >> reject_if (not p.dry_run && elim (p.actor) [ none ↦ true | some a ↦ false ])
        (service_error 401 (codes "unauthorized"))
    >> elim (validate_user_id p.owner) [
      | ok t ↦ ok tt
      | err e ↦ reject_if (str_eq p.owner (to_lower p.owner)) (map_manifest_err e)
    ]

-- functionLimitDryRunWarning, for a dry run with an actor
unfoldable pub dry_run_warning : Run → Bytes → Bytes → FunctionStore → List Warning
unfolding resolve_owner by_name check_function_limit
dry_run_warning run owner name s = elim (resolve_owner run.site owner) [
  | err e ↦ []
  | ok (owner_type, owner_id) ↦ if run.fails look_up then [] else elim (by_name name s) [
    | some f ↦ []
    | none ↦ elim (check_function_limit run owner_type owner_id s) [
      | err e ↦ []
      | ok (current, limit) ↦
          if leb limit 0 || ltb current limit then [] else at_limit current limit ∷ []
    ]
  ]
]

unfoldable pub total_size : Map Bytes → ℕ
total_size [] = 0
total_size (f ∷ fs) = length (f.1) + total_size fs

-- bundleFilesMeta
unfoldable pub bundle_files_meta : Map Bytes → List (Bytes × ℕ)
unfolding sorted_files
bundle_files_meta files = map (λ f. (f.0, length (f.1))) (sorted_files files)

unfoldable pub upload_of : Outside → DeployParams → Manifest → Map Bytes → Bytes → Upload
unfolding normalized total_size bundle_files_meta
upload_of out p m files packed = record {
  name = m.name;
  description = m.description;
  manifest = out.manifest_json (normalized out.duration_string m);
  main_path = m.main;
  bundle_hash = out.hash packed;
  bundle_size = length packed;
  unpacked_size = total_size files;
  files = out.files_json (bundle_files_meta files);
  note = p.note;
}

-- Deploy for an upload that passed its checks
unfoldable pub deploy_checked :
    Outside
    → Run
    → DeployParams
    → Map Bytes
    → Manifest
    → DeployState
    → DeployState × Result ServiceError DeployResult
unfolding build_warnings normalized dry_run_warning pack upload_of publish
deploy_checked out run p files m s =
    let warnings : List Warning = build_warnings m run.org in
    let stored : Normalized = normalized out.duration_string m in
    if p.dry_run
    then (
      s,
      ok (record {
        released = none;
        manifest = stored;
        warnings =
            warnings
            ++ elim (p.actor) [ none ↦ [] | some a ↦ dry_run_warning run p.owner m.name s.store ];
      }),
    )
    else elim (pack out.write_archive files) [
      | none ↦ (s, err internal)
      | some packed ↦
          let w = publish run (upload_of out p m files packed) p.owner s in
          elim (w.1) [
            | err e ↦ (w.0, err e)
            | ok r ↦
                (w.0, ok (record { released = some r; manifest = stored; warnings = warnings }))
          ]
    ]

-- The actor of the run is that of the request; where there is none no part of the run reads it.
unfoldable pub as_actor : Run → OrgRules → Option Actor → Run
as_actor run org none = record run { org = org }
as_actor run org (some a) = record run { org = org; actor = a }

-- What is checked before anything is written: the settings, the files and the manifest
unfoldable pub check :
    Outside
    → Read (Option OrgRules)
    → DeployParams
    → Result ServiceError (OrgRules × Map Bytes × Manifest)
unfolding check_request load_org_rules unpack map_bundle_err check_manifest lift
check out org_read p = check_request p >>= λ t. load_org_rules org_read >>= λ org.
    lift map_bundle_err (unpack p.bundle) >>= λ files.
    check_manifest out org p files >>= λ m. ok (org, files, m)

unfoldable pub deploy :
    Outside
    → Run
    → Read (Option OrgRules)
    → DeployParams
    → DeployState
    → DeployState × Result ServiceError DeployResult
unfolding check deploy_checked as_actor
deploy out run org_read p s = elim (check out org_read p) [
  | err e ↦ (s, err e)
  | ok (org, files, m) ↦ deploy_checked out (as_actor run org p.actor) p files m s
]
