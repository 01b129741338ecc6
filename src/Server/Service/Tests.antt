-- ===== src/Server/Service/Tests.antt =====
-- Runs of deploys and of the functions' tables, and their theorems at concrete inputs.
use funcbox.Prelude.{
  ℕ, ◌≤◌, ◌≡◌, ◌≢◌, ◌⊎◌, refl, Bool, true, false, ◌&&◌, Bytes, codes, [], ◌∷◌, none, some, ok,
  arith,
}
use funcbox.Manifest.Size.{FloatOps}
use funcbox.Bundle.Unpack.{type_reg}
use funcbox.Server.Service.Deploy.{Outside, DeployParams, deploy}
use funcbox.Server.Service.Deploy.Checked.{Passed, deploy_checks}
use funcbox.Go.Strconv.{ℤ, pos, atoi}
use funcbox.Server.Authz.{role_member, is_workspace}
use funcbox.Server.Functions.Tables.{Function, FunctionStore, Version, count, in_scope, same_owner}
use funcbox.Server.Functions.{create, by_name, by_id, delete}
use funcbox.Server.Functions.Changes.{unchanged, created, deleted}
use funcbox.Server.Functions.Quota.{Changes-within}
use funcbox.Server.Functions.Claims.{name_stays}
use funcbox.Server.Service.Access.{Site, missing, found, resolve_owner, owner_type_user}
use funcbox.Server.Service.Publish.{Run, Upload, DeployState, publish, bundle_blob_key}
use funcbox.Server.Service.Publish.Rights.{MayDeploy}
use funcbox.Server.Service.Publish.Spared.{publish_rights}
use funcbox.Server.Service.Publish.Activation.{publish_activates}

abbrev empty_store : FunctionStore
empty_store = record { functions = []; names = []; versions = []; env_vars = []; logs = [] }

abbrev hello : Function
hello = record {
  id = codes "f1";
  owner_type = owner_type_user;
  owner_id = codes "u1";
  name = codes "hello";
  description = [];
  active_version_id = none;
  created_by = some (codes "u1");
  created_at = 0;
  updated_at = 0;
}

abbrev with_hello : FunctionStore
with_hello = record {
  functions = hello ∷ [];
  names =
      record {
        name = codes "hello";
        function_id = codes "f1";
        active = true;
        claimed_at = 0;
        released_at = none;
      }
      ∷ [];
  versions = [];
  env_vars = [];
  logs = [];
}

create_run : create hello 1 true 0 empty_store ≡ ok with_hello
unfolding create
create_run = refl

Changes-within_example : count (in_scope hello) with_hello.functions ≤ 1
unfolding count
Changes-within_example =
    Changes-within hello 1 (omega arith) (created hello 1 true 0 (λ e. refl) create_run unchanged)
      (omega arith)

name_stays_example :
    ((g : Function)
      → by_name (codes "hello") (delete (codes "f1") 0 with_hello) ≡ some g
      → g.id ≡ codes "f1")
    × ((g : Function) (limit : ℕ) (known : Bool) (now : ℕ) (v : FunctionStore)
        → g.name ≡ codes "hello"
        → create g limit known now (delete (codes "f1") 0 with_hello) ≢ ok v)
unfolding delete
name_stays_example =
    name_stays hello 1 true 0 empty_store with_hello (delete (codes "f1") 0 with_hello) create_run
      (deleted 5 (codes "f1") 0 unchanged)

abbrev one_user : Site
one_user = record {
  public_user_id = λ i. found (codes "u1");
  workspace = λ i. missing;
  members = λ i. none;
}

abbrev first_run : Run
first_run = record {
  site = one_user;
  org = record {
    open_mode = false;
    default_visibility = [];
    allow_nodejs_compat = false;
    allow_user_functions = true;
    max_functions_per_user = pos 3;
  };
  actor = record { user_id = codes "u1"; role = role_member };
  function_id = codes "f1";
  version_id = codes "v1";
  fails = λ c. false;
  known = true;
  now = 0;
}

abbrev hello_upload : Upload
hello_upload = record {
  name = codes "hello";
  description = [];
  manifest = codes "{}";
  main_path = codes "index.js";
  bundle_hash = codes "h";
  bundle_size = 1;
  unpacked_size = 2;
  files = codes "[]";
  note = [];
}

abbrev nothing_deployed : DeployState
nothing_deployed = record { store = empty_store; blobs = []; invalidated = [] }

abbrev hello_version : Version
hello_version = record {
  id = codes "v1";
  function_id = codes "f1";
  manifest = codes "{}";
  main_path = codes "index.js";
  bundle_hash = codes "h";
  bundle_size = 1;
  unpacked_size = 2;
  files = codes "[]";
  created_by = codes "u1";
  note = [];
  created_at = 0;
  updated_at = 0;
}

publish_run :
    (publish first_run hello_upload (codes "alice") nothing_deployed).1
    ≡ ok (record hello { active_version_id = some (codes "v1") }, hello_version)
unfolding publish
publish_run = refl

-- Another user's function is there before.
abbrev other_function : Function
other_function = record hello {
  id = codes "f0";
  name = codes "other";
  owner_id = codes "u2";
  created_by = some (codes "u2");
}

abbrev other_deployed : DeployState
other_deployed = record nothing_deployed {
  store = record empty_store { functions = other_function ∷ [] };
}

publish_rights_example :
    ((publish first_run hello_upload (codes "alice") other_deployed).0 ≡ other_deployed)
    ⊎ ((owner_type owner_id : Bytes) × (resolve_owner one_user (codes "alice")
          ≡ ok (owner_type, owner_id))
        × (false && is_workspace owner_type ≡ false)
        × MayDeploy one_user first_run.org first_run.actor owner_type owner_id
        × ((by_id (codes "f0") other_deployed.store ≡ none)
            ⊎ ((by_id
                    (codes "f0")
                    (publish first_run hello_upload (codes "alice") other_deployed).0.store
                  ≡ by_id (codes "f0") other_deployed.store)
                ⊎ ((g : Function) × (by_id (codes "f0") other_deployed.store ≡ some g)
                    × (same_owner owner_type owner_id g ≡ true)))))
publish_rights_example =
    publish_rights first_run hello_upload (codes "alice") other_deployed (codes "f0")

publish_activates_example :
    (owner_type owner_id : Bytes) × (row : Function) × (resolve_owner one_user (codes "alice")
      ≡ ok (owner_type, owner_id))
    × (owner_type_user ≡ owner_type)
    × (codes "u1" ≡ owner_id)
    × (by_id (codes "f1") (publish first_run hello_upload (codes "alice") nothing_deployed).0.store
        ≡ some row)
    × (row.active_version_id ≡ some (codes "v1"))
    × (codes "f1" ≡ codes "f1")
    × ((publish first_run hello_upload (codes "alice") nothing_deployed).0.blobs
        ≡ bundle_blob_key (codes "h") ∷ [])
publish_activates_example =
    publish_activates first_run hello_upload (codes "alice") nothing_deployed
      (record hello { active_version_id = some (codes "v1") }) hello_version publish_run

abbrev natural_floats : FloatOps
natural_floats = record {
  Float = ℤ;
  parse_float = atoi;
  is_negative = λ x. false;
  scaled = λ x n. pos n;
}

-- Decoders that find no manifest, and writers that write nothing.
abbrev outside : Outside
outside = record {
  decoders = record { unmarshal = λ b. none; parse_duration = λ b. none; floats = natural_floats };
  duration_string = λ d. [];
  manifest_json = λ m. codes "{}";
  files_json = λ fs. codes "[]";
  find_specs = λ source. [];
  write_archive = λ es. some [];
  hash = λ b. codes "h";
}

abbrev hello_request : DeployParams
hello_request = record {
  bundle = record {
    entries =
        record {
          name = codes "index.js";
          typeflag = type_reg;
          contents = codes "1";
          readable = true;
        }
        ∷ [];
    ends_well = true;
  };
  owner = codes "alice";
  name = codes "hello";
  note = [];
  dry_run = false;
  actor = some first_run.actor;
}

deploy_run :
    (deploy outside first_run missing hello_request nothing_deployed).0.blobs
    ≡ codes "bundles/sha256/h.tar.gz" ∷ []
unfolding deploy
deploy_run = refl

deploy_checks_example :
    ((deploy outside first_run missing hello_request nothing_deployed).0 ≡ nothing_deployed)
    ⊎ Passed outside first_run missing hello_request nothing_deployed
deploy_checks_example = deploy_checks outside first_run missing hello_request nothing_deployed
