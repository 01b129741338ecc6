-- ===== src/Server/Service/Deploy/Checked.antt =====
-- What a deploy has checked before it writes, and what it then writes.
use funcbox.Prelude.{
  str_eq, is_empty, Option-cases, false, Bytes, Option, some, ok, ◌≡◌, ◌⊎◌, ap, ◌∙◌, arith,
  Bool-cases, Result-cases, inl, inr, ok-injective,
}
use mathlib.Core.Path.{subst}
use funcbox.Prelude.Maps.{Map}
use funcbox.Manifest.{Manifest}
use funcbox.Bundle.Unpack.{unpack}
use funcbox.Bundle.Unpack.Limits.{IsUnpacked, unpack-IsUnpacked}
use funcbox.Server.Service.Access.{ServiceError, OrgRules, Read}
use funcbox.Go.Strings.{to_lower}
use funcbox.Manifest.Validate.{validate_user_id}
use funcbox.Bundle.Pack.{pack}
use funcbox.Server.Authz.{Actor}
use funcbox.Server.Service.Publish.{Run, DeployState, publish}
use funcbox.Server.Service.Deploy.{
  Outside, DeployParams, check, check_manifest, check_request, load_org_rules, deploy,
  deploy_checked, as_actor, upload_of, lift, map_bundle_err,
}
use funcbox.Server.Service.Deploy.Manifests.{IsChecked, lift-ok, check_manifest-IsChecked}

pub check-ok :
    (out : Outside) (org_read : Read (Option OrgRules)) (p : DeployParams) (org : OrgRules)
    (files : Map Bytes) (m : Manifest)
    → check out org_read p ≡ ok (org, files, m)
    → (check_request p ≡ ok tt)
      × (load_org_rules org_read ≡ ok org)
      × (unpack p.bundle ≡ ok files)
      × (check_manifest out org p files ≡ ok m)
unfolding check
check-ok out org_read p org files m h = elim (Result-cases (check_request p)) [
  | inr (x, a) ↦ absurd (ground arith)
  | inl (tt, a) ↦ elim (Result-cases (load_org_rules org_read)) [
    | inr (x, b) ↦ absurd (ground arith)
    | inl (org', b) ↦ elim (Result-cases (lift map_bundle_err (unpack p.bundle))) [
      | inr (x, c) ↦ absurd (ground arith)
      | inl (files', c) ↦ elim (Result-cases (check_manifest out org' p files')) [
        | inr (x, d) ↦ absurd (ground arith)
        | inl (m', d) ↦
            let q : ◌≡◌ {A = OrgRules × Map Bytes × Manifest} (org', files', m') (org, files, m) =
              ok-injective {E = ServiceError} (ground arith) in
            subst
              (λ (w : OrgRules × Map Bytes × Manifest).
                (check_request p ≡ ok tt)
                × (load_org_rules org_read ≡ ok w.0)
                × (unpack p.bundle ≡ ok w.1)
                × (check_manifest out w.0 p w.1 ≡ ok w.2))
              q (a, b, lift-ok map_bundle_err (unpack p.bundle) c, d)
      ]
    ]
  ]
]

-- What a deploy has checked of its request: an owner that is given and is a User ID or holds a capital
-- letter, and an actor.
abbrev pub Asked : DeployParams → Actor → Type 0
Asked p a =
    (is_empty p.owner ≡ false)
    × (p.actor ≡ some a)
    × ((validate_user_id p.owner ≡ ok tt) ⊎ (str_eq p.owner (to_lower p.owner) ≡ false))

check_request-Asked :
    (p : DeployParams) → p.dry_run ≡ false → check_request p ≡ ok tt → (a : Actor) × Asked p a
unfolding check_request
check_request-Asked p real h = elim (Bool-cases (is_empty p.owner)) [
  | inl e ↦ absurd (ground arith)
  | inr given ↦ elim (Option-cases (p.actor)) [
    | inl n ↦ absurd (ground arith)
    | inr (a, n) ↦ elim (Result-cases (validate_user_id p.owner)) [
      | inl (t, v) ↦ (a, (given, n, inl v))
      | inr (x, v) ↦ elim (Bool-cases (str_eq p.owner (to_lower p.owner))) [
        | inl same ↦ absurd (ground arith)
        | inr other ↦ (a, (given, n, inr other))
      ]
    ]
  ]
]

-- What a deploy for the checked manifest leaves: nothing is written, or what Publish leaves for it.
deploy_checked-cases :
    (out : Outside) (run : Run) (p : DeployParams) (files : Map Bytes) (m : Manifest)
    (s : DeployState)
    → ((deploy_checked out run p files m s).0 ≡ s)
      ⊎ ((p.dry_run ≡ false)
          × ((packed : Bytes) × (pack out.write_archive files ≡ some packed)
              × ((deploy_checked out run p files m s).0
                  ≡ (publish run (upload_of out p m files packed) p.owner s).0)))
unfolding deploy_checked
deploy_checked-cases out run p files m s = elim (Bool-cases (p.dry_run)) [
  | inl d ↦ inl (ground arith)
  | inr d ↦ elim (Option-cases (pack out.write_archive files)) [
    | inl e ↦ inl (ground arith)
    | inr (packed, e) ↦
        elim (Result-cases ((publish run (upload_of out p m files packed) p.owner s).1)) [
          | inl (r, w) ↦ inr (d, (packed, e, ground arith))
          | inr (x, w) ↦ inr (d, (packed, e, ground arith))
        ]
  ]
]

-- It is no dry run, and everything that is written is what publishing a checked manifest writes.
abbrev pub Passed : Outside → Run → Read (Option OrgRules) → DeployParams → DeployState → Type 0
Passed out run org_read p s =
    (p.dry_run ≡ false)
    × ((a : Actor) × (org : OrgRules) × (files : Map Bytes) × (m : Manifest) × (packed : Bytes)
        × Asked p a
        × (load_org_rules org_read ≡ ok org)
        × IsUnpacked p.bundle.entries files
        × IsChecked out org p files m
        × (pack out.write_archive files ≡ some packed)
        × ((deploy out run org_read p s).0
            ≡ (publish (record run { org = org; actor = a }) (upload_of out p m files packed)
                p.owner s).0))

-- A deploy leaves the tables, the blobs and the pools as they are, or it is no dry run, its request has
-- an owner and an actor, and it passed every check: its archive has only directories and files, under
-- safe paths and within the limits; the manifest is the one that Parse reads from them, with the name on
-- which it and the request agree and the main file that the bundle has for it, and it is valid, not
-- visible to a workspace in open mode, and without imports of Node's core where it does not ask for
-- Node. What is then written is what publishing this manifest and these files, packed, writes for this
-- owner and actor.
pub deploy_checks :
    (out : Outside) (run : Run) (org_read : Read (Option OrgRules)) (p : DeployParams)
    (s : DeployState)
    → ((deploy out run org_read p s).0 ≡ s) ⊎ Passed out run org_read p s
unfolding deploy as_actor
deploy_checks out run org_read p s = elim (Result-cases (check out org_read p)) [
  | inr (x, e) ↦ inl (ground arith)
  | inl ((org, files, m), e) ↦
      let (asked, loaded, unpacked, checked) = check-ok out org_read p org files m e in
      let whole : (deploy out run org_read p s).0
          ≡ (deploy_checked out (as_actor run org p.actor) p files m s).0 =
        ground arith in
      elim (deploy_checked-cases out (as_actor run org p.actor) p files m s) [
        | inl d ↦ inl (whole ∙ d)
        | inr (d, (packed, archive, left)) ↦
            let (a, given) = check_request-Asked p d asked in
            inr (
              d,
              (
                a,
                org,
                files,
                m,
                packed,
                given,
                loaded,
                unpack-IsUnpacked p.bundle files unpacked,
                check_manifest-IsChecked out org p files m checked,
                archive,
                whole
                    ∙ left
                    ∙ ap
                        (λ (o : Option Actor).
                          (publish (as_actor run org o) (upload_of out p m files packed) p.owner
                            s).0)
                        (given.1),
              ),
            )
      ]
]
