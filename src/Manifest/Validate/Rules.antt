-- ===== src/Manifest/Validate/Rules.antt =====
-- What Validate accepts.
use funcbox.Prelude.{
  ◌≤◌, ◌≡◌, ◌≢◌, refl, ◌↔◌, ◌⊎◌, inl, inr, true, false, not, Bytes, str_eq, str_eq_iff, List, [],
  ◌∷◌, ltb, All, arith, ok, err, ◌>>◌, if◌then◌else◌, some, if_err_iff, >>-eq-ok_iff, reject_if,
  reject_if_iff, not-false_iff, not_ltb→le, le→not_ltb,
}
use funcbox.Go.Chars.{is_lower_alnum}
use funcbox.Go.Utf8.{rune_count}
use funcbox.Labels.Matching.{LabelMatch, dns_label_iff}
use funcbox.Manifest.Reserved.{is_reserved, in_set}
use funcbox.Manifest.Validate.{
  name_re, is_valid_env_key, validate_dns_label, validate_env_from, validate_env, validate_owner,
  validate_present, validate, max_description_length,
}
use funcbox.Manifest.{
  Manifest, ManifestError, invalid_name, invalid_owner, reserved_name, description_too_long,
}

-- A name that matches nameRE and is not reserved.
abbrev pub IsName : Bytes → Type 0
IsName s = LabelMatch is_lower_alnum s × (is_reserved s ≡ false)

-- Valid keys, none of them in `seen` and none twice.
abbrev pub FreshKeys : List Bytes → List Bytes → Type 0
FreshKeys seen [] = Unit
FreshKeys seen (key ∷ env) =
    (is_valid_env_key key ≡ true) × All (λ s. s ≢ key) seen × FreshKeys (key ∷ seen) env

pub record IsValid (m : Manifest) : Type 0 where
  pub name : IsName m.name
  pub owner : (m.owner ≡ []) ⊎ IsName m.owner
  pub description : rune_count m.description ≤ max_description_length
  pub env : FreshKeys [] m.env

pub validate_dns_label_iff :
    (s : Bytes) (e : ManifestError) → (validate_dns_label s e ≡ ok tt) ↔ IsName s
unfolding validate_dns_label name_re
validate_dns_label_iff s e =
    let label = dns_label_iff is_lower_alnum s in
    let tests =
      if_err_iff (not (name_re s)) e (if is_reserved s then err reserved_name else ok tt) in
    let free = if_err_iff (is_reserved s) reserved_name (ok tt) in
    (
      λ h. (label.0 ((not-false_iff (name_re s)).0 (tests.0 h).0), (free.0 (tests.0 h).1).0),
      λ (m, r). tests.1 ((not-false_iff (name_re s)).1 (label.1 m), free.1 (r, refl)),
    )

in_set_iff : (ns : List Bytes) (key : Bytes) → (in_set ns key ≡ false) ↔ All (λ s. s ≢ key) ns
unfolding in_set
in_set_iff [] key = (λ h. tt, λ h. refl)
in_set_iff (n ∷ ns) key =
    let rest = in_set_iff ns key in
    (
      λ h. ((λ e. ground (arith, str_eq_iff n key)), rest.0 (ground arith)),
      λ h. ground (arith, str_eq_iff n key, rest.1 h.1, h.0),
    )

validate_env_from_iff :
    (seen env : List Bytes) → (validate_env_from seen env ≡ ok tt) ↔ FreshKeys seen env
unfolding validate_env_from
validate_env_from_iff seen [] = (λ h. tt, λ h. refl)
validate_env_from_iff seen (key ∷ env) =
    let rest = validate_env_from_iff (key ∷ seen) env in
    let fresh = in_set_iff seen key in
    (
      λ h. (ground arith, fresh.0 (ground arith), rest.0 (ground arith)),
      λ h. rw h.0 (rw (fresh.1 h.1) (rest.1 h.2)),
    )

validate_owner_iff : (s : Bytes) → (validate_owner s ≡ ok tt) ↔ ((s ≡ []) ⊎ IsName s)
unfolding validate_owner str_eq
validate_owner_iff [] = (λ h. inl refl, λ h. refl)
validate_owner_iff (c ∷ s) = (
  λ h. inr ((validate_dns_label_iff (c ∷ s) invalid_owner).0 h),
  λ h. (validate_dns_label_iff (c ∷ s) invalid_owner).1 (named h),
)
  where
    named : ((c ∷ s) ≡ []) ⊎ IsName (c ∷ s) → IsName (c ∷ s)
    named (inl e) = absurd (ground arith)
    named (inr n) = n

-- Validate accepts exactly the manifests that keep every rule: the name and, if there is one, the
-- owner match nameRE and are not reserved, the description has at most 500 characters, and every
-- env entry matches envNameRE and occurs once.
pub validate_iff : (m : Manifest) → (validate (some m) ≡ ok tt) ↔ IsValid m
unfolding validate validate_present validate_env
validate_iff m =
    let names = validate_dns_label_iff m.name invalid_name in
    let owners = validate_owner_iff m.owner in
    let long = ltb max_description_length (rune_count m.description) in
    let short = reject_if_iff long description_too_long in
    let envs = validate_env_from_iff [] m.env in
    let last = >>-eq-ok_iff (reject_if long description_too_long) (validate_env m.env) in
    let rest =
      >>-eq-ok_iff (validate_owner m.owner)
        (reject_if long description_too_long >> validate_env m.env) in
    let all_four =
      >>-eq-ok_iff (validate_dns_label m.name invalid_name)
        (validate_owner m.owner >> (reject_if long description_too_long >> validate_env m.env)) in
    (
      λ h. record {
        name = names.0 (all_four.0 h).0;
        owner = owners.0 (rest.0 (all_four.0 h).1).0;
        description =
            not_ltb→le max_description_length (rune_count m.description)
              (short.0 (last.0 (rest.0 (all_four.0 h).1).1).0);
        env = envs.0 (last.0 (rest.0 (all_four.0 h).1).1).1;
      },
      λ v. all_four.1 (
        names.1 v.name,
        rest.1 (owners.1 v.owner, last.1 (short.1 (le→not_ltb _ _ v.description), envs.1 v.env)),
      ),
    )
