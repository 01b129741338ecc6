-- ===== src/Server/Effective/Narrowest.antt =====
-- The visibility of a function is never wider than what the levels allow.
use mathlib.Core.Path.{subst}
use funcbox.Prelude.{
  ◌≤◌, ◌≡◌, inl, inr, Bool, true, false, Bytes, List, [], ◌∷◌, Option, none, some, All, is_empty,
  Result, ok, err, >>=-eq-ok, ok-injective, if◌then◌else◌, arith, Bool-cases,
}
use funcbox.Policy.Visibility.{Visibility, rank, parse_visibility, min_visibility}
use funcbox.Policy.Visibility.Minimum.{min_visibility_glb}
use funcbox.Server.Effective.{
  Store, Row, OrgSettings, EffectiveError, load_failed, bad_visibility, or_error, as_error,
  parse_org, parse_workspace, with_workspace_max, within_workspace, declared_visibility,
  is_workspace_owner, resolve_visibility,
}

-- What resolveVisibility read, and that its answer is within it.
pub record IsWithin (st : Store) (manifest_visibility : Bytes) (v : Visibility) : Type 0 where
  pub row : Row
  pub set : OrgSettings
  pub org_max : Visibility
  pub manifest_vis : Visibility
  pub org_row : st.org_row ≡ some row
  pub parsed : parse_org st row.settings ≡ ok set
  pub max_read : parse_visibility set.max_visibility ≡ ok org_max
  pub declared : parse_visibility (declared_visibility manifest_visibility set) ≡ ok manifest_vis
  pub within_org : rank v ≤ rank org_max
  pub within_manifest : rank v ≤ rank manifest_vis

as_error-eq-ok {ℓ} :
    {E A : Type ℓ} (e : EffectiveError) (r : Result E A) {a : A} → as_error e r ≡ ok a → r ≡ ok a
unfolding as_error
as_error-eq-ok e (ok a) h = cc
as_error-eq-ok e (err x) h = cc

or_error-eq-ok {ℓ} :
    {A : Type ℓ} (e : EffectiveError) (o : Option A) {a : A} → or_error e o ≡ ok a → o ≡ some a
unfolding or_error
or_error-eq-ok e none h = cc
or_error-eq-ok e (some a) h = cc

min_within :
    (v : Visibility) (vs : List Visibility)
    → All (λ u. rank (min_visibility (v ∷ vs)) ≤ rank u) (v ∷ vs)
min_within v vs = (min_visibility_glb (min_visibility (v ∷ vs)) v vs).0 (omega arith)

with_max-within :
    (m o : Visibility) (max : Bytes) (v : Visibility)
    → with_workspace_max m o max ≡ ok v
    → (rank v ≤ rank m) × (rank v ≤ rank o)
unfolding with_workspace_max
with_max-within m o max v h = elim (Bool-cases (is_empty max)) [
  | inl e ↦
      let w = min_within m (o ∷ []) in
      subst (λ u. (rank u ≤ rank m) × (rank u ≤ rank o)) (ok-injective (rw e at h)) (w.0, (w.1).0)
  | inr e ↦
      let (x, hx, k) = >>=-eq-ok (as_error bad_visibility (parse_visibility max)) _ (rw e at h) in
      let w = min_within m (x ∷ o ∷ []) in
      subst (λ u. (rank u ≤ rank m) × (rank u ≤ rank o)) (ok-injective k) (w.0, ((w.1).1).0)
]

within_workspace-within :
    (st : Store) (owner_id : Bytes) (m o v : Visibility)
    → within_workspace st owner_id m o ≡ ok v
    → (rank v ≤ rank m) × (rank v ≤ rank o)
unfolding within_workspace
within_workspace-within st owner_id m o v h =
    let (row, _, h1) = >>=-eq-ok (or_error load_failed (st.workspace_row owner_id)) _ h in
    let (set, _, h2) = >>=-eq-ok (parse_workspace st row.settings) _ h1 in
    with_max-within m o set.max_visibility v h2

by_owner :
    (st : Store) (is_workspace : Bool) (owner_id : Bytes) (m o v : Visibility)
    → (if is_workspace then within_workspace st owner_id m o else ok (min_visibility (m ∷ o ∷ [])))
      ≡ ok v
    → (rank v ≤ rank m) × (rank v ≤ rank o)
by_owner st true owner_id m o v h = within_workspace-within st owner_id m o v h
by_owner st false owner_id m o v h =
    let w = min_within m (o ∷ []) in
    subst (λ u. (rank u ≤ rank m) × (rank u ≤ rank o)) (ok-injective h) (w.0, (w.1).0)

-- A visibility that resolveVisibility returns is at most the organization's maximum and at most what
-- the manifest declares or, where it declares nothing, the organization's default, for functions of
-- users and of workspaces.
pub resolve_visibility-IsWithin :
    (st : Store) (owner_type owner_id manifest_visibility : Bytes) (v : Visibility)
    → resolve_visibility st owner_type owner_id manifest_visibility ≡ ok v
    → IsWithin st manifest_visibility v
unfolding resolve_visibility
resolve_visibility-IsWithin st owner_type owner_id manifest_visibility v h =
    let (row, r, h1) = >>=-eq-ok (or_error load_failed st.org_row) _ h in
    let (set, p, h2) = >>=-eq-ok (parse_org st row.settings) _ h1 in
    let (org_max, x, h3) =
      >>=-eq-ok (as_error bad_visibility (parse_visibility set.max_visibility)) _ h2 in
    let (vis, y, h4) =
      >>=-eq-ok
        (as_error bad_visibility (parse_visibility (declared_visibility manifest_visibility set))) _
        h3 in
    let w = by_owner st (is_workspace_owner owner_type) owner_id vis org_max v h4 in
    record {
      row = row;
      set = set;
      org_max = org_max;
      manifest_vis = vis;
      org_row = or_error-eq-ok load_failed st.org_row r;
      parsed = p;
      max_read = as_error-eq-ok bad_visibility (parse_visibility set.max_visibility) x;
      declared =
          as_error-eq-ok bad_visibility
            (parse_visibility (declared_visibility manifest_visibility set)) y;
      within_org = w.1;
      within_manifest = w.0;
    }
