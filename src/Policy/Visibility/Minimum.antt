-- ===== src/Policy/Visibility/Minimum.antt =====
-- MinVisibility is the greatest lower bound, and the names of the levels are read back.
use funcbox.Prelude.{
  ◌≤◌, ◌≡◌, refl, ◌↔◌, Bytes, codes, str_eq_iff, List, [], ◌∷◌, ltb, if◌then◌else◌, ok, All, arith,
}
use funcbox.Policy.Visibility.{
  Visibility, workspace, org, public, rank, to_string, parse_visibility, narrow, min_visibility,
}

narrow_glb :
    (w v : Visibility) (vs : List Visibility)
    → (rank w ≤ rank (narrow v vs)) ↔ ((rank w ≤ rank v) × All (λ u. rank w ≤ rank u) vs)
unfolding narrow
narrow_glb w v [] = (λ h. (h, tt), λ h. h.0)
narrow_glb w v (u ∷ vs) =
    let rest = narrow_glb w (if ltb (rank u) (rank v) then u else v) vs in
    (
      λ h. (ground (arith, (rest.0 h).0), (ground (arith, (rest.0 h).0), (rest.0 h).1)),
      λ h. rest.1 (ground arith, h.1.1),
    )

-- A level is at most the minimum of some levels exactly when it is at most each of them.
pub min_visibility_glb :
    (w v : Visibility) (vs : List Visibility)
    → (rank w ≤ rank (min_visibility (v ∷ vs))) ↔ All (λ u. rank w ≤ rank u) (v ∷ vs)
unfolding min_visibility
min_visibility_glb w v vs = narrow_glb w v vs

-- A text is read as a level exactly when it is the level's name.
pub parse_visibility_iff :
    (s : Bytes) (v : Visibility) → (parse_visibility s ≡ ok v) ↔ (s ≡ to_string v)
unfolding parse_visibility to_string
parse_visibility_iff s v = (λ h. read v h, λ e. rw e (printed v))
  where
    read : (v : Visibility) → parse_visibility s ≡ ok v → s ≡ to_string v
    read workspace h = ground (
      arith,
      str_eq_iff s (codes "public"),
      str_eq_iff s (codes "org"),
      str_eq_iff s (codes "workspace"),
    )
    read org h = ground (
      arith,
      str_eq_iff s (codes "public"),
      str_eq_iff s (codes "org"),
      str_eq_iff s (codes "workspace"),
    )
    read public h = ground (
      arith,
      str_eq_iff s (codes "public"),
      str_eq_iff s (codes "org"),
      str_eq_iff s (codes "workspace"),
    )

    printed : (v : Visibility) → parse_visibility (to_string v) ≡ ok v
    printed workspace = refl
    printed org = refl
    printed public = refl
