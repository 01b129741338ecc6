-- ===== src/Server/Oauth/Grants/Absent.antt =====
-- A secret that no row has comes back only if it is minted again.
use funcbox.Prelude.{
  ℕ, Bool, false, not, ◌&&◌, Bytes, str_eq, str_eq_iff, [], ◌∷◌, any, none, ok, err, ◌≡◌, ◌≢◌, refl,
  ap, ◌∙◌, arith, ok-injective, Bool-cases, inl, inr,
}
use mathlib.Core.Path.{subst}
use funcbox.Server.Oauth.Grants.{
  OauthGrant, GrantTable, StoreError, conflict, has_id, has_secret, create, touched, update_where,
  touch, is_current, rotated, rotate, by_hash,
}
use funcbox.Server.Oauth.Grants.Unique.{
  create-ok, any-update_where, any-update_where-false, any-weaker, IsUnique, update_where-IsUnique,
}
use funcbox.Server.Oauth.Grants.Rotation.{rotate-ok, update-IsUnique}

abbrev pub Absent : Bytes → GrantTable → Type 0
Absent h t = any (has_secret h) t ≡ false

-- What a touch finds and leaves.
pub touch-ok :
    (i : Bytes) (now : ℕ) (t t' : GrantTable)
    → touch i now t ≡ ok t'
    → update_where (has_id i) (touched now) t ≡ t'
unfolding touch
touch-ok i now t t' h = elim (Bool-cases (any (has_id i) t)) [
  | inl e ↦ ok-injective {E = StoreError} (ground arith)
  | inr e ↦ absurd (ground arith)
]

pub touch-IsUnique :
    (i : Bytes) (now : ℕ) (t t' : GrantTable) → touch i now t ≡ ok t' → IsUnique t → IsUnique t'
unfolding touched
touch-IsUnique i now t t' h u =
    subst IsUnique (touch-ok i now t t' h)
      (update_where-IsUnique (has_id i) (touched now) t (λ g. (refl, refl)) u)

pub rotate-IsUnique :
    (i old new : Bytes) (now : ℕ) (t t' : GrantTable)
    → rotate i old new now t ≡ ok t'
    → IsUnique t
    → IsUnique t'
rotate-IsUnique i old new now t t' h u =
    let r = rotate-ok i old new now t t' h in
    subst IsUnique (r.2) (update-IsUnique i old new now t (r.1) u)

module _ (h : Bytes) where
  pub differs : (x : Bytes) → x ≢ h → str_eq x h ≡ false
  differs x n = elim (Bool-cases (str_eq x h)) [
    | inl e ↦ absurd (n ((str_eq_iff x h).0 e))
    | inr e ↦ e
  ]

  in_front :
      (row : OauthGrant) (t : GrantTable)
      → str_eq row.secret_hash h ≡ false
      → Absent h t
      → Absent h (row ∷ t)
  unfolding has_secret
  in_front row t d a = ground arith

  pub create-Absent :
      (g : OauthGrant) (known : Bool) (now : ℕ) (t t' : GrantTable)
      → g.secret_hash ≢ h
      → create g known now t ≡ ok t'
      → Absent h t
      → Absent h t'
  create-Absent g known now t t' n made a =
      let (row, same_id, same, e, no_id, no_secret) = create-ok g known now t t' made in
      subst (Absent h) e
        (in_front row t (ap (λ (x : Bytes). str_eq x h) same ∙ differs g.secret_hash n) a)

  pub rotate-Absent :
      (i old new : Bytes) (now : ℕ) (t t' : GrantTable)
      → new ≢ h
      → rotate i old new now t ≡ ok t'
      → Absent h t
      → Absent h t'
  unfolding rotated has_secret
  rotate-Absent i old new now t t' n swapped a =
      let r = rotate-ok i old new now t t' swapped in
      subst (Absent h) (r.2) (
        any-update_where-false (has_secret h) (is_current i old) (rotated old new now) t
          (any-weaker (has_secret h) (λ g. not (is_current i old g) && has_secret h g) t
            (λ g e. ground arith) a)
          (λ g e. differs new n))

  pub touch-Absent :
      (i : Bytes) (now : ℕ) (t t' : GrantTable) → touch i now t ≡ ok t' → Absent h t → Absent h t'
  unfolding touched has_secret
  touch-Absent i now t t' done a =
      subst (Absent h) (touch-ok i now t t' done)
        (any-update_where (has_secret h) (has_id i) (touched now) t (λ g e. refl) ∙ a)

  pub by_hash-Absent : (t : GrantTable) → Absent h t → by_hash h t ≡ none
  unfolding by_hash
  by_hash-Absent [] a = refl
  by_hash-Absent (g ∷ t) a = ground (arith, by_hash-Absent t)

  -- A rotation of it is refused, of whichever grant.
  pub rotate-refused :
      (i new : Bytes) (now : ℕ) (t : GrantTable) → Absent h t → rotate i h new now t ≡ err conflict
  unfolding rotate is_current
  rotate-refused i new now t a =
      let e : any (is_current i h) t ≡ false =
        any-weaker (has_secret h) (is_current i h) t (λ g e. ground arith) a in
      ground arith
