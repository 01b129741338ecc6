-- ===== src/Server/Oauth/Grants/Rotation.antt =====
-- What the compare-and-swap of Rotate does to the secrets of the table.
use funcbox.Prelude.{
  ℕ, Bool, true, false, not, ◌&&◌, Bytes, str_eq, str_eq_iff, str_eq_refl, [], ◌∷◌, any, is_empty,
  ok, err, ◌≡◌, refl, sym, ap, Bool-cases, inl, inr, ◌∙◌, arith, if◌then◌else◌, if_err_iff,
  ok-injective, not-false_iff,
}
use mathlib.Core.Path.{subst}
use funcbox.Server.Oauth.Grants.{
  OauthGrant, GrantTable, conflict, has_id, has_secret, update_where, delete_where, is_current,
  rotated, takes_secret, rotate, retired,
}
use funcbox.Server.Oauth.Grants.Unique.{
  IsUnique, any-update_where, any-update_where-false, update_where_none, any-weaker,
}

pub any-both :
    (p q : OauthGrant → Bool) (t : GrantTable)
    → any (λ g. not (p g) && q g) t ≡ false
    → any p t ≡ false
    → any q t ≡ false
any-both p q [] a b = refl
any-both p q (g ∷ t) a b = ground (arith, any-both p q t)

pub any-delete :
    (p q : OauthGrant → Bool) (t : GrantTable)
    → any q (delete_where p t) ≡ any (λ g. not (p g) && q g) t
unfolding delete_where
any-delete p q [] = refl
any-delete p q (g ∷ t) = ground (arith, any-delete p q t)

-- What a rotation found, and what it leaves.
pub rotate-ok :
    (i old new : Bytes) (now : ℕ) (t t' : GrantTable)
    → rotate i old new now t ≡ ok t'
    → (any (is_current i old) t ≡ true)
      × (any (takes_secret i old new) t ≡ false)
      × (update_where (is_current i old) (rotated old new now) t ≡ t')
unfolding rotate
rotate-ok i old new now t t' h =
    let r =
      (if_err_iff (not (any (is_current i old) t)) conflict (
          if any (takes_secret i old new) t
          then err conflict
          else ok (update_where (is_current i old) (rotated old new now) t))).0
        h in
    let s =
      (if_err_iff (any (takes_secret i old new) t) conflict
          (ok (update_where (is_current i old) (rotated old new now) t))).0
        (r.1) in
    ((not-false_iff (any (is_current i old) t)).0 (r.0), s.0, ok-injective (s.1))

-- In a table with unique ids no row behind the current one is the current one.
no_second :
    (i old : Bytes) (g : OauthGrant) (t : GrantTable)
    → is_current i old g ≡ true
    → any (has_id g.id) t ≡ false
    → any (is_current i old) t ≡ false
unfolding is_current has_id
no_second i old g t c h =
    any-weaker (has_id i) (is_current i old) t (λ x e. ground arith)
      (subst (λ (j : Bytes). any (has_id j) t ≡ false) ((str_eq_iff g.id i).0 (ground arith)) h)

str_eq_sym : (s t : Bytes) → str_eq s t ≡ false → str_eq t s ≡ false
str_eq_sym s t h = ground (arith, str_eq_iff s t, str_eq_iff t s)

true_ne_false : true ≡ false → ⊥
true_ne_false h = cc

module _ (i old new : Bytes) (now : ℕ) where
  -- In a table with unique ids the current row is updated alone.
  update_head :
      (g : OauthGrant) (t : GrantTable)
      → is_current i old g ≡ true
      → any (has_id g.id) t ≡ false
      → update_where (is_current i old) (rotated old new now) (g ∷ t) ≡ rotated old new now g ∷ t
  unfolding update_where
  update_head g t c h = ground (
    arith,
    update_where_none (is_current i old) (rotated old new now) t (no_second i old g t c h),
  )

  update_skips :
      (g : OauthGrant) (t : GrantTable)
      → is_current i old g ≡ false
      → update_where (is_current i old) (rotated old new now) (g ∷ t)
        ≡ g ∷ update_where (is_current i old) (rotated old new now) t
  unfolding update_where
  update_skips g t c = ground arith

  keeps_id : (j : Bytes) (x : OauthGrant) → has_id j (rotated old new now x) ≡ has_id j x
  unfolding has_id rotated
  keeps_id j x = refl

  free_rest :
      (g : OauthGrant) (t : GrantTable)
      → any (takes_secret i old new) (g ∷ t) ≡ false
      → any (takes_secret i old new) t ≡ false
  free_rest g t free = ground arith

  free_head :
      (g : OauthGrant) (t : GrantTable)
      → is_current i old g ≡ false
      → any (takes_secret i old new) (g ∷ t) ≡ false
      → has_secret new g ≡ false
  unfolding takes_secret
  free_head g t c free = ground arith

  found_rest :
      (g : OauthGrant) (t : GrantTable)
      → is_current i old g ≡ false
      → any (is_current i old) (g ∷ t) ≡ true
      → any (is_current i old) t ≡ true
  found_rest g t c found = ground arith

  current_secret : (g : OauthGrant) → is_current i old g ≡ true → g.secret_hash ≡ old
  unfolding is_current has_secret
  current_secret g c = (str_eq_iff g.secret_hash old).0 (ground arith)

  -- The row in front of the current one has another secret than it.
  other_secret :
      (g : OauthGrant) (t : GrantTable)
      → any (has_secret g.secret_hash) t ≡ false
      → any (is_current i old) t ≡ true
      → has_secret old g ≡ false
  unfolding has_secret is_current
  other_secret g t alone found = elim (Bool-cases (str_eq g.secret_hash old)) [
    | inl e ↦
        let none_there : any (has_secret old) t ≡ false =
          subst (λ (x : Bytes). any (has_secret x) t ≡ false) ((str_eq_iff g.secret_hash old).0 e)
            alone in
        absurd (
          true_ne_false (
            sym found
            ∙ any-weaker (has_secret old) (is_current i old) t (λ x p. ground arith) none_there))
    | inr e ↦ e
  ]

  new_differs :
      (g : OauthGrant) → str_eq new old ≡ false → has_secret old (rotated old new now g) ≡ false
  unfolding has_secret rotated
  new_differs g d = d

  neither_has :
      (g : OauthGrant) (t : GrantTable)
      → has_secret old g ≡ false
      → any (has_secret old) t ≡ false
      → any (has_secret old) (g ∷ t) ≡ false
  neither_has g t a b = ground arith

  pub update-IsUnique :
      (t : GrantTable)
      → any (takes_secret i old new) t ≡ false
      → IsUnique t
      → IsUnique (update_where (is_current i old) (rotated old new now) t)
  unfolding update_where rotated is_current takes_secret
  update-IsUnique [] free u = tt
  update-IsUnique (g ∷ t) free u = elim (Bool-cases (is_current i old g)) [
    | inl c ↦ subst IsUnique (sym (update_head g t c (u.0))) (
      u.0,
      any-both (is_current i old) (has_secret new) t (free_rest g t free)
          (no_second i old g t c (u.0)),
      u.2,
    )
    | inr c ↦ subst IsUnique (sym (update_skips g t c)) (
      any-update_where (has_id g.id) (is_current i old) (rotated old new now) t
            (λ x e. keeps_id g.id x)
          ∙ u.0,
      any-update_where-false (has_secret g.secret_hash) (is_current i old) (rotated old new now) t
          (any-weaker (has_secret g.secret_hash)
            (λ x. not (is_current i old x) && has_secret g.secret_hash x) t (λ x e. ground arith)
            (u.1))
          (λ x e. str_eq_sym g.secret_hash new (free_head g t c free)),
      update-IsUnique t (free_rest g t free) (u.2),
    )
  ]

  -- No row keeps the secret that was rotated.
  pub update-retires :
      (t : GrantTable)
      → str_eq new old ≡ false
      → any (is_current i old) t ≡ true
      → IsUnique t
      → any (has_secret old) (update_where (is_current i old) (rotated old new now) t) ≡ false
  unfolding update_where
  update-retires [] differ found u = cc
  update-retires (g ∷ t) differ found u = elim (Bool-cases (is_current i old g)) [
    | inl c ↦
        ap (any (has_secret old)) (update_head g t c (u.0))
        ∙ neither_has (rotated old new now g) t (new_differs g differ)
            (subst (λ (x : Bytes). any (has_secret x) t ≡ false) (current_secret g c) (u.1))
    | inr c ↦
        ap (any (has_secret old)) (update_skips g t c)
        ∙ neither_has g (update_where (is_current i old) (rotated old new now) t)
            (other_secret g t (u.1) (found_rest g t c found))
            (update-retires t differ (found_rest g t c found) (u.2))
  ]

  -- The row with the new secret is one whose retired secret is the old one.
  pub update-marks :
      (t : GrantTable)
      → is_empty old ≡ false
      → any (takes_secret i old new) t ≡ false
      → any
          (has_secret new)
          (delete_where (retired old) (update_where (is_current i old) (rotated old new now) t))
        ≡ false
  unfolding takes_secret retired rotated
  update-marks t named free =
      any-delete (retired old) (has_secret new)
        (update_where (is_current i old) (rotated old new now) t)
      ∙ any-update_where-false (λ g. not (retired old g) && has_secret new g) (is_current i old)
          (rotated old new now) t
          (any-weaker (takes_secret i old new)
            (λ g. not (is_current i old g) && (not (retired old g) && has_secret new g)) t
            (λ g e. ground arith) free)
          (λ g e. ground (arith, str_eq_refl old))
