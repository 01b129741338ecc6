-- ===== src/Server/Oauth/Grants/Marked.antt =====
-- The grant with a secret remembers the secret that it replaced, whatever else happens.
use funcbox.Prelude.{
  ℕ, Bool, false, not, ◌&&◌, Bytes, str_eq, ◌∷◌, any, ok, ◌≡◌, ◌≢◌, refl, sym, ap, ◌∙◌, arith,
}
use mathlib.Core.Path.{subst}
use funcbox.Server.Oauth.Grants.{
  OauthGrant, GrantTable, has_id, has_secret, create, touched, touch, is_current, rotated, rotate,
  retired, delete_where,
}
use funcbox.Server.Oauth.Grants.Unique.{
  create-ok, any-update_where, any-update_where-false, any-weaker, any-delete_where,
}
use funcbox.Server.Oauth.Grants.Rotation.{rotate-ok, any-delete}
use funcbox.Server.Oauth.Grants.Absent.{Absent, differs, touch-ok}

module _ (old new : Bytes) where
  -- A row with the new secret that does not remember the old one
  abbrev forgets : OauthGrant → Bool
  forgets g = not (retired old g) && has_secret new g

  abbrev pub Marked : GrantTable → Type 0
  Marked t = any forgets t ≡ false

  pub Marked→Absent : (t : GrantTable) → Marked t → Absent new (delete_where (retired old) t)
  Marked→Absent t m = any-delete (retired old) (has_secret new) t ∙ m

  pub Absent→Marked : (t : GrantTable) → Absent new (delete_where (retired old) t) → Marked t
  Absent→Marked t a = sym (any-delete (retired old) (has_secret new) t) ∙ a

  in_front :
      (row : OauthGrant) (t : GrantTable)
      → str_eq row.secret_hash new ≡ false
      → Marked t
      → Marked (row ∷ t)
  unfolding has_secret
  in_front row t d m = ground arith

  pub create-Marked :
      (g : OauthGrant) (known : Bool) (now : ℕ) (t t' : GrantTable)
      → g.secret_hash ≢ new
      → create g known now t ≡ ok t'
      → Marked t
      → Marked t'
  create-Marked g known now t t' n made m =
      let (row, same_id, same, e, no_id, no_secret) = create-ok g known now t t' made in
      subst Marked e
        (in_front row t (ap (λ (x : Bytes). str_eq x new) same ∙ differs new g.secret_hash n) m)

  pub rotate-Marked :
      (i from to : Bytes) (now : ℕ) (t t' : GrantTable)
      → to ≢ new
      → rotate i from to now t ≡ ok t'
      → Marked t
      → Marked t'
  unfolding rotated has_secret
  rotate-Marked i from to now t t' n swapped m =
      let r = rotate-ok i from to now t t' swapped in
      subst Marked (r.2) (
        any-update_where-false forgets (is_current i from) (rotated from to now) t
          (any-weaker forgets (λ g. not (is_current i from g) && forgets g) t (λ g e. ground arith)
            m)
          (λ g e. ground (arith, differs new to n)))

  pub delete_where-Marked :
      (p : OauthGrant → Bool) (t : GrantTable) → Marked t → Marked (delete_where p t)
  delete_where-Marked p t m = any-delete_where forgets p t m

  pub touch-Marked :
      (i : Bytes) (now : ℕ) (t t' : GrantTable) → touch i now t ≡ ok t' → Marked t → Marked t'
  unfolding touched has_secret retired
  touch-Marked i now t t' done m =
      subst Marked (touch-ok i now t t' done)
        (any-update_where forgets (has_id i) (touched now) t (λ g e. refl) ∙ m)
