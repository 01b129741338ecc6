-- ===== src/Server/Oauth/Grants/Unique.antt =====
-- No statement on oauth_grants gives two rows one id or one secret.
use funcbox.Prelude.{
  ℕ, Bool, true, false, not, ◌&&◌, ◌||◌, Bytes, str_eq, [], ◌∷◌, any, none, ok, ◌≡◌, refl, sym, ap,
  ◌∙◌, arith, if_err_iff, ok-injective, if◌then◌else◌,
}
use mathlib.Core.Path.{subst}
use funcbox.Auth.AccessToken.{unix}
use funcbox.Server.Oauth.Grants.{
  OauthGrant, GrantTable, conflict, has_id, has_secret, create, update_where, delete_where,
}

abbrev pub IsUnique : GrantTable → Type 0
IsUnique [] = Unit
IsUnique (g ∷ t) =
    (any (has_id g.id) t ≡ false) × (any (has_secret g.secret_hash) t ≡ false) × IsUnique t

-- What a creation adds, and what it found.
pub create-ok :
    (g : OauthGrant) (known : Bool) (now : ℕ) (t t' : GrantTable)
    → create g known now t ≡ ok t'
    → (row : OauthGrant) × (row.id ≡ g.id)
      × (row.secret_hash ≡ g.secret_hash)
      × (row ∷ t ≡ t')
      × (any (has_id g.id) t ≡ false)
      × (any (has_secret g.secret_hash) t ≡ false)
unfolding create
create-ok g known now t t' h =
    let r =
      (if_err_iff (not known || any (has_id g.id) t || any (has_secret g.secret_hash) t) conflict
          (ok (row ∷ t))).0
        h in
    (row, refl, refl, ok-injective (r.1), ground (arith, r.0), ground (arith, r.0))
  where
    row : OauthGrant
    row = record g {
      prev_secret_hash = [];
      created_at = unix now;
      updated_at = unix now;
      last_used_at = none;
    }

pub create-IsUnique :
    (g : OauthGrant) (known : Bool) (now : ℕ) (t t' : GrantTable)
    → create g known now t ≡ ok t'
    → IsUnique t
    → IsUnique t'
unfolding create
create-IsUnique g known now t t' h u =
    let (row, same_id, same_secret, e, no_id, no_secret) = create-ok g known now t t' h in
    subst IsUnique e (
      subst (λ (i : Bytes). any (has_id i) t ≡ false) (sym same_id) no_id,
      subst (λ (x : Bytes). any (has_secret x) t ≡ false) (sym same_secret) no_secret,
      u,
    )

-- A test that no row passes, no row passes after a deletion.
pub any-delete_where :
    (q p : OauthGrant → Bool) (t : GrantTable) → any q t ≡ false → any q (delete_where p t) ≡ false
unfolding delete_where
any-delete_where q p [] h = refl
any-delete_where q p (g ∷ t) h = ground (arith, any-delete_where q p t)

pub delete_where-IsUnique :
    (p : OauthGrant → Bool) (t : GrantTable) → IsUnique t → IsUnique (delete_where p t)
unfolding delete_where
delete_where-IsUnique p [] u = tt
delete_where-IsUnique p (g ∷ t) u = kept (p g) (delete_where-IsUnique p t (u.2))
  where
    kept :
        (b : Bool)
        → IsUnique (delete_where p t)
        → IsUnique (if b then delete_where p t else g ∷ delete_where p t)
    kept true w = w
    kept false w = (
      any-delete_where (has_id g.id) p t (u.0),
      any-delete_where (has_secret g.secret_hash) p t (u.1),
      w,
    )

-- An update leaves a test alone that it neither makes pass nor fail.
pub any-update_where :
    (q p : OauthGrant → Bool) (f : OauthGrant → OauthGrant) (t : GrantTable)
    → ((g : OauthGrant) → p g ≡ true → q (f g) ≡ q g)
    → any q (update_where p f t) ≡ any q t
unfolding update_where
any-update_where q p f [] h = refl
any-update_where q p f (g ∷ t) h = ground (arith, any-update_where q p f t h, h g)

-- A test that no row passes after an update: the rows left alone and the updated ones fail it.
pub any-update_where-false :
    (q p : OauthGrant → Bool) (f : OauthGrant → OauthGrant) (t : GrantTable)
    → any (λ g. not (p g) && q g) t ≡ false
    → ((g : OauthGrant) → p g ≡ true → q (f g) ≡ false)
    → any q (update_where p f t) ≡ false
unfolding update_where
any-update_where-false q p f [] a h = refl
any-update_where-false q p f (g ∷ t) a h = ground (arith, any-update_where-false q p f t, h g)

pub update_where_none :
    (p : OauthGrant → Bool) (f : OauthGrant → OauthGrant) (t : GrantTable)
    → any p t ≡ false
    → update_where p f t ≡ t
unfolding update_where
update_where_none p f [] h = refl
update_where_none p f (g ∷ t) h = ground (arith, update_where_none p f t)

-- A stronger test fails where a weaker one does.
pub any-weaker :
    (p q : OauthGrant → Bool) (t : GrantTable)
    → ((g : OauthGrant) → q g ≡ true → p g ≡ true)
    → any p t ≡ false
    → any q t ≡ false
any-weaker p q [] w h = refl
any-weaker p q (g ∷ t) w h = ground (arith, any-weaker p q t w, w g)

-- An update of what is not a key.
pub update_where-IsUnique :
    (p : OauthGrant → Bool) (f : OauthGrant → OauthGrant) (t : GrantTable)
    → ((g : OauthGrant) → ((f g).id ≡ g.id) × ((f g).secret_hash ≡ g.secret_hash))
    → IsUnique t
    → IsUnique (update_where p f t)
unfolding update_where has_id has_secret
update_where-IsUnique p f [] keeps u = tt
update_where-IsUnique p f (g ∷ t) keeps u =
    both (p g) (update_where-IsUnique p f t keeps (u.2))
      (any-update_where (has_id g.id) p f t (λ x px. same_id x) ∙ u.0)
      (any-update_where (has_secret g.secret_hash) p f t (λ x px. same_secret x) ∙ u.1)
  where
    same_id : (x : OauthGrant) → has_id g.id (f x) ≡ has_id g.id x
    same_id x = ap (λ (i : Bytes). str_eq i g.id) ((keeps x).0)

    same_secret : (x : OauthGrant) → has_secret g.secret_hash (f x) ≡ has_secret g.secret_hash x
    same_secret x = ap (λ (i : Bytes). str_eq i g.secret_hash) ((keeps x).1)

    both :
        (b : Bool)
        → IsUnique (update_where p f t)
        → any (has_id g.id) (update_where p f t) ≡ false
        → any (has_secret g.secret_hash) (update_where p f t) ≡ false
        → IsUnique (if b then f g ∷ update_where p f t else g ∷ update_where p f t)
    both true w a b = (
      subst (λ (i : Bytes). any (has_id i) (update_where p f t) ≡ false) (sym ((keeps g).0)) a,
      subst (λ (i : Bytes). any (has_secret i) (update_where p f t) ≡ false) (sym ((keeps g).1)) b,
      w,
    )
    both false w a b = (a, b, w)
