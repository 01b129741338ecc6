-- ===== src/Server/Oauth/Refresh.antt =====
-- What a refresh token is worth: who may use it, once, and what its reuse does.
pub mod Theft
use funcbox.Prelude.{
  ℕ, ◌+◌, ◌*◌, ◌<◌, Bool, true, false, not, ◌&&◌, ◌||◌, Bytes, str_eq, str_eq_iff, List, [], ◌∷◌,
  any, is_empty, Option, none, some, Result, ok, err, ◌≡◌, ◌≢◌, refl, sym, ap, ◌∙◌, arith,
  if◌then◌else◌, Result-cases, Option-cases, Bool-cases, inl, inr, ltb, ltb→lt,
}
use mathlib.Core.Path.{subst}
use funcbox.Go.Strings.{has_prefix}
use funcbox.Auth.AccessToken.{second}
use funcbox.Auth.Accounts.{User, load_active_user}
use funcbox.Server.Oauth.Grants.{
  OauthGrant, GrantTable, conflict, has_secret, by_hash, rotate, rotated, is_current, retired,
  delete_where, update_where, revoke_if_previous_secret, create, touch,
}
use funcbox.Server.Oauth.Grants.Unique.{
  IsUnique, create-IsUnique, delete_where-IsUnique, any-delete_where,
}
use funcbox.Server.Oauth.Grants.Rotation.{rotate-ok, update-retires, update-marks}
use funcbox.Server.Oauth.Grants.Absent.{
  Absent, touch-IsUnique, rotate-IsUnique, create-Absent, rotate-Absent, touch-Absent,
  by_hash-Absent, rotate-refused, differs,
}
use funcbox.Server.Oauth.Request.{
  Env, TokenForm, OauthStore, Response, TokenResponse, tokens, refused, invalid_grant, rotate_grant,
  revoke_grant, find_grant, generate_refresh_token, refresh_token_prefix, oauth_grant_active,
  last_use, oauth_grant_max_lifetime, oauth_grant_sliding_window,
}
use funcbox.Server.Oauth.Token.{
  Pending, begin_refresh, finish_refresh, handle_refresh_token_grant, refuse_secret, check_grant,
}
use funcbox.Server.Oauth.Token.Refusals.{begin_refresh-err}
use funcbox.Server.Oauth.Token.Successes.{begin_refresh-ok, check_grant-ok, finish_refresh-tokens}
use funcbox.Server.Oauth.Traffic.{Traffic, Traffic-Holds}

-- Whatever the token endpoint, the issuing of codes and the owner do, in any order, a table of
-- grants with distinct ids and distinct secrets stays one.
Traffic-IsUnique :
    {fresh : Bytes → Type 0} {s u : OauthStore}
    → Traffic fresh s u
    → IsUnique s.grants
    → IsUnique u.grants
Traffic-IsUnique {fresh} =
    Traffic-Holds fresh IsUnique (λ g known now t t' f. create-IsUnique g known now t t')
      (λ i old new now t t' f. rotate-IsUnique i old new now t t') delete_where-IsUnique
      touch-IsUnique

-- A secret that no grant has stays so while it is not minted again.
pub Traffic-Absent :
    (h : Bytes) {s u : OauthStore}
    → Traffic (λ x. x ≢ h) s u
    → Absent h s.grants
    → Absent h u.grants
Traffic-Absent h =
    Traffic-Holds (λ x. x ≢ h) (Absent h) (create-Absent h) (rotate-Absent h)
      (λ p t. any-delete_where (has_secret h) p t) (touch-Absent h)

-- A refresh that answered with tokens retired the secret that it was given.
pub finish_refresh-retires :
    (env : Env) (p : Pending) (s : OauthStore) (r : TokenResponse)
    → (finish_refresh env p s).1 ≡ tokens r
    → IsUnique s.grants
    → p.new_hash ≢ p.old_hash
    → Absent p.old_hash (finish_refresh env p s).0.grants
finish_refresh-retires env p s r h u n =
    let (t, swapped, left, sent) = finish_refresh-tokens env p s r h in
    let found = rotate-ok p.grant.id p.old_hash p.new_hash env.now s.grants t swapped in
    subst (Absent p.old_hash) (sym left) (
      subst (Absent p.old_hash) (found.2) (
        update-retires p.grant.id p.old_hash p.new_hash env.now s.grants
          (differs p.old_hash p.new_hash n) (found.0) u))

refused_swap :
    (env : Env) (p : Pending) (s : OauthStore)
    → env.fails rotate_grant ≡ false
    → rotate p.grant.id p.old_hash p.new_hash env.now s.grants ≡ err conflict
    → finish_refresh env p s ≡ (s, refused 400 invalid_grant)
unfolding finish_refresh
refused_swap env p s up e = ground arith

-- In a table with distinct ids and secrets, of the refreshes that looked up one secret, one gets
-- tokens: after it, and after whatever else happens that does not mint the secret again, each other
-- one that the database runs is refused with invalid_grant and changes nothing. This takes a new
-- secret whose hash differs from that of the old one.
pub finish_refresh_once :
    (env : Env) (p : Pending) (s : OauthStore) (r : TokenResponse)
    → IsUnique s.grants
    → p.new_hash ≢ p.old_hash
    → (finish_refresh env p s).1 ≡ tokens r
    → (u : OauthStore) → Traffic (λ h. h ≢ p.old_hash) (finish_refresh env p s).0 u
    → (later : Env) (other : Pending) → other.old_hash ≡ p.old_hash
    → later.fails rotate_grant ≡ false
    → finish_refresh later other u ≡ (u, refused 400 invalid_grant)
finish_refresh_once env p s r unique n h u traffic later other same up =
    refused_swap later other u up (
      rotate-refused other.old_hash other.grant.id other.new_hash later.now u.grants (
        subst (λ (x : Bytes). Absent x u.grants) (sym same)
          (Traffic-Absent p.old_hash traffic (finish_refresh-retires env p s r h unique n))))
