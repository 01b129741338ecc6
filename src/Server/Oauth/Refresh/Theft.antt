-- ===== src/Server/Oauth/Refresh/Theft.antt =====
-- The whole refresh request: when it answers with tokens, and what follows from presenting a
-- retired token.
use funcbox.Prelude.{
  ℕ, ◌+◌, ◌*◌, ◌<◌, true, false, Bytes, str_eq_iff, is_empty, some, ok, ◌≡◌, ◌≢◌, sym, ap, ◌∙◌,
  arith, Result-cases, Option-cases, inl, inr,
}
use mathlib.Core.Path.{subst}
use funcbox.Go.Strings.{has_prefix}
use funcbox.Auth.AccessToken.{second}
use funcbox.Auth.Accounts.{User, load_active_user}
use funcbox.Server.Oauth.Grants.{
  OauthGrant, GrantTable, by_hash, has_secret, rotate, retired, delete_where,
}
use funcbox.Server.Oauth.Grants.Unique.{IsUnique, any-delete_where}
use funcbox.Server.Oauth.Grants.Rotation.{rotate-ok, update-retires, update-marks}
use funcbox.Server.Oauth.Grants.Absent.{Absent, differs, create-Absent, rotate-Absent, touch-Absent}
use funcbox.Server.Oauth.Grants.Marked.{
  Marked, Marked→Absent, Absent→Marked, create-Marked, rotate-Marked, delete_where-Marked,
  touch-Marked,
}
use funcbox.Server.Oauth.Request.{
  Env, TokenForm, OauthStore, Response, TokenResponse, tokens, refused, invalid_grant, revoke_grant,
  generate_refresh_token, refresh_token_prefix, oauth_grant_active, last_use,
  oauth_grant_max_lifetime, oauth_grant_sliding_window,
}
use funcbox.Server.Oauth.Token.{Pending, begin_refresh, finish_refresh, handle_refresh_token_grant}
use funcbox.Server.Oauth.Token.Refusals.{
  begin_refresh-err, handle_refresh-Absent, handle_refresh-retired,
}
use funcbox.Server.Oauth.Refresh.{Traffic-Absent}
use funcbox.Server.Oauth.Token.Successes.{begin_refresh-ok, check_grant-ok, finish_refresh-tokens}
use funcbox.Server.Oauth.Traffic.{Traffic, Traffic-Holds}

handle_refresh-tokens :
    (env : Env) (f : TokenForm) (s : OauthStore) (r : TokenResponse)
    → (handle_refresh_token_grant env f s).1 ≡ tokens r
    → (p : Pending) × ((begin_refresh env f s).1 ≡ ok p)
      × (handle_refresh_token_grant env f s ≡ finish_refresh env p (begin_refresh env f s).0)
unfolding handle_refresh_token_grant
handle_refresh-tokens env f s r h = elim (Result-cases ((begin_refresh env f s).1)) [
  | inl (p, e) ↦ (p, e, ground arith)
  | inr (x, e) ↦ absurd (begin_refresh-err env f s x r e (ground arith))
]

active_window :
    (g : OauthGrant) (now : ℕ)
    → oauth_grant_active g now ≡ true
    → (now < g.created_at * second + oauth_grant_max_lifetime)
      × (now < last_use g * second + oauth_grant_sliding_window)
unfolding oauth_grant_active
active_window g now h = ground arith

generate_refresh_token-hash :
    (env : Env) (raw h : Bytes) → generate_refresh_token env ≡ some (raw, h) → h ≡ env.hash raw
unfolding generate_refresh_token
generate_refresh_token-hash env raw h e = elim (Option-cases (env.random)) [
  | inl n ↦ absurd (ground arith)
  | inr (x, n) ↦ ground arith
]

same_swap :
    {i j old old' new new' : Bytes} {t t' : GrantTable} (now : ℕ) (s : GrantTable)
    → i ≡ j
    → old ≡ old'
    → new ≡ new'
    → t ≡ t'
    → rotate i old new now s ≡ ok t
    → rotate j old' new' now s ≡ ok t'
same_swap now s a b c d h = cc h

abbrev answer_of : OauthStore × Response → Response
answer_of w = w.1

abbrev grants_of : OauthStore × Response → GrantTable
grants_of w = w.0.grants

-- The request answers with tokens only if its secret is the current one of a grant of the client it
-- names, if the user of the grant may sign in, and if less than 180 days have passed since the
-- grant was made and less than 90 since it was last used, or made; the grants are then those that
-- Rotate leaves when it swaps the secret for that of the token it answers with.
pub handle_refresh_needs :
    (env : Env) (f : TokenForm) (s : OauthStore) (r : TokenResponse)
    → (handle_refresh_token_grant env f s).1 ≡ tokens r
    → (g : OauthGrant) × (user : User) × (by_hash (env.hash f.refresh_token) s.grants ≡ some g)
      × (f.client_id ≡ g.client_id)
      × (load_active_user env.dir g.user_id ≡ ok user)
      × (env.now < g.created_at * second + oauth_grant_max_lifetime)
      × (env.now < last_use g * second + oauth_grant_sliding_window)
      × (rotate g.id (env.hash f.refresh_token) (env.hash r.refresh_token) env.now s.grants
          ≡ ok ((handle_refresh_token_grant env f s).0.grants))
handle_refresh_needs env f s r h =
    let (p, begun, e) = handle_refresh-tokens env f s r h in
    let (g, found, checked, same) = begin_refresh-ok env f s p begun in
    let (client, active, signs_in, made, q, old) = check_grant-ok env f g p checked in
    let whole : handle_refresh_token_grant env f s ≡ finish_refresh env p s =
      e ∙ ap (finish_refresh env p) same in
    let (t, swapped, left, sent) = finish_refresh-tokens env p s r (sym (ap answer_of whole) ∙ h) in
    (
      g,
      p.user,
      found,
      (str_eq_iff f.client_id g.client_id).0 client,
      signs_in,
      (active_window g env.now active).0,
      (active_window g env.now active).1,
      same_swap env.now s.grants (ap (λ (x : OauthGrant). x.id) q) old
          (generate_refresh_token-hash env p.new_raw p.new_hash made ∙ ap (env.hash) (sym sent))
          (sym (ap grants_of whole ∙ left)) swapped,
    )

-- Neither token of an exchange is minted again.
abbrev pub Minted : Bytes → Bytes → Bytes → Type 0
Minted old new h = (h ≢ new) × (h ≢ old)

Traffic-Marked :
    (old new : Bytes) {s u : OauthStore}
    → Traffic (Minted old new) s u
    → Marked old new s.grants
    → Marked old new u.grants
Traffic-Marked old new =
    Traffic-Holds (Minted old new) (Marked old new)
      (λ g known now t t' f. create-Marked old new g known now t t' f.0)
      (λ i from to now t t' f. rotate-Marked old new i from to now t t' f.0)
      (delete_where-Marked old new) (touch-Marked old new)

Traffic-gone :
    (old new : Bytes) {s u : OauthStore}
    → Traffic (Minted old new) s u
    → Absent old s.grants
    → Absent old u.grants
Traffic-gone old new =
    Traffic-Holds (Minted old new) (Absent old)
      (λ g known now t t' f. create-Absent old g known now t t' f.1)
      (λ i from to now t t' f. rotate-Absent old i from to now t t' f.1)
      (λ p t. any-delete_where (has_secret old) p t) (touch-Absent old)

-- The exchange retires its token and marks the grant with it.
exchanged :
    (env : Env) (f : TokenForm) (s : OauthStore) (r : TokenResponse)
    → IsUnique s.grants
    → is_empty (env.hash f.refresh_token) ≡ false
    → env.hash r.refresh_token ≢ env.hash f.refresh_token
    → (handle_refresh_token_grant env f s).1 ≡ tokens r
    → Absent (env.hash f.refresh_token) (handle_refresh_token_grant env f s).0.grants
      × Marked
          (env.hash f.refresh_token)
          (env.hash r.refresh_token)
          (handle_refresh_token_grant env f s).0.grants
exchanged env f s r unique named n h =
    let (g, user, found, client, signs_in, young, recent, swapped) =
      handle_refresh_needs env f s r h in
    let t : GrantTable = (handle_refresh_token_grant env f s).0.grants in
    let old : Bytes = env.hash f.refresh_token in
    let new : Bytes = env.hash r.refresh_token in
    let swap = rotate-ok g.id old new env.now s.grants t swapped in
    (
      subst (Absent old) (swap.2)
          (update-retires g.id old new env.now s.grants (differs old new n) (swap.0) unique),
      subst (Marked old new) (swap.2)
          (Absent→Marked old new _ (update-marks g.id old new env.now s.grants named (swap.1))),
    )

-- In a table with distinct ids and secrets, a refresh token that was exchanged is refused when it is
-- presented again, whatever happens in between, and from then on the token that it was exchanged for is
-- refused as well, for good, whatever happens. In between neither token is minted again, and after the
-- reuse the second is not. This takes a hash of the first token that is not empty and differs from that
-- of the second, a reuse that names a client and has the prefix of a refresh token, and a database that
-- runs the revocations.
pub handle_refresh_reuse :
    (env : Env) (f : TokenForm) (s : OauthStore) (r : TokenResponse)
    → IsUnique s.grants
    → is_empty (env.hash f.refresh_token) ≡ false
    → env.hash r.refresh_token ≢ env.hash f.refresh_token
    → (handle_refresh_token_grant env f s).1 ≡ tokens r
    → (w : OauthStore)
    → Traffic
        (Minted (env.hash f.refresh_token) (env.hash r.refresh_token))
        (handle_refresh_token_grant env f s).0
        w
    → (again : Env) (f' : TokenForm) → again.hash f'.refresh_token ≡ env.hash f.refresh_token
    → has_prefix f'.refresh_token refresh_token_prefix ≡ true
    → is_empty f'.client_id ≡ false
    → again.fails revoke_grant ≡ false
    → (u : OauthStore)
    → Traffic (λ h. h ≢ env.hash r.refresh_token) (handle_refresh_token_grant again f' w).0 u
    → (later : Env) (f'' : TokenForm) → later.hash f''.refresh_token ≡ env.hash r.refresh_token
    → later.fails revoke_grant ≡ false
    → ((handle_refresh_token_grant again f' w).1 ≡ refused 400 invalid_grant)
      × ((handle_refresh_token_grant later f'' u).1 ≡ refused 400 invalid_grant)
handle_refresh_reuse env f s r unique named n h w between again f' same pre client up u traffic
      later f'' same' up' =
    let old : Bytes = env.hash f.refresh_token in
    let new : Bytes = env.hash r.refresh_token in
    let (absent, marked) = exchanged env f s r unique named n h in
    let retired_there : Absent (again.hash f'.refresh_token) w.grants =
      subst (λ (x : Bytes). Absent x w.grants) (sym same) (Traffic-gone old new between absent) in
    let gone : Absent new (handle_refresh_token_grant again f' w).0.grants =
      subst (Absent new) (sym (handle_refresh-retired again f' w pre client up retired_there)) (
        subst (λ (x : Bytes). Absent new (delete_where (retired x) w.grants)) (sym same)
          (Marked→Absent old new w.grants (Traffic-Marked old new between marked))) in
    (
      handle_refresh-Absent again f' w up retired_there,
      handle_refresh-Absent later f'' u up'
          (subst (λ (x : Bytes). Absent x u.grants) (sym same') (Traffic-Absent new traffic gone)),
    )
