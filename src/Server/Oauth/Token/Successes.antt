-- ===== src/Server/Oauth/Token/Successes.antt =====
-- What a refresh that gets tokens has passed.
use funcbox.Prelude.{
  ℕ, true, Bytes, str_eq, is_empty, some, ok, err, ◌≡◌, ◌≢◌, refl, arith, Result-cases,
  Option-cases, Bool-cases, inl, inr,
}
use mathlib.Core.Path.{subst}
use funcbox.Go.Strconv.{pos}
use funcbox.Auth.AccessToken.{issue_access_token, audience_mcp}
use funcbox.Go.Strings.{has_prefix}
use funcbox.Auth.Accounts.{load_active_user}
use funcbox.Server.Oauth.Grants.{
  OauthGrant, GrantTable, not_found, conflict, unavailable, rotate, by_hash,
}
use funcbox.Server.Oauth.Request.{
  oauth_grant_active, answer, TokenResponse, Env, TokenForm, OauthStore, Response, tokens,
  generate_refresh_token, mint, rotate_grant, find_grant, refresh_token_prefix,
}
use funcbox.Server.Oauth.Token.{check_grant, Pending, begin_refresh, finish_refresh}

-- A grant passes the checks of a refresh only for its own client, while it is active and its user
-- may sign in.
pub check_grant-ok :
    (env : Env) (f : TokenForm) (g : OauthGrant) (p : Pending)
    → check_grant env f g ≡ ok p
    → (str_eq f.client_id g.client_id ≡ true)
      × (oauth_grant_active g env.now ≡ true)
      × (load_active_user env.dir g.user_id ≡ ok p.user)
      × (generate_refresh_token env ≡ some (p.new_raw, p.new_hash))
      × (p.grant ≡ g)
      × (p.old_hash ≡ env.hash f.refresh_token)
unfolding check_grant
check_grant-ok env f g p h = elim (Bool-cases (str_eq f.client_id g.client_id)) [
  | inr e ↦ absurd (ground arith)
  | inl e ↦ elim (Bool-cases (oauth_grant_active g env.now)) [
    | inr a ↦ absurd (ground arith)
    | inl a ↦ elim (Result-cases (load_active_user env.dir g.user_id)) [
      | inr (x, l) ↦ absurd (ground arith)
      | inl (user, l) ↦ elim (Option-cases (generate_refresh_token env)) [
        | inl n ↦ absurd (ground arith)
        | inr ((raw, new), n) ↦
            let pending : Pending = record {
              grant = g;
              user = user;
              old_hash = env.hash f.refresh_token;
              new_raw = raw;
              new_hash = new;
            } in
            let q : pending ≡ p = ground arith in
            (
              e,
              a,
              subst (λ (x : Pending). load_active_user env.dir g.user_id ≡ ok x.user) q l,
              subst (λ (x : Pending). generate_refresh_token env ≡ some (x.new_raw, x.new_hash)) q
                  n,
              subst (λ (x : Pending). x.grant ≡ g) q refl,
              subst (λ (x : Pending). x.old_hash ≡ env.hash f.refresh_token) q refl,
            )
      ]
    ]
  ]
]

-- A refresh that gets as far as Rotate found its grant by the secret, and changed nothing.
pub begin_refresh-ok :
    (env : Env) (f : TokenForm) (s : OauthStore) (p : Pending)
    → (begin_refresh env f s).1 ≡ ok p
    → (g : OauthGrant) × (by_hash (env.hash f.refresh_token) s.grants ≡ some g)
      × (check_grant env f g ≡ ok p)
      × ((begin_refresh env f s).0 ≡ s)
unfolding begin_refresh
begin_refresh-ok env f s p h = elim (Bool-cases (has_prefix f.refresh_token refresh_token_prefix)) [
  | inr e ↦ absurd (ground arith)
  | inl e ↦ elim (Bool-cases (is_empty f.client_id)) [
    | inl d ↦ absurd (ground arith)
    | inr d ↦ elim (Bool-cases (env.fails find_grant)) [
      | inl down ↦ absurd (ground arith)
      | inr up ↦ elim (Option-cases (by_hash (env.hash f.refresh_token) s.grants)) [
        | inl n ↦ absurd (ground arith)
        | inr (g, n) ↦ (g, n, ground arith, ground arith)
      ]
    ]
  ]
]

mint-err :
    (env : Env) (user_id : Bytes) (x : Response) (r : TokenResponse)
    → mint env user_id ≡ err x
    → x ≢ tokens r
unfolding mint
mint-err env user_id x r h e =
    elim (Result-cases
      (issue_access_token env.codec env.dir user_id (pos 0) audience_mcp env.mint_at)) [
        | inl (issued, m) ↦ ground arith
        | inr (problem, m) ↦ ground arith
      ]

answer-refresh :
    (env : Env) (raw : Bytes) (issued : Bytes × ℕ) (r : TokenResponse)
    → answer env raw issued ≡ tokens r
    → r.refresh_token ≡ raw
unfolding answer
answer-refresh env raw issued r h = ground arith

-- Tokens are sent only after the swap, and the refresh token among them is the new one.
pub finish_refresh-tokens :
    (env : Env) (p : Pending) (s : OauthStore) (r : TokenResponse)
    → (finish_refresh env p s).1 ≡ tokens r
    → (t : GrantTable) × (rotate p.grant.id p.old_hash p.new_hash env.now s.grants ≡ ok t)
      × ((finish_refresh env p s).0.grants ≡ t)
      × (r.refresh_token ≡ p.new_raw)
unfolding finish_refresh
finish_refresh-tokens env p s r h = elim (Bool-cases (env.fails rotate_grant)) [
  | inl down ↦ absurd (ground arith)
  | inr up ↦ elim (Result-cases (rotate p.grant.id p.old_hash p.new_hash env.now s.grants)) [
    | inr (not_found, e) ↦ absurd (ground arith)
    | inr (conflict, e) ↦ absurd (ground arith)
    | inr (unavailable, e) ↦ absurd (ground arith)
    | inl (t, e) ↦ elim (Result-cases (mint env p.user.id)) [
      | inl (issued, m) ↦ (t, e, ground arith, answer-refresh env p.new_raw issued r (ground arith))
      | inr (x, m) ↦ absurd (mint-err env p.user.id x r m (ground arith))
    ]
  ]
]
