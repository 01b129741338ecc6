-- ===== src/Server/Oauth/Token/Consumption.antt =====
-- Which codes a token request leaves: only the one that it presents can go.
use funcbox.Prelude.{
  false, ◌||◌, Bytes, is_empty, some, ◌≡◌, ◌⊎◌, ap, ◌∙◌, arith, Result-cases, Option-cases,
  Bool-cases, inl, inr,
}
use funcbox.Auth.Accounts.{User}
use funcbox.Server.Oauth.Grants.{not_found, conflict, unavailable, rotate}
use funcbox.Server.Oauth.Codes.{OauthAuthCode, CodeTable, consume, consumed, remaining}
use funcbox.Server.Oauth.Request.{
  Env, TokenForm, OauthStore, consume_code, rotate_grant, revoke_grant, mint,
  generate_refresh_token, create_grant_row,
}
use funcbox.Server.Oauth.Token.{
  Pending, issue_pair_for, redeem, handle_authorization_code_grant, begin_refresh, finish_refresh,
  handle_refresh_token_grant, handle_token, refuse_secret,
}
use funcbox.Server.Oauth.Token.Outcomes.{
  issue_token_pair-cases, redeem-cases, begin_refresh-cases, handle_refresh_token_grant-cases,
  handle_token-cases,
}

abbrev codes_of : OauthStore → CodeTable
codes_of s = s.codes

issue_pair_for-codes :
    (env : Env) (user : User) (client_id : Bytes) (s : OauthStore)
    → (issue_pair_for env user client_id s).0.codes ≡ s.codes
unfolding issue_pair_for
issue_pair_for-codes env user client_id s = elim (Result-cases (mint env user.id)) [
  | inr (r, m) ↦ ground arith
  | inl (issued, m) ↦ elim (Option-cases (generate_refresh_token env)) [
    | inl n ↦ ground arith
    | inr ((raw, h), g) ↦ elim (Result-cases (create_grant_row env user.id client_id h s.grants)) [
      | inr (x, e) ↦ ground arith
      | inl (t, e) ↦ ground arith
    ]
  ]
]

pub redeem-codes :
    (env : Env) (f : TokenForm) (c : OauthAuthCode) (s : OauthStore)
    → (redeem env f c s).0.codes ≡ s.codes
redeem-codes env f c s = elim (redeem-cases env f c s) [
  | inl e ↦ ap codes_of e
  | inr e ↦ ap codes_of e ∙ elim (issue_token_pair-cases env c.user_id c.client_id s) [
    | inl d ↦ ap codes_of d
    | inr (user, d) ↦ ap codes_of d ∙ issue_pair_for-codes env user c.client_id s
  ]
]

pub finish_refresh-codes :
    (env : Env) (p : Pending) (s : OauthStore) → (finish_refresh env p s).0.codes ≡ s.codes
unfolding finish_refresh
finish_refresh-codes env p s = elim (Bool-cases (env.fails rotate_grant)) [
  | inl down ↦ ground arith
  | inr up ↦ elim (Result-cases (rotate p.grant.id p.old_hash p.new_hash env.now s.grants)) [
    | inr (not_found, e) ↦ ground arith
    | inr (conflict, e) ↦ ground arith
    | inr (unavailable, e) ↦ ground arith
    | inl (t, e) ↦ elim (Result-cases (mint env p.user.id)) [
      | inl (issued, m) ↦ ground arith
      | inr (r, m) ↦ ground arith
    ]
  ]
]

refuse_secret-codes :
    (env : Env) (h : Bytes) (s : OauthStore) → (refuse_secret env h s).0.codes ≡ s.codes
unfolding refuse_secret
refuse_secret-codes env h s = elim (Bool-cases (env.fails revoke_grant)) [
  | inl e ↦ ground arith
  | inr e ↦ ground arith
]

pub begin_refresh-codes :
    (env : Env) (f : TokenForm) (s : OauthStore) → (begin_refresh env f s).0.codes ≡ s.codes
begin_refresh-codes env f s = elim (begin_refresh-cases env f s) [
  | inl e ↦ ap codes_of e
  | inr e ↦ ap codes_of e ∙ refuse_secret-codes env (env.hash f.refresh_token) s
]

handle_refresh-codes :
    (env : Env) (f : TokenForm) (s : OauthStore)
    → (handle_refresh_token_grant env f s).0.codes ≡ s.codes
handle_refresh-codes env f s = elim (handle_refresh_token_grant-cases env f s) [
  | inl e ↦ ap codes_of e ∙ begin_refresh-codes env f s
  | inr (p, begun, e) ↦
      ap codes_of e
      ∙ finish_refresh-codes env p (begin_refresh env f s).0
      ∙ begin_refresh-codes env f s
]

-- A redemption that presents a code to a database that answers burns it, whatever comes of it.
pub handle_authorization_code_grant-codes :
    (env : Env) (f : TokenForm) (s : OauthStore)
    → is_empty f.code || is_empty f.code_verifier || is_empty f.redirect_uri || is_empty f.client_id
      ≡ false
    → env.fails consume_code ≡ false
    → (handle_authorization_code_grant env f s).0.codes
      ≡ remaining (env.hash f.code) env.now s.codes
unfolding handle_authorization_code_grant consume
handle_authorization_code_grant-codes env f s full up =
    elim (Option-cases (consumed (env.hash f.code) env.now s.codes)) [
      | inl n ↦ ground arith
      | inr (c, n) ↦ ground (
        arith,
        redeem-codes env f c (record s { codes = remaining (env.hash f.code) env.now s.codes }),
      )
    ]

unburnt :
    (env : Env) (f : TokenForm) (s : OauthStore)
    → ((handle_authorization_code_grant env f s).0.codes ≡ s.codes)
      ⊎ ((handle_authorization_code_grant env f s).0.codes
          ≡ remaining (env.hash f.code) env.now s.codes)
unfolding handle_authorization_code_grant
unburnt env f s =
    elim (Bool-cases (
      is_empty f.code
      || is_empty f.code_verifier
      || is_empty f.redirect_uri
      || is_empty f.client_id)) [
        | inl e ↦ inl (ground arith)
        | inr e ↦ elim (Bool-cases (env.fails consume_code)) [
          | inl d ↦ inl (ground arith)
          | inr d ↦ inr (handle_authorization_code_grant-codes env f s e d)
        ]
      ]

pub handle_token-codes :
    (env : Env) (f : TokenForm) (s : OauthStore)
    → ((handle_token env (some f) s).0.codes ≡ s.codes)
      ⊎ ((handle_token env (some f) s).0.codes ≡ remaining (env.hash f.code) env.now s.codes)
handle_token-codes env f s = elim (handle_token-cases env f s) [
  | inl e ↦ inl (ap codes_of e)
  | inr (inr e) ↦ inl (ap codes_of e ∙ handle_refresh-codes env f s)
  | inr (inl e) ↦ elim (unburnt env f s) [
    | inl d ↦ inl (ap codes_of e ∙ d)
    | inr d ↦ inr (ap codes_of e ∙ d)
  ]
]
