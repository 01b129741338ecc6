-- ===== src/Server/Oauth/Token/Outcomes.antt =====
-- What each step of a token request leaves behind.
use funcbox.Prelude.{
  Bytes, codes, str_eq, [], is_empty, none, some, ok, ◌≡◌, ◌⊎◌, refl, arith, if◌then◌else◌,
  Result-cases, Option-cases, Bool-cases, inl, inr, ◌||◌, ◌&&◌, not,
}
use funcbox.Go.Strings.{has_prefix}
use funcbox.Auth.Accounts.{User, load_active_user}
use funcbox.Server.Oauth.Grants.{
  OauthGrant, GrantTable, not_found, conflict, unavailable, create, delete_where, rotate, retired,
  by_hash,
}
use funcbox.Server.Oauth.Codes.{OauthAuthCode, consume}
use funcbox.Server.Oauth.Request.{
  Env, TokenForm, OauthStore, generate_refresh_token, create_grant_row, mint, rotate_grant,
  revoke_grant, consume_code, find_grant, protected_resource, refresh_token_prefix,
}
use funcbox.Server.Oauth.Token.{
  Pending, handle_token, begin_refresh, finish_refresh, issue_pair_for, issue_token_pair, redeem,
  handle_authorization_code_grant, handle_refresh_token_grant, refuse_secret,
}

-- What a step leaves in the table of grants: it is as before, or one statement changed it.
pub create_grant_row-grants :
    (env : Env) (user_id client_id h : Bytes) (t t' : GrantTable)
    → create_grant_row env user_id client_id h t ≡ ok t'
    → (g : OauthGrant) × (g.secret_hash ≡ h) × (create g env.known env.insert_at t ≡ ok t')
unfolding create_grant_row
create_grant_row-grants env user_id client_id h t t' e = (
  record {
    id = env.fresh_id;
    user_id = user_id;
    client_id = client_id;
    secret_hash = h;
    prev_secret_hash = [];
    created_at = 0;
    updated_at = 0;
    last_used_at = none;
  },
  refl,
  ground arith,
)

pub finish_refresh-grants :
    (env : Env) (p : Pending) (s : OauthStore)
    → ((finish_refresh env p s).0.grants ≡ s.grants)
      ⊎ ((t : GrantTable) × (rotate p.grant.id p.old_hash p.new_hash env.now s.grants ≡ ok t)
          × ((finish_refresh env p s).0.grants ≡ t))
unfolding finish_refresh
finish_refresh-grants env p s = elim (Bool-cases (env.fails rotate_grant)) [
  | inl down ↦ inl (ground arith)
  | inr up ↦ elim (Result-cases (rotate p.grant.id p.old_hash p.new_hash env.now s.grants)) [
    | inr (not_found, e) ↦ inl (ground arith)
    | inr (conflict, e) ↦ inl (ground arith)
    | inr (unavailable, e) ↦ inl (ground arith)
    | inl (t, e) ↦ inr (
      t,
      e,
      elim (Result-cases (mint env p.user.id)) [
        | inl (issued, m) ↦ ground arith
        | inr (r, m) ↦ ground arith
      ],
    )
  ]
]

pub issue_pair_for-grants :
    (env : Env) (user : User) (client_id : Bytes) (s : OauthStore)
    → ((issue_pair_for env user client_id s).0.grants ≡ s.grants)
      ⊎ ((raw h : Bytes) × (t : GrantTable) × (generate_refresh_token env ≡ some (raw, h))
          × (create_grant_row env user.id client_id h s.grants ≡ ok t)
          × ((issue_pair_for env user client_id s).0.grants ≡ t))
unfolding issue_pair_for
issue_pair_for-grants env user client_id s = elim (Result-cases (mint env user.id)) [
  | inr (r, m) ↦ inl (ground arith)
  | inl (issued, m) ↦ elim (Option-cases (generate_refresh_token env)) [
    | inl n ↦ inl (ground arith)
    | inr ((raw, h), g) ↦ elim (Result-cases (create_grant_row env user.id client_id h s.grants)) [
      | inr (x, e) ↦ inl (ground arith)
      | inl (t, e) ↦ inr (raw, h, t, g, e, ground arith)
    ]
  ]
]

pub issue_token_pair-cases :
    (env : Env) (user_id client_id : Bytes) (s : OauthStore)
    → ((issue_token_pair env user_id client_id s).0 ≡ s)
      ⊎ ((user : User) × ((issue_token_pair env user_id client_id s).0
            ≡ (issue_pair_for env user client_id s).0))
unfolding issue_token_pair
issue_token_pair-cases env user_id client_id s =
    elim (Result-cases (load_active_user env.dir user_id)) [
      | inr (x, e) ↦ inl (ground arith)
      | inl (user, e) ↦ inr (user, ground arith)
    ]

pub redeem-cases :
    (env : Env) (f : TokenForm) (c : OauthAuthCode) (s : OauthStore)
    → ((redeem env f c s).0 ≡ s)
      ⊎ ((redeem env f c s).0 ≡ (issue_token_pair env c.user_id c.client_id s).0)
unfolding redeem
redeem-cases env f c s =
    elim (Bool-cases
      (not (str_eq c.client_id f.client_id) || not (str_eq c.redirect_uri f.redirect_uri))) [
        | inl e ↦ inl (ground arith)
        | inr e ↦ elim (Bool-cases (str_eq (env.challenge_of f.code_verifier) c.challenge)) [
          | inr e' ↦ inl (ground arith)
          | inl e' ↦
              elim (Bool-cases
                (not (is_empty c.resource) && not (str_eq c.resource (protected_resource env)))) [
                  | inl d ↦ inl (ground arith)
                  | inr d ↦ inr (ground arith)
                ]
        ]
      ]

-- Only the codes change before the code is redeemed.
pub handle_authorization_code_grant-cases :
    (env : Env) (f : TokenForm) (s : OauthStore)
    → ((handle_authorization_code_grant env f s).0.grants ≡ s.grants)
      ⊎ ((c : OauthAuthCode) × (s' : OauthStore) × (s'.grants ≡ s.grants)
          × ((handle_authorization_code_grant env f s).0 ≡ (redeem env f c s').0))
unfolding handle_authorization_code_grant
handle_authorization_code_grant-cases env f s =
    elim (Bool-cases (
      is_empty f.code
      || is_empty f.code_verifier
      || is_empty f.redirect_uri
      || is_empty f.client_id)) [
        | inl e ↦ inl (ground arith)
        | inr e ↦ elim (Bool-cases (env.fails consume_code)) [
          | inl d ↦ inl (ground arith)
          | inr d ↦ elim (Option-cases ((consume (env.hash f.code) env.now s.codes).1)) [
            | inl n ↦ inl (ground arith)
            | inr (c, n) ↦ inr (
              c,
              record s { codes = (consume (env.hash f.code) env.now s.codes).0 },
              refl,
              ground arith,
            )
          ]
        ]
      ]

pub refuse_secret-cases :
    (env : Env) (h : Bytes) (s : OauthStore)
    → ((refuse_secret env h s).0 ≡ s)
      ⊎ ((refuse_secret env h s).0.grants ≡ delete_where (retired h) s.grants)
unfolding refuse_secret
refuse_secret-cases env h s = elim (Bool-cases (env.fails revoke_grant)) [
  | inl e ↦ inl (ground arith)
  | inr e ↦ inr (ground arith)
]

-- The look-up of a refresh, as its secret is found or not.
pub begin_refresh-cases :
    (env : Env) (f : TokenForm) (s : OauthStore)
    → ((begin_refresh env f s).0 ≡ s)
      ⊎ ((begin_refresh env f s).0 ≡ (refuse_secret env (env.hash f.refresh_token) s).0)
unfolding begin_refresh
begin_refresh-cases env f s = elim (Bool-cases (has_prefix f.refresh_token refresh_token_prefix)) [
  | inr e ↦ inl (ground arith)
  | inl e ↦ elim (Bool-cases (is_empty f.client_id)) [
    | inl d ↦ inl (ground arith)
    | inr d ↦
        elim (Option-cases
          (if env.fails find_grant then none else by_hash (env.hash f.refresh_token) s.grants)) [
            | inl n ↦ inr (ground arith)
            | inr (g, n) ↦ inl (ground arith)
          ]
  ]
]

-- A refresh that gets as far as Rotate swaps for a secret that it generated.
pub handle_refresh_token_grant-cases :
    (env : Env) (f : TokenForm) (s : OauthStore)
    → ((handle_refresh_token_grant env f s).0 ≡ (begin_refresh env f s).0)
      ⊎ ((p : Pending) × ((begin_refresh env f s).1 ≡ ok p)
          × ((handle_refresh_token_grant env f s).0
              ≡ (finish_refresh env p (begin_refresh env f s).0).0))
unfolding handle_refresh_token_grant
handle_refresh_token_grant-cases env f s = elim (Result-cases ((begin_refresh env f s).1)) [
  | inr (r, e) ↦ inl (ground arith)
  | inl (p, e) ↦ inr (p, e, ground arith)
]

-- Which handler a form goes to.
pub handle_token-cases :
    (env : Env) (f : TokenForm) (s : OauthStore)
    → ((handle_token env (some f) s).0 ≡ s)
      ⊎ (((handle_token env (some f) s).0 ≡ (handle_authorization_code_grant env f s).0)
          ⊎ ((handle_token env (some f) s).0 ≡ (handle_refresh_token_grant env f s).0))
unfolding handle_token
handle_token-cases env f s = elim (Bool-cases (str_eq f.grant_type (codes "authorization_code"))) [
  | inl e ↦ inr (inl (ground arith))
  | inr e ↦ elim (Bool-cases (str_eq f.grant_type (codes "refresh_token"))) [
    | inl d ↦ inr (inr (ground arith))
    | inr d ↦ elim (Bool-cases (is_empty f.grant_type)) [
      | inl a ↦ inl (ground arith)
      | inr a ↦ inl (ground arith)
    ]
  ]
]
