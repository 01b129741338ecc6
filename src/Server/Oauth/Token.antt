-- ===== src/Server/Oauth/Token.antt =====
-- server/internal/oauth/token.go: POST /oauth/token. A handler takes the tables to the tables and the
-- response.
pub mod Outcomes
pub mod Successes
pub mod Refusals
pub mod Consumption
use funcbox.Server.Oauth.Request.{
  AuditEntry, Env, OauthErrorCode, OauthStore, Response, Statement, TokenForm, TokenResponse,
  answer, audit, consume_code, create_grant, create_grant_row, day, find_grant,
  generate_refresh_token, invalid_grant, invalid_request, invalid_target, last_use, mint,
  oauth_grant_active, oauth_grant_max_lifetime, oauth_grant_sliding_window, protected_resource,
  refresh_token_prefix, refused, revoke_grant, rotate_grant, server_error, tokens,
  unsupported_grant_type, write_audit,
}
use funcbox.Prelude.{
  ℕ, ◌+◌, ◌-◌, ◌*◌, ◌/◌, Bool, true, false, not, ◌&&◌, ◌||◌, Bytes, codes, str_eq, List, [], ◌∷◌,
  ◌++◌, is_empty, Option, none, some, Result, ok, err, ltb, if◌then◌else◌,
}
use funcbox.Go.Strings.{has_prefix}
use funcbox.Go.Strconv.{pos}
use funcbox.Auth.Accounts.{Directory, User, load_active_user}
use funcbox.Auth.AccessToken.{Codec, second, issue_access_token, audience_mcp}
use funcbox.Server.Oauth.Grants.{
  OauthGrant, GrantTable, StoreError, conflict, unavailable, create, by_hash, rotate,
  revoke_if_previous_secret,
}
use funcbox.Server.Oauth.Codes.{OauthAuthCode, CodeTable, consume}

-- issueTokenPair, from the user that LoadAuthenticatableUser returns on
unfoldable pub issue_pair_for : Env → User → Bytes → OauthStore → OauthStore × Response
unfolding mint generate_refresh_token create_grant_row audit answer
issue_pair_for env user client_id s = elim (mint env user.id) [
  | err r ↦ (s, r)
  | ok issued ↦ elim (generate_refresh_token env) [
    | none ↦ (s, refused 500 server_error)
    | some fresh ↦ elim (create_grant_row env user.id client_id (fresh.1) s.grants) [
      | err e ↦ (s, refused 500 server_error)
      | ok grants ↦ (
        record s { grants = grants; audits = audit env user.id client_id s.audits },
        answer env (fresh.0) issued,
      )
    ]
  ]
]

unfoldable pub issue_token_pair : Env → Bytes → Bytes → OauthStore → OauthStore × Response
unfolding load_active_user issue_pair_for
issue_token_pair env user_id client_id s = elim (load_active_user env.dir user_id) [
  | err e ↦ (s, refused 400 invalid_grant)
  | ok user ↦ issue_pair_for env user client_id s
]

-- The checks on a code that is consumed already.
unfoldable pub redeem : Env → TokenForm → OauthAuthCode → OauthStore → OauthStore × Response
unfolding str_eq issue_token_pair protected_resource
redeem env f c s =
    if not (str_eq c.client_id f.client_id) || not (str_eq c.redirect_uri f.redirect_uri)
    then (s, refused 400 invalid_grant)
    else if not (str_eq (env.challenge_of f.code_verifier) c.challenge)
    then (s, refused 400 invalid_grant)
    else if not (is_empty c.resource) && not (str_eq c.resource (protected_resource env))
    then (s, refused 400 invalid_target)
    else issue_token_pair env c.user_id c.client_id s

unfoldable pub handle_authorization_code_grant :
    Env → TokenForm → OauthStore → OauthStore × Response
unfolding consume redeem
handle_authorization_code_grant env f s =
    if is_empty f.code
      || is_empty f.code_verifier
      || is_empty f.redirect_uri
      || is_empty f.client_id
    then (s, refused 400 invalid_request)
    else if env.fails consume_code
    then (s, refused 400 invalid_grant)
    else (let r = consume (env.hash f.code) env.now s.codes in
        let s' : OauthStore = record s { codes = r.0 } in
        elim (r.1) [ none ↦ (s', refused 400 invalid_grant) | some c ↦ redeem env f c s' ])

-- What handleRefreshTokenGrant has in hand when it calls Rotate.
pub record Pending : Type 0 where
  pub grant : OauthGrant
  pub user : User
  pub old_hash : Bytes
  pub new_raw : Bytes
  pub new_hash : Bytes

-- A secret that is not current may be a retired one.
unfoldable pub refuse_secret : Env → Bytes → OauthStore → OauthStore × Response
unfolding revoke_if_previous_secret
refuse_secret env h s =
    if env.fails revoke_grant
    then (s, refused 500 server_error)
    else (record s { grants = (revoke_if_previous_secret h s.grants).0 }, refused 400 invalid_grant)

-- The checks on the grant that ByHash returned.
unfoldable pub check_grant : Env → TokenForm → OauthGrant → Result Response Pending
unfolding str_eq oauth_grant_active load_active_user generate_refresh_token
check_grant env f g =
    if not (str_eq f.client_id g.client_id)
    then err (refused 400 invalid_grant)
    else if not (oauth_grant_active g env.now)
    then err (refused 400 invalid_grant)
    else elim (load_active_user env.dir g.user_id) [
      | err e ↦ err (refused 400 invalid_grant)
      | ok user ↦ elim (generate_refresh_token env) [
        | none ↦ err (refused 500 server_error)
        | some fresh ↦ ok (record {
          grant = g;
          user = user;
          old_hash = env.hash f.refresh_token;
          new_raw = fresh.0;
          new_hash = fresh.1;
        })
      ]
    ]

-- handleRefreshTokenGrant up to its call of Rotate
unfoldable pub begin_refresh : Env → TokenForm → OauthStore → OauthStore × Result Response Pending
unfolding has_prefix by_hash refuse_secret check_grant
begin_refresh env f s =
    if not (has_prefix f.refresh_token refresh_token_prefix)
    then (s, err (refused 400 invalid_grant))
    else if is_empty f.client_id
    then (s, err (refused 400 invalid_grant))
    else elim (if env.fails find_grant then none else by_hash (env.hash f.refresh_token) s.grants) [
      | none ↦ let r = refuse_secret env (env.hash f.refresh_token) s in (r.0, err (r.1))
      | some g ↦ (s, check_grant env f g)
    ]

-- handleRefreshTokenGrant from its call of Rotate: other requests may have run in between.
unfoldable pub finish_refresh : Env → Pending → OauthStore → OauthStore × Response
unfolding rotate mint answer
finish_refresh env p s =
    if env.fails rotate_grant
    then (s, refused 500 server_error)
    else elim (rotate p.grant.id p.old_hash p.new_hash env.now s.grants) [
      | err conflict ↦ (s, refused 400 invalid_grant)
      | err e ↦ (s, refused 500 server_error)
      | ok grants ↦
          let s' : OauthStore = record s { grants = grants } in
          elim (mint env p.user.id) [
            | err r ↦ (s', r)
            | ok issued ↦ (s', answer env p.new_raw issued)
          ]
    ]

unfoldable pub handle_refresh_token_grant : Env → TokenForm → OauthStore → OauthStore × Response
unfolding begin_refresh finish_refresh
handle_refresh_token_grant env f s =
    let begun = begin_refresh env f s in
    elim (begun.1) [ err r ↦ (begun.0, r) | ok p ↦ finish_refresh env p (begun.0) ]

-- `none` for a body that is no form
unfoldable pub handle_token : Env → Option TokenForm → OauthStore → OauthStore × Response
unfolding str_eq handle_authorization_code_grant handle_refresh_token_grant
handle_token env none s = (s, refused 400 invalid_request)
handle_token env (some f) s =
    if str_eq f.grant_type (codes "authorization_code")
    then handle_authorization_code_grant env f s
    else if str_eq f.grant_type (codes "refresh_token")
    then handle_refresh_token_grant env f s
    else if is_empty f.grant_type
    then (s, refused 400 invalid_request)
    else (s, refused 400 unsupported_grant_type)
