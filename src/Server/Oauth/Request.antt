-- ===== src/Server/Oauth/Request.antt =====
-- server/internal/oauth/token.go and errors.go: what a request to POST /oauth/token is, what it meets,
-- and the steps that both of its handlers take.
use funcbox.Prelude.{
  ℕ, ◌+◌, ◌-◌, ◌*◌, ◌/◌, Bool, false, not, Bytes, codes, List, [], ◌∷◌, ◌++◌, Option, none, some,
  Result, ok, err, ltb, if◌then◌else◌,
}
use funcbox.Go.Strconv.{pos}
use funcbox.Auth.Accounts.{Directory}
use funcbox.Auth.AccessToken.{Codec, second, issue_access_token, audience_mcp}
use funcbox.Server.Oauth.Grants.{OauthGrant, GrantTable, StoreError, unavailable, create}
use funcbox.Server.Oauth.Codes.{CodeTable}

abbrev pub refresh_token_prefix : Bytes
refresh_token_prefix = codes "fbxr_"

abbrev pub day : ℕ
day = 24 * 60 * 60 * second

abbrev pub oauth_grant_sliding_window : ℕ
oauth_grant_sliding_window = 90 * day

abbrev pub oauth_grant_max_lifetime : ℕ
oauth_grant_max_lifetime = 180 * day

pub record TokenForm : Type 0 where
  pub grant_type : Bytes
  pub code : Bytes
  pub code_verifier : Bytes
  pub redirect_uri : Bytes
  pub client_id : Bytes
  pub refresh_token : Bytes

pub record TokenResponse : Type 0 where
  pub access_token : Bytes
  pub token_type : Bytes
  pub expires_in : ℕ
  pub refresh_token : Bytes

-- The error codes of errors.go that the token endpoint answers with.
pub data OauthErrorCode : Type 0 where
  invalid_request invalid_grant unsupported_grant_type server_error invalid_target : OauthErrorCode

pub data Response : Type 0 where
  tokens : TokenResponse → Response
  refused : ℕ → OauthErrorCode → Response

pub data Statement : Type 0 where
  consume_code find_grant revoke_grant rotate_grant create_grant write_audit : Statement

-- `hash` is the hex of SHA-256 and `challenge_of` the PKCE challenge of a verifier. `random` is the
-- base64 of 32 random bytes, if the system gives them, `fresh_id` a new row's id, `known` whether
-- the rows that a new grant refers to exist, and `fails` says which statements the database does
-- not run. The clock is read at `now`, for a token at `mint_at`, for a row at `insert_at` and for
-- the response at `respond_at`, which is before the token expires.
pub record Env : Type 0 where
  pub hash : Bytes → Bytes
  pub challenge_of : Bytes → Bytes
  pub codec : Codec
  pub dir : Directory
  pub fails : Statement → Bool
  pub random : Option Bytes
  pub fresh_id : Bytes
  pub known : Bool
  pub control_origin : Bytes
  pub now : ℕ
  pub mint_at : ℕ
  pub insert_at : ℕ
  pub respond_at : ℕ

pub record AuditEntry : Type 0 where
  pub actor_id : Bytes
  pub action : Bytes
  pub target : Bytes

pub record OauthStore : Type 0 where
  pub grants : GrantTable
  pub codes : CodeTable
  pub audits : List AuditEntry

unfoldable pub protected_resource : Env → Bytes
protected_resource env = env.control_origin ++ codes "/mcp"

unfoldable pub generate_refresh_token : Env → Option (Bytes × Bytes)
generate_refresh_token env = elim (env.random) [
  | none ↦ none
  | some r ↦ some (refresh_token_prefix ++ r, env.hash (refresh_token_prefix ++ r))
]

-- The time that the sliding window is measured from.
unfoldable pub last_use : OauthGrant → ℕ
last_use g = elim (g.last_used_at) [ none ↦ g.created_at | some t ↦ t ]

unfoldable pub oauth_grant_active : OauthGrant → ℕ → Bool
unfolding last_use
oauth_grant_active g now =
    if not (ltb now (g.created_at * second + oauth_grant_max_lifetime))
    then false
    else ltb now (last_use g * second + oauth_grant_sliding_window)

unfoldable pub answer : Env → Bytes → Bytes × ℕ → Response
answer env refresh issued = tokens (record {
  access_token = issued.0;
  token_type = codes "Bearer";
  expires_in = (issued.1 - env.respond_at) / second;
  refresh_token = refresh;
})

unfoldable pub mint : Env → Bytes → Result Response (Bytes × ℕ)
unfolding issue_access_token
mint env user_id =
    elim (issue_access_token env.codec env.dir user_id (pos 0) audience_mcp env.mint_at) [
      | err e ↦ err (refused 500 server_error)
      | ok issued ↦ ok issued
    ]

-- OAuthGrants().Create
unfoldable pub create_grant_row :
    Env → Bytes → Bytes → Bytes → GrantTable → Result StoreError GrantTable
unfolding create
create_grant_row env user_id client_id h t =
    if env.fails create_grant
    then err unavailable
    else create
        (record {
          id = env.fresh_id;
          user_id = user_id;
          client_id = client_id;
          secret_hash = h;
          prev_secret_hash = [];
          created_at = 0;
          updated_at = 0;
          last_used_at = none;
        })
        env.known env.insert_at t

-- auth.Audit, whose error is dropped
unfoldable pub audit : Env → Bytes → Bytes → List AuditEntry → List AuditEntry
audit env user_id client_id log =
    if env.fails write_audit
    then log
    else record {
      actor_id = user_id;
      action = codes "oauth.token.issue";
      target = codes "oauth_client:" ++ client_id;
    }
      ∷ log
