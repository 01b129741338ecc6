-- ===== src/Server/Oauth/Token/Refusals.antt =====
-- Which answers of the refresh handler are errors.
use funcbox.Prelude.{
  Bool, true, false, Bytes, str_eq, is_empty, Option, none, err, ◌≡◌, ◌≢◌, ap, ◌∙◌, ◌&&◌, not,
  arith, if◌then◌else◌, Result-cases, Option-cases, Bool-cases, inl, inr,
}
use funcbox.Go.Strings.{has_prefix}
use funcbox.Auth.Accounts.{load_active_user}
use funcbox.Server.Oauth.Grants.{OauthGrant, GrantTable, by_hash, retired, delete_where}
use funcbox.Server.Oauth.Grants.Absent.{Absent, by_hash-Absent}
use funcbox.Server.Oauth.Request.{
  Env, TokenForm, OauthStore, Response, TokenResponse, tokens, refused, invalid_grant, find_grant,
  revoke_grant, generate_refresh_token, refresh_token_prefix, oauth_grant_active,
}
use funcbox.Server.Oauth.Token.{
  begin_refresh, handle_refresh_token_grant, refuse_secret, check_grant,
}

check_grant-err :
    (env : Env) (f : TokenForm) (g : OauthGrant) (x : Response) (r : TokenResponse)
    → check_grant env f g ≡ err x
    → x ≢ tokens r
unfolding check_grant
check_grant-err env f g x r h t = elim (Bool-cases (str_eq f.client_id g.client_id)) [
  | inr e ↦ ground arith
  | inl e ↦ elim (Bool-cases (oauth_grant_active g env.now)) [
    | inr a ↦ ground arith
    | inl a ↦ elim (Result-cases (load_active_user env.dir g.user_id)) [
      | inr (y, l) ↦ ground arith
      | inl (user, l) ↦ elim (Option-cases (generate_refresh_token env)) [
        | inl n ↦ ground arith
        | inr (fresh, n) ↦ ground arith
      ]
    ]
  ]
]

refuse_secret-err :
    (env : Env) (h : Bytes) (s : OauthStore) (r : TokenResponse)
    → (refuse_secret env h s).1 ≢ tokens r
unfolding refuse_secret
refuse_secret-err env h s r t = elim (Bool-cases (env.fails revoke_grant)) [
  | inl e ↦ ground arith
  | inr e ↦ ground arith
]

pub begin_refresh-err :
    (env : Env) (f : TokenForm) (s : OauthStore) (x : Response) (r : TokenResponse)
    → (begin_refresh env f s).1 ≡ err x
    → x ≢ tokens r
unfolding begin_refresh
begin_refresh-err env f s x r h t =
    elim (Bool-cases (has_prefix f.refresh_token refresh_token_prefix)) [
      | inr e ↦ ground arith
      | inl e ↦ elim (Bool-cases (is_empty f.client_id)) [
        | inl d ↦ ground arith
        | inr d ↦
            elim (Option-cases (
              if env.fails find_grant then none else by_hash (env.hash f.refresh_token) s.grants)) [
                | inl n ↦ ground (arith, refuse_secret-err env (env.hash f.refresh_token) s r)
                | inr (g, n) ↦ ground (arith, check_grant-err env f g x r)
              ]
      ]
    ]

refuse_secret_answers :
    (env : Env) (h : Bytes) (s : OauthStore)
    → env.fails revoke_grant ≡ false
    → ((refuse_secret env h s).1 ≡ refused 400 invalid_grant)
      × ((refuse_secret env h s).0.grants ≡ delete_where (retired h) s.grants)
unfolding refuse_secret
refuse_secret_answers env h s up = (ground arith, ground arith)

not_found_either_way :
    (b : Bool) (o : Option OauthGrant) → o ≡ none → (if b then none else o) ≡ none
not_found_either_way b o h = ground arith

begin_refresh-Absent :
    (env : Env) (f : TokenForm) (s : OauthStore)
    → has_prefix f.refresh_token refresh_token_prefix ≡ true
    → is_empty f.client_id ≡ false
    → Absent (env.hash f.refresh_token) s.grants
    → begin_refresh env f s ≡ (
      (refuse_secret env (env.hash f.refresh_token) s).0,
      err ((refuse_secret env (env.hash f.refresh_token) s).1),
    )
unfolding begin_refresh
begin_refresh-Absent env f s pre named a = ground (
  arith,
  not_found_either_way (env.fails find_grant) (by_hash (env.hash f.refresh_token) s.grants)
      (by_hash-Absent (env.hash f.refresh_token) s.grants a),
)

handle_refresh_begun :
    (env : Env) (f : TokenForm) (s s' : OauthStore) (x : Response)
    → begin_refresh env f s ≡ (s', err x)
    → handle_refresh_token_grant env f s ≡ (s', x)
unfolding handle_refresh_token_grant
handle_refresh_begun env f s s' x h = ground arith

abbrev second_of : OauthStore × Response → Response
second_of w = w.1

abbrev grants_of : OauthStore × Response → GrantTable
grants_of w = w.0.grants

malformed :
    (env : Env) (f : TokenForm) (s : OauthStore)
    → has_prefix f.refresh_token refresh_token_prefix && not (is_empty f.client_id) ≡ false
    → begin_refresh env f s ≡ (s, err (refused 400 invalid_grant))
unfolding begin_refresh
malformed env f s h = ground arith

-- A secret that no grant has gets invalid_grant.
pub handle_refresh-Absent :
    (env : Env) (f : TokenForm) (s : OauthStore)
    → env.fails revoke_grant ≡ false
    → Absent (env.hash f.refresh_token) s.grants
    → (handle_refresh_token_grant env f s).1 ≡ refused 400 invalid_grant
handle_refresh-Absent env f s up a =
    elim (Bool-cases
      (has_prefix f.refresh_token refresh_token_prefix && not (is_empty f.client_id))) [
        | inr e ↦
            ap second_of
              (handle_refresh_begun env f s s (refused 400 invalid_grant) (malformed env f s e))
        | inl e ↦
            let r = refuse_secret env (env.hash f.refresh_token) s in
            ap second_of (
              handle_refresh_begun env f s (r.0) (r.1)
                (begin_refresh-Absent env f s (ground arith) (ground arith) a))
            ∙ (refuse_secret_answers env (env.hash f.refresh_token) s up).0
      ]

-- If it is well-formed, the grants that it was retired from are deleted.
pub handle_refresh-retired :
    (env : Env) (f : TokenForm) (s : OauthStore)
    → has_prefix f.refresh_token refresh_token_prefix ≡ true
    → is_empty f.client_id ≡ false
    → env.fails revoke_grant ≡ false
    → Absent (env.hash f.refresh_token) s.grants
    → (handle_refresh_token_grant env f s).0.grants
      ≡ delete_where (retired (env.hash f.refresh_token)) s.grants
handle_refresh-retired env f s pre named up a =
    let r = refuse_secret env (env.hash f.refresh_token) s in
    ap grants_of
      (handle_refresh_begun env f s (r.0) (r.1) (begin_refresh-Absent env f s pre named a))
    ∙ (refuse_secret_answers env (env.hash f.refresh_token) s up).1
