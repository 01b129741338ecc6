-- ===== src/Server/Oauth/Traffic.antt =====
-- What can happen to the tables of the token endpoint between two steps of a request: other token
-- requests and steps of them, new codes, housekeeping, and the owner's deletions.
use funcbox.Prelude.{ℕ, Bool, Bytes, Option, none, some, ok, ◌≡◌, sym, inl, inr}
use mathlib.Core.Path.{subst}
use funcbox.Auth.Accounts.{User}
use funcbox.Server.Oauth.Grants.{
  OauthGrant, GrantTable, create, touch, delete, delete_where, rotate, retired, has_id,
}
use funcbox.Server.Oauth.Codes.{OauthAuthCode, create_code, delete_expired}
use funcbox.Server.Oauth.Token.Successes.{begin_refresh-ok, check_grant-ok}
use funcbox.Server.Oauth.Token.Outcomes.{
  create_grant_row-grants, finish_refresh-grants, issue_pair_for-grants, issue_token_pair-cases,
  redeem-cases, handle_authorization_code_grant-cases, refuse_secret-cases, begin_refresh-cases,
  handle_token-cases, handle_refresh_token_grant-cases,
}
use funcbox.Server.Oauth.Request.{Env, TokenForm, OauthStore, generate_refresh_token}
use funcbox.Server.Oauth.Token.{
  Pending, handle_token, begin_refresh, finish_refresh, issue_pair_for, redeem,
  handle_refresh_token_grant,
}

-- The token that a request would mint has a hash that `fresh` admits.
abbrev pub Mints : (Bytes → Type 0) → Env → Type 0
Mints fresh env = (raw h : Bytes) → generate_refresh_token env ≡ some (raw, h) → fresh h

-- From the left tables to the right ones, the hash of every secret and code minted on the way
-- admitted by `fresh`.
pub data Traffic (fresh : Bytes → Type 0) : OauthStore → OauthStore → Type 0 where
  quiet : {s : OauthStore} → Traffic fresh s s
  token_request :
      (env : Env) (f : Option TokenForm) {s u : OauthStore}
      → Mints fresh env
      → Traffic fresh (handle_token env f s).0 u
      → Traffic fresh s u
  refresh_begins :
      (env : Env) (f : TokenForm) {s u : OauthStore}
      → Traffic fresh (begin_refresh env f s).0 u
      → Traffic fresh s u
  refresh_finishes :
      (env : Env) (p : Pending) {s u : OauthStore}
      → fresh p.new_hash
      → Traffic fresh (finish_refresh env p s).0 u
      → Traffic fresh s u
  code_created :
      (c : OauthAuthCode) (known : Bool) (now : ℕ) {s u : OauthStore}
      → fresh c.id
      → Traffic fresh (record s { codes = (create_code c known now s.codes).0 }) u
      → Traffic fresh s u
  codes_expire :
      (now : ℕ) {s u : OauthStore}
      → Traffic fresh (record s { codes = (delete_expired now s.codes).0 }) u
      → Traffic fresh s u
  grant_deleted :
      (i : Bytes) {s u : OauthStore}
      → Traffic fresh (record s { grants = delete i s.grants }) u
      → Traffic fresh s u
  grant_touched :
      (i : Bytes) (now : ℕ) {t : GrantTable} {s u : OauthStore}
      → touch i now s.grants ≡ ok t
      → Traffic fresh (record s { grants = t }) u
      → Traffic fresh s u

-- A property of the grants that every statement keeps, all traffic keeps.
module _ (fresh : Bytes → Type 0) (Keeps : GrantTable → Type 0)
    (create-Keeps : (g : OauthGrant) (known : Bool) (now : ℕ) (t t' : GrantTable)
      → fresh g.secret_hash
      → create g known now t ≡ ok t'
      → Keeps t
      → Keeps t')
    (rotate-Keeps : (i old new : Bytes) (now : ℕ) (t t' : GrantTable)
      → fresh new
      → rotate i old new now t ≡ ok t'
      → Keeps t
      → Keeps t')
    (delete_where-Keeps : (p : OauthGrant → Bool) (t : GrantTable)
      → Keeps t
      → Keeps (delete_where p t))
    (touch-Keeps : (i : Bytes) (now : ℕ) (t t' : GrantTable)
      → touch i now t ≡ ok t'
      → Keeps t
      → Keeps t') where
  abbrev Holds : OauthStore → Type 0
  Holds s = Keeps s.grants

  issue_pair_for-Holds :
      (env : Env) (user : User) (client_id : Bytes) (s : OauthStore)
      → Mints fresh env
      → Keeps s.grants
      → Keeps ((issue_pair_for env user client_id s).0.grants)
  issue_pair_for-Holds env user client_id s mints k =
      elim (issue_pair_for-grants env user client_id s) [
        | inl e ↦ subst Keeps (sym e) k
        | inr (raw, h, t, g, made, e) ↦
            let (row, same, created) =
              create_grant_row-grants env user.id client_id h s.grants t made in
            subst Keeps (sym e) (
              create-Keeps row env.known env.insert_at s.grants t
                (subst fresh (sym same) (mints raw h g)) created k)
      ]

  redeem-Holds :
      (env : Env) (f : TokenForm) (c : OauthAuthCode) (s : OauthStore)
      → Mints fresh env
      → Keeps s.grants
      → Keeps ((redeem env f c s).0.grants)
  redeem-Holds env f c s mints k = elim (redeem-cases env f c s) [
    | inl e ↦ subst Holds (sym e) k
    | inr e ↦ subst Holds (sym e) (elim (issue_token_pair-cases env c.user_id c.client_id s) [
      | inl d ↦ subst Holds (sym d) k
      | inr (user, d) ↦ subst Holds (sym d) (issue_pair_for-Holds env user c.client_id s mints k)
    ])
  ]

  finish_refresh-Holds :
      (env : Env) (p : Pending) (s : OauthStore)
      → fresh p.new_hash
      → Keeps s.grants
      → Keeps ((finish_refresh env p s).0.grants)
  finish_refresh-Holds env p s new k = elim (finish_refresh-grants env p s) [
    | inl e ↦ subst Keeps (sym e) k
    | inr (t, swapped, e) ↦
        subst Keeps (sym e)
          (rotate-Keeps p.grant.id p.old_hash p.new_hash env.now s.grants t new swapped k)
  ]

  begin_refresh-Holds :
      (env : Env) (f : TokenForm) (s : OauthStore)
      → Keeps s.grants
      → Keeps ((begin_refresh env f s).0.grants)
  begin_refresh-Holds env f s k = elim (begin_refresh-cases env f s) [
    | inl e ↦ subst Holds (sym e) k
    | inr e ↦ subst Holds (sym e) (elim (refuse_secret-cases env (env.hash f.refresh_token) s) [
      | inl d ↦ subst Holds (sym d) k
      | inr d ↦
          subst Keeps (sym d) (delete_where-Keeps (retired (env.hash f.refresh_token)) s.grants k)
    ])
  ]

  handle_refresh-Holds :
      (env : Env) (f : TokenForm) (s : OauthStore)
      → Mints fresh env
      → Keeps s.grants
      → Keeps ((handle_refresh_token_grant env f s).0.grants)
  handle_refresh-Holds env f s mints k = elim (handle_refresh_token_grant-cases env f s) [
    | inl d ↦ subst Holds (sym d) (begin_refresh-Holds env f s k)
    | inr (p, begun, d) ↦
        let (g, found, checked, same) = begin_refresh-ok env f s p begun in
        let (c, a, l, made, q, o) = check_grant-ok env f g p checked in
        subst Holds (sym d) (
          finish_refresh-Holds env p (begin_refresh env f s).0 (mints p.new_raw p.new_hash made)
            (begin_refresh-Holds env f s k))
  ]

  handle_token-Holds :
      (env : Env) (f : Option TokenForm) (s : OauthStore)
      → Mints fresh env
      → Keeps s.grants
      → Keeps ((handle_token env f s).0.grants)
  unfolding handle_token
  handle_token-Holds env none s mints k = k
  handle_token-Holds env (some f) s mints k = elim (handle_token-cases env f s) [
    | inl e ↦ subst Holds (sym e) k
    | inr (inl e) ↦ subst Holds (sym e) (elim (handle_authorization_code_grant-cases env f s) [
      | inl d ↦ subst Keeps (sym d) k
      | inr (c, s', same, d) ↦
          subst Holds (sym d) (redeem-Holds env f c s' mints (subst Keeps (sym same) k))
    ])
    | inr (inr e) ↦ subst Holds (sym e) (handle_refresh-Holds env f s mints k)
  ]

  pub Traffic-Holds : {s u : OauthStore} → Traffic fresh s u → Keeps s.grants → Keeps u.grants
  unfolding delete delete_where
  Traffic-Holds quiet k = k
  Traffic-Holds {s} (token_request env f m r) k = Traffic-Holds r (handle_token-Holds env f s m k)
  Traffic-Holds {s} (refresh_begins env f r) k = Traffic-Holds r (begin_refresh-Holds env f s k)
  Traffic-Holds {s} (refresh_finishes env p n r) k =
      Traffic-Holds r (finish_refresh-Holds env p s n k)
  Traffic-Holds (code_created c known now n r) k = Traffic-Holds r k
  Traffic-Holds (codes_expire now r) k = Traffic-Holds r k
  Traffic-Holds {s} (grant_deleted i r) k =
      Traffic-Holds r (delete_where-Keeps (has_id i) s.grants k)
  Traffic-Holds {s} (grant_touched i now {t} e r) k =
      Traffic-Holds r (touch-Keeps i now s.grants t e k)
