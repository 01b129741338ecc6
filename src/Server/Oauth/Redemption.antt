-- ===== src/Server/Oauth/Redemption.antt =====
-- What an authorization code is worth: one attempt to redeem it, whatever comes of the attempt.
use funcbox.Prelude.{
  ℕ, ◌≤◌, false, ◌||◌, Bytes, is_empty, Option, none, some, ◌≡◌, ◌≢◌, sym, arith, inl, inr,
}
use mathlib.Core.Path.{subst}
use funcbox.Server.Oauth.Codes.{consume, consumed, delete_expired}
use funcbox.Server.Oauth.Codes.Spent.{
  Spent, remaining-Spent, remaining_other-Spent, purge-Spent, create_code-Spent, consumed-Spent,
}
use funcbox.Server.Oauth.Request.{Env, TokenForm, OauthStore, refused, invalid_grant, consume_code}
use funcbox.Server.Oauth.Token.{handle_token, handle_authorization_code_grant}
use funcbox.Server.Oauth.Token.Consumption.{
  handle_token-codes, begin_refresh-codes, finish_refresh-codes,
  handle_authorization_code_grant-codes,
}
use funcbox.Server.Oauth.Traffic.{
  Traffic, quiet, token_request, refresh_begins, refresh_finishes, code_created, codes_expire,
  grant_deleted, grant_touched,
}

module _ (i : Bytes) (now : ℕ) where
  handle_token-Spent :
      (env : Env) (f : Option TokenForm) (s : OauthStore)
      → Spent i now s.codes
      → Spent i now ((handle_token env f s).0.codes)
  unfolding handle_token
  handle_token-Spent env none s h = h
  handle_token-Spent env (some f) s h = elim (handle_token-codes env f s) [
    | inl e ↦ subst (Spent i now) (sym e) h
    | inr e ↦
        subst (Spent i now) (sym e)
          (remaining_other-Spent i now (env.hash f.code) env.now s.codes h)
  ]

  Traffic-Spent :
      {s u : OauthStore} → Traffic (λ x. x ≢ i) s u → Spent i now s.codes → Spent i now u.codes
  unfolding delete_expired
  Traffic-Spent quiet h = h
  Traffic-Spent {s} (token_request env f m r) h = Traffic-Spent r (handle_token-Spent env f s h)
  Traffic-Spent {s} (refresh_begins env f r) h =
      Traffic-Spent r (subst (Spent i now) (sym (begin_refresh-codes env f s)) h)
  Traffic-Spent {s} (refresh_finishes env p n r) h =
      Traffic-Spent r (subst (Spent i now) (sym (finish_refresh-codes env p s)) h)
  Traffic-Spent {s} (code_created c known when n r) h =
      Traffic-Spent r (create_code-Spent i now c known when s.codes n h)
  Traffic-Spent {s} (codes_expire when r) h = Traffic-Spent r (purge-Spent i now when s.codes h)
  Traffic-Spent (grant_deleted j r) h = Traffic-Spent r h
  Traffic-Spent (grant_touched j when e r) h = Traffic-Spent r h

refuse_spent :
    (env : Env) (f : TokenForm) (u : OauthStore)
    → is_empty f.code || is_empty f.code_verifier || is_empty f.redirect_uri || is_empty f.client_id
      ≡ false
    → consumed (env.hash f.code) env.now u.codes ≡ none
    → ((handle_authorization_code_grant env f u).1 ≡ refused 400 invalid_grant)
      × ((handle_authorization_code_grant env f u).0.grants ≡ u.grants)
unfolding handle_authorization_code_grant consume
refuse_spent env f u full n = (ground arith, ground arith)

-- A request that presents a code with the other fields filled in burns it, whether or not it gets
-- tokens: after it, and after whatever else happens that does not mint a code or a secret with the
-- same hash, a request with the code that is not earlier gets invalid_grant and makes no grant. This
-- takes a database that ran the consumption.
pub redeem_once :
    (env : Env) (f : TokenForm) (s : OauthStore)
    → is_empty f.code || is_empty f.code_verifier || is_empty f.redirect_uri || is_empty f.client_id
      ≡ false
    → env.fails consume_code ≡ false
    → (u : OauthStore)
    → Traffic (λ h. h ≢ env.hash f.code) (handle_authorization_code_grant env f s).0 u
    → (later : Env) (f' : TokenForm)
    → is_empty f'.code
        || is_empty f'.code_verifier
        || is_empty f'.redirect_uri
        || is_empty f'.client_id
      ≡ false
    → later.hash f'.code ≡ env.hash f.code
    → env.now ≤ later.now
    → ((handle_authorization_code_grant later f' u).1 ≡ refused 400 invalid_grant)
      × ((handle_authorization_code_grant later f' u).0.grants ≡ u.grants)
redeem_once env f s full up u traffic later f' full' same le = refuse_spent later f' u full' (
    subst (λ (i : Bytes). consumed i later.now u.codes ≡ none) (sym same)
      (consumed-Spent (env.hash f.code) env.now later.now u.codes le (
        Traffic-Spent (env.hash f.code) env.now traffic (
          subst (Spent (env.hash f.code) env.now)
            (sym (handle_authorization_code_grant-codes env f s full up))
            (remaining-Spent (env.hash f.code) env.now s.codes)))))
