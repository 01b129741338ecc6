-- ===== src/Server/Oauth/Tests.antt =====
-- Runs of the token endpoint, and its theorems at concrete inputs.
use funcbox.Prelude.{
  ℕ, ◌+◌, ◌*◌, ◌<◌, ◌≡◌, ◌≢◌, refl, true, false, Bytes, codes, str_eq, str_eq_iff, [], ◌∷◌, none,
  some, ok, arith,
}
use funcbox.Go.Strings.{has_prefix}
use funcbox.Auth.Accounts.{User, Directory, load_active_user, user_status_active}
use funcbox.Auth.AccessToken.{Codec, second}
use funcbox.Server.Oauth.Grants.{OauthGrant, rotate, by_hash, delete}
use funcbox.Server.Oauth.Grants.Unique.{IsUnique}
use funcbox.Server.Oauth.Codes.{OauthAuthCode}
use funcbox.Server.Oauth.Request.{
  Env, TokenForm, OauthStore, Response, TokenResponse, tokens, refused, invalid_grant, day,
  oauth_grant_max_lifetime, oauth_grant_sliding_window, last_use,
}
use funcbox.Server.Oauth.Token.{
  Pending, handle_refresh_token_grant, handle_authorization_code_grant, finish_refresh,
}
use funcbox.Server.Oauth.Traffic.{quiet, grant_deleted}
use funcbox.Server.Oauth.Refresh.{finish_refresh_once}
use funcbox.Server.Oauth.Refresh.Theft.{handle_refresh_needs, handle_refresh_reuse}
use funcbox.Server.Oauth.Redemption.{redeem_once}

abbrev alice : User
alice = record { id = codes "u1"; email = codes "a@b.c"; status = user_status_active }

abbrev open_codec : Codec
open_codec = record {
  marshal = λ c. c.sub;
  unmarshal = λ b. none;
  encode = λ b. b;
  decode = λ b. some b;
  mac = λ b. b;
}

abbrev open_directory : Directory
open_directory = record {
  user_by_id = λ i. some alice;
  user_by_email = λ e. some alice;
  login_rules =
      some (record { rule_type = codes "default"; value = []; action = codes "allow" } ∷ []);
}

-- A request on day `d`, with the random part of its new token.
abbrev request_on : ℕ → Bytes → Env
request_on d fresh = record {
  hash = λ b. b;
  challenge_of = λ v. v;
  codec = open_codec;
  dir = open_directory;
  fails = λ s. false;
  random = some fresh;
  fresh_id = codes "g9";
  known = true;
  control_origin = codes "https://f.example";
  now = d * day;
  mint_at = d * day;
  insert_at = d * day;
  respond_at = d * day;
}

abbrev form_of : Bytes → Bytes → TokenForm
form_of code refresh = record {
  grant_type = [];
  code = code;
  code_verifier = codes "v";
  redirect_uri = codes "http://localhost/cb";
  client_id = codes "c1";
  refresh_token = refresh;
}

abbrev first_grant : OauthGrant
first_grant = record {
  id = codes "g1";
  user_id = codes "u1";
  client_id = codes "c1";
  secret_hash = codes "fbxr_a";
  prev_secret_hash = [];
  created_at = 0;
  updated_at = 0;
  last_used_at = none;
}

abbrev first_code : OauthAuthCode
first_code = record {
  id = codes "k";
  user_id = codes "u1";
  client_id = codes "c1";
  redirect_uri = codes "http://localhost/cb";
  challenge = codes "w";
  resource = [];
  expires_at = 300;
  created_at = 0;
}

abbrev one_grant : OauthStore
one_grant = record { grants = first_grant ∷ []; codes = first_code ∷ []; audits = [] }

abbrev first_tokens : TokenResponse
first_tokens = record {
  access_token = codes "fbxa_u1.u1";
  token_type = codes "Bearer";
  expires_in = 900;
  refresh_token = codes "fbxr_b";
}

handle_refresh_token_grant_run :
    (handle_refresh_token_grant
      (request_on 5 (codes "b"))
      (form_of [] (codes "fbxr_a"))
      one_grant).1
    ≡ tokens first_tokens
unfolding handle_refresh_token_grant
handle_refresh_token_grant_run = refl

one_grant-IsUnique : IsUnique one_grant.grants
one_grant-IsUnique = (refl, refl, tt)

unequal : (s t : Bytes) → str_eq s t ≡ false → s ≢ t
unequal s t h e = ground (arith, str_eq_iff s t)

secrets_apart : codes "fbxr_b" ≢ codes "fbxr_a"
unfolding str_eq
secrets_apart = unequal (codes "fbxr_b") (codes "fbxr_a") refl

abbrev in_hand : Bytes → Bytes → Pending
in_hand raw h = record {
  grant = first_grant;
  user = alice;
  old_hash = codes "fbxr_a";
  new_raw = raw;
  new_hash = h;
}

finish_refresh_run :
    (finish_refresh (request_on 5 []) (in_hand (codes "fbxr_b") (codes "fbxr_b")) one_grant).1
    ≡ tokens first_tokens
unfolding finish_refresh
finish_refresh_run = refl

finish_refresh_once_example :
    finish_refresh
      (request_on 6 [])
      (in_hand (codes "fbxr_c") (codes "fbxr_c"))
      (finish_refresh (request_on 5 []) (in_hand (codes "fbxr_b") (codes "fbxr_b")) one_grant).0
    ≡ (
      (finish_refresh (request_on 5 []) (in_hand (codes "fbxr_b") (codes "fbxr_b")) one_grant).0,
      refused 400 invalid_grant,
    )
finish_refresh_once_example =
    finish_refresh_once (request_on 5 []) (in_hand (codes "fbxr_b") (codes "fbxr_b")) one_grant
      first_tokens one_grant-IsUnique secrets_apart finish_refresh_run
      (finish_refresh (request_on 5 []) (in_hand (codes "fbxr_b") (codes "fbxr_b")) one_grant).0
      quiet (request_on 6 []) (in_hand (codes "fbxr_c") (codes "fbxr_c")) refl refl

handle_refresh_needs_example :
    (g : OauthGrant) × (user : User) × (by_hash (codes "fbxr_a") one_grant.grants ≡ some g)
    × (codes "c1" ≡ g.client_id)
    × (load_active_user open_directory g.user_id ≡ ok user)
    × (5 * day < g.created_at * second + oauth_grant_max_lifetime)
    × (5 * day < last_use g * second + oauth_grant_sliding_window)
    × (rotate g.id (codes "fbxr_a") (codes "fbxr_b") (5 * day) one_grant.grants
        ≡ ok (
            (handle_refresh_token_grant
              (request_on 5 (codes "b"))
              (form_of [] (codes "fbxr_a"))
              one_grant).0.grants))
handle_refresh_needs_example =
    handle_refresh_needs (request_on 5 (codes "b")) (form_of [] (codes "fbxr_a")) one_grant
      first_tokens handle_refresh_token_grant_run

abbrev refresh_a : OauthStore × Response
refresh_a =
    handle_refresh_token_grant (request_on 5 (codes "b")) (form_of [] (codes "fbxr_a")) one_grant

-- In between the owner deletes another grant.
abbrev between_a : OauthStore
between_a = record (refresh_a.0) { grants = delete (codes "g2") refresh_a.0.grants }

abbrev reuse_a : OauthStore × Response
reuse_a =
    handle_refresh_token_grant (request_on 6 (codes "c")) (form_of [] (codes "fbxr_a")) between_a

handle_refresh_reuse_example :
    (reuse_a.1 ≡ refused 400 invalid_grant)
    × ((handle_refresh_token_grant
          (request_on 7 (codes "d"))
          (form_of [] (codes "fbxr_b"))
          (reuse_a.0)).1
        ≡ refused 400 invalid_grant)
unfolding has_prefix
handle_refresh_reuse_example =
    handle_refresh_reuse (request_on 5 (codes "b")) (form_of [] (codes "fbxr_a")) one_grant
      first_tokens one_grant-IsUnique refl secrets_apart handle_refresh_token_grant_run between_a
      (grant_deleted (codes "g2") quiet) (request_on 6 (codes "c")) (form_of [] (codes "fbxr_a"))
      refl refl refl refl (reuse_a.0) quiet (request_on 7 (codes "d")) (form_of [] (codes "fbxr_b"))
      refl refl

redeem_once_example :
    ((handle_authorization_code_grant
        (request_on 0 (codes "y"))
        (form_of (codes "k") [])
        (handle_authorization_code_grant
          (request_on 0 (codes "x"))
          (form_of (codes "k") [])
          one_grant).0).1
      ≡ refused 400 invalid_grant)
    × ((handle_authorization_code_grant
          (request_on 0 (codes "y"))
          (form_of (codes "k") [])
          (handle_authorization_code_grant
            (request_on 0 (codes "x"))
            (form_of (codes "k") [])
            one_grant).0).0.grants
        ≡ (handle_authorization_code_grant
            (request_on 0 (codes "x"))
            (form_of (codes "k") [])
            one_grant).0.grants)
redeem_once_example =
    redeem_once (request_on 0 (codes "x")) (form_of (codes "k") []) one_grant refl refl
      (handle_authorization_code_grant (request_on 0 (codes "x")) (form_of (codes "k") [])
        one_grant).0
      quiet (request_on 0 (codes "y")) (form_of (codes "k") []) refl refl (omega arith)
