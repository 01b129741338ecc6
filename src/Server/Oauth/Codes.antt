-- ===== src/Server/Oauth/Codes.antt =====
-- server/internal/store/sqlcommon/oauthauthcodes.go: the statements on the table oauth_auth_codes,
-- whose primary key is the hash of a code. Stored times are seconds; `now` is in nanoseconds.
pub mod Spent
use funcbox.Prelude.{
  ℕ, Bool, true, false, not, ◌&&◌, ◌||◌, Bytes, str_eq, List, [], ◌∷◌, any, Option, none, some, leb,
  ltb, length, ◌-◌, Result, ok, err, if◌then◌else◌,
}
use funcbox.Auth.AccessToken.{unix}
use funcbox.Server.Oauth.Grants.{StoreError, conflict}

pub record OauthAuthCode : Type 0 where
  pub id : Bytes
  pub user_id : Bytes
  pub client_id : Bytes
  pub redirect_uri : Bytes
  pub challenge : Bytes
  pub resource : Bytes
  pub expires_at : ℕ
  pub created_at : ℕ

abbrev pub CodeTable : Type 0
CodeTable = List OauthAuthCode

-- DELETE ... WHERE expires_at <= ?
unfoldable pub purge : ℕ → CodeTable → CodeTable
purge now [] = []
purge now (c ∷ t) = let rest = purge now t in if leb c.expires_at (unix now) then rest else c ∷ rest

unfoldable pub has_code_id : Bytes → OauthAuthCode → Bool
unfolding str_eq
has_code_id i c = str_eq c.id i

-- Create: the expired codes go, whether or not the insertion works. `known` says that the rows of
-- the user and of the client exist.
unfoldable pub create_code :
    OauthAuthCode → Bool → ℕ → CodeTable → CodeTable × Result StoreError (Unit {0})
unfolding purge has_code_id
create_code c known now t =
    let t' : CodeTable = purge now t in
    if not known || any (has_code_id c.id) t'
    then (t', err conflict)
    else (record c { created_at = unix now } ∷ t', ok tt)

-- DELETE ... WHERE id = ? AND expires_at > ? RETURNING: the row that goes, if any
unfoldable pub redeemable : Bytes → ℕ → OauthAuthCode → Bool
unfolding has_code_id
redeemable i now c = has_code_id i c && ltb (unix now) c.expires_at

unfoldable pub consumed : Bytes → ℕ → CodeTable → Option OauthAuthCode
unfolding redeemable
consumed i now [] = none
consumed i now (c ∷ t) = if redeemable i now c then some c else consumed i now t

unfoldable pub remaining : Bytes → ℕ → CodeTable → CodeTable
unfolding redeemable
remaining i now [] = []
remaining i now (c ∷ t) =
    let rest = remaining i now t in if redeemable i now c then rest else c ∷ rest

unfoldable pub consume : Bytes → ℕ → CodeTable → CodeTable × Option OauthAuthCode
unfolding consumed remaining
consume i now t = (remaining i now t, consumed i now t)

unfoldable pub delete_expired : ℕ → CodeTable → CodeTable × ℕ
unfolding purge
delete_expired now t = (purge now t, length t - length (purge now t))
