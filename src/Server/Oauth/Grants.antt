-- ===== src/Server/Oauth/Grants.antt =====
-- server/internal/store/sqlcommon/oauthgrants.go: the statements on the table oauth_grants, whose
-- columns id and secret_hash are unique (the migrations 0011_oauth.sql and
-- 0012_oauth_refresh_rotation.sql). A statement that breaks a constraint changes nothing and is a
-- conflict. Stored times are seconds; `now` is in nanoseconds.
pub mod Unique
pub mod Rotation
pub mod Absent
pub mod Marked
use funcbox.Prelude.{
  ℕ, Bool, true, false, not, ◌&&◌, ◌||◌, Bytes, str_eq, List, [], ◌∷◌, any, is_empty, Option, none,
  some, Result, ok, err, if◌then◌else◌,
}
use funcbox.Auth.AccessToken.{unix}

pub record OauthGrant : Type 0 where
  pub id : Bytes
  pub user_id : Bytes
  pub client_id : Bytes
  pub secret_hash : Bytes
  pub prev_secret_hash : Bytes
  pub created_at : ℕ
  pub updated_at : ℕ
  pub last_used_at : Option ℕ

abbrev pub GrantTable : Type 0
GrantTable = List OauthGrant

-- store.ErrNotFound, store.ErrConflict, and a statement that the database does not run
pub data StoreError : Type 0 where
  not_found conflict unavailable : StoreError

unfoldable pub has_id : Bytes → OauthGrant → Bool
unfolding str_eq
has_id i g = str_eq g.id i

unfoldable pub has_secret : Bytes → OauthGrant → Bool
unfolding str_eq
has_secret h g = str_eq g.secret_hash h

-- The columns that Create gives; `known` says that the rows of the user and of the client exist.
unfoldable pub create : OauthGrant → Bool → ℕ → GrantTable → Result StoreError GrantTable
unfolding has_id has_secret
create g known now t =
    if not known || any (has_id g.id) t || any (has_secret g.secret_hash) t
    then err conflict
    else ok (
        record g {
          prev_secret_hash = [];
          created_at = unix now;
          updated_at = unix now;
          last_used_at = none;
        }
        ∷ t)

unfoldable pub by_hash : Bytes → GrantTable → Option OauthGrant
unfolding has_secret
by_hash h [] = none
by_hash h (g ∷ t) = if has_secret h g then some g else by_hash h t

unfoldable pub touched : ℕ → OauthGrant → OauthGrant
touched now g = record g { last_used_at = some (unix now); updated_at = unix now }

-- UPDATE ... WHERE
unfoldable pub update_where :
    (OauthGrant → Bool) → (OauthGrant → OauthGrant) → GrantTable → GrantTable
update_where p f [] = []
update_where p f (g ∷ t) = let rest = update_where p f t in if p g then f g ∷ rest else g ∷ rest

-- DELETE ... WHERE
unfoldable pub delete_where : (OauthGrant → Bool) → GrantTable → GrantTable
delete_where p [] = []
delete_where p (g ∷ t) = let rest = delete_where p t in if p g then rest else g ∷ rest

unfoldable pub touch : Bytes → ℕ → GrantTable → Result StoreError GrantTable
unfolding update_where touched has_id
touch i now t =
    if any (has_id i) t then ok (update_where (has_id i) (touched now) t) else err not_found

unfoldable pub delete : Bytes → GrantTable → GrantTable
unfolding delete_where has_id
delete i t = delete_where (has_id i) t

-- The row that the compare-and-swap of Rotate is about.
unfoldable pub is_current : Bytes → Bytes → OauthGrant → Bool
unfolding has_id has_secret
is_current i old g = has_id i g && has_secret old g

unfoldable pub rotated : Bytes → Bytes → ℕ → OauthGrant → OauthGrant
rotated old new now g = record g {
  secret_hash = new;
  prev_secret_hash = old;
  last_used_at = some (unix now);
  updated_at = unix now;
}

-- A row other than the updated one with the new secret breaks the uniqueness.
unfoldable pub takes_secret : Bytes → Bytes → Bytes → OauthGrant → Bool
unfolding is_current has_secret
takes_secret i old new g = not (is_current i old g) && has_secret new g

unfoldable pub rotate : Bytes → Bytes → Bytes → ℕ → GrantTable → Result StoreError GrantTable
unfolding is_current rotated takes_secret update_where
rotate i old new now t =
    if not (any (is_current i old) t)
    then err conflict
    else if any (takes_secret i old new) t
    then err conflict
    else ok (update_where (is_current i old) (rotated old new now) t)

-- WHERE prev_secret_hash = ? AND prev_secret_hash != ''
unfoldable pub retired : Bytes → OauthGrant → Bool
unfolding str_eq
retired h g = str_eq g.prev_secret_hash h && not (is_empty g.prev_secret_hash)

unfoldable pub revoke_if_previous_secret : Bytes → GrantTable → GrantTable × Bool
unfolding delete_where retired
revoke_if_previous_secret h t = (delete_where (retired h) t, any (retired h) t)
