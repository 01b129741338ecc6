-- ===== src/Auth/Accounts.antt =====
-- server/internal/auth/session.go: which user a credential may stand for. A `Directory` is what the
-- store answers to the reads of one call: `none` where a read fails or finds nothing.
use funcbox.Prelude.{
  Bool, not, Bytes, codes, str_eq, List, Option, none, some, Result, ok, err, ◌>>=◌, if◌then◌else◌,
}
use funcbox.Auth.LoginRules.{LoginRule, evaluate_login_rules}

-- store.User, its fields that sign-in reads
pub record User : Type 0 where
  pub id : Bytes
  pub email : Bytes
  pub status : Bytes

abbrev pub user_status_active : Bytes
user_status_active = codes "active"

abbrev pub user_status_disabled : Bytes
user_status_disabled = codes "disabled"

pub record Directory : Type 0 where
  pub user_by_id : Bytes → Option User
  pub user_by_email : Bytes → Option User
  pub login_rules : Option (List LoginRule)

pub data AuthError : Type 0 where
  unauthenticated invoke_forbidden rules_unreadable : AuthError

unfoldable pub check_login_rules : Directory → Bytes → Result AuthError Bool
unfolding evaluate_login_rules
check_login_rules dir email = elim (dir.login_rules) [
  | none ↦ err rules_unreadable
  | some rules ↦ ok (evaluate_login_rules rules email)
]

unfoldable pub validate_active_user : Directory → User → Result AuthError User
unfolding check_login_rules str_eq
validate_active_user dir u =
    if not (str_eq u.status user_status_active)
    then err invoke_forbidden
    else (check_login_rules dir u.email >>= λ allowed.
        if not allowed then err invoke_forbidden else ok u)

unfoldable pub validate_authenticatable : Directory → User → Result AuthError User
unfolding check_login_rules str_eq
validate_authenticatable dir u =
    if str_eq u.status user_status_disabled
    then err unauthenticated
    else (check_login_rules dir u.email >>= λ allowed.
        if not allowed then err unauthenticated else ok u)

-- loadActiveUser and its exported name LoadAuthenticatableUser
unfoldable pub load_active_user : Directory → Bytes → Result AuthError User
unfolding validate_authenticatable
load_active_user dir user_id = elim (dir.user_by_id user_id) [
  | none ↦ err unauthenticated
  | some u ↦ validate_authenticatable dir u
]

unfoldable pub load_active_user_by_email : Directory → Bytes → Result AuthError User
unfolding validate_active_user
load_active_user_by_email dir email = elim (dir.user_by_email email) [
  | none ↦ err unauthenticated
  | some u ↦ validate_active_user dir u
]
