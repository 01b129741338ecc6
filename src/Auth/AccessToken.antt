-- ===== src/Auth/AccessToken.antt =====
-- server/internal/auth/accesstoken.go, and the bearer half of `Authenticate` in session.go. Times are
-- nanoseconds since the epoch, and the `iat` and `exp` of a token are seconds.
pub mod Lifetime
use funcbox.Prelude.{
  ℕ, ◌+◌, ◌*◌, ◌/◌, Bool, true, false, not, ◌||◌, Bytes, codes, str_eq, [], ◌∷◌, ◌++◌, Option, none,
  some, Result, ok, err, ◌>>=◌, if◌then◌else◌, ltb, leb, is_empty, ◌==◌,
}
use funcbox.Go.Strconv.{ℤ, pos, negsuc}
use funcbox.Go.Strings.{has_prefix, cut_prefix, cut}
use funcbox.Auth.Accounts.{AuthError, unauthenticated, Directory, User, load_active_user}

abbrev pub second : ℕ
second = 1000000000

-- time.Time.Unix
abbrev pub unix : ℕ → ℕ
unix now = now / second

abbrev pub access_token_prefix : Bytes
access_token_prefix = codes "fbxa_"

abbrev pub default_access_token_ttl : ℕ
default_access_token_ttl = 15 * 60 * second

abbrev pub max_access_token_ttl : ℕ
max_access_token_ttl = 60 * 60 * second

abbrev pub access_token_kind : Bytes
access_token_kind = codes "access"

abbrev pub audience_mcp : Bytes
audience_mcp = codes "mcp"

pub record Claims : Type 0 where
  pub sub : Bytes
  pub email : Bytes
  pub iat : ℕ
  pub exp : ℕ
  pub kind : Bytes
  pub aud : Bytes

-- The standard library's JSON, base64.RawURLEncoding and HMAC-SHA256 under the server's key.
pub record Codec : Type 0 where
  pub marshal : Claims → Bytes
  pub unmarshal : Bytes → Option Claims
  pub encode : Bytes → Bytes
  pub decode : Bytes → Option Bytes
  pub mac : Bytes → Bytes

-- ClampAccessTokenTTL
unfoldable pub clamp_access_token_ttl : ℤ → ℕ
clamp_access_token_ttl (negsuc n) = default_access_token_ttl
clamp_access_token_ttl (pos n) =
    if leb n 0
    then default_access_token_ttl
    else if ltb max_access_token_ttl n
    then max_access_token_ttl
    else n

unfoldable pub sign_access_token : Codec → Claims → Bytes
sign_access_token codec c =
    let p : Bytes = codec.encode (codec.marshal c) in
    access_token_prefix ++ p ++ b'.' ∷ codec.encode (codec.mac p)

-- What issueAccessToken claims for a user that it found.
unfoldable pub claims_of : User → ℤ → Bytes → ℕ → Claims
unfolding clamp_access_token_ttl
claims_of u ttl aud now = record {
  sub = u.id;
  email = u.email;
  iat = unix now;
  exp = unix (now + clamp_access_token_ttl ttl);
  kind = access_token_kind;
  aud = aud;
}

-- issueAccessToken, at the time `now`: the token and when it expires
unfoldable pub issue_access_token :
    Codec → Directory → Bytes → ℤ → Bytes → ℕ → Result AuthError (Bytes × ℕ)
unfolding sign_access_token claims_of clamp_access_token_ttl
issue_access_token codec dir user_id ttl aud now = elim (dir.user_by_id user_id) [
  | none ↦ err unauthenticated
  | some u ↦
      ok (sign_access_token codec (claims_of u ttl aud now), now + clamp_access_token_ttl ttl)
]

-- json.Unmarshal, and the tests on what it read
unfoldable pub claims_at : Codec → ℕ → Bytes → Result AuthError Claims
unfolding str_eq
claims_at codec now b = elim (codec.unmarshal b) [
  | none ↦ err unauthenticated
  | some c ↦
      if not (str_eq c.kind access_token_kind) || is_empty c.sub
      then err unauthenticated
      else if leb c.exp (unix now)
      then err unauthenticated
      else ok c
]

unfoldable pub verify_parts : Codec → ℕ → Bytes → Bytes → Result AuthError Claims
unfolding str_eq claims_at
verify_parts codec now p sig = elim (codec.decode sig) [
  | none ↦ err unauthenticated
  | some got ↦
      if not (str_eq got (codec.mac p))
      then err unauthenticated
      else elim (codec.decode p) [ none ↦ err unauthenticated | some b ↦ claims_at codec now b ]
]

unfoldable pub verify_access_token : Codec → ℕ → Bytes → Result AuthError Claims
unfolding cut_prefix cut verify_parts
verify_access_token codec now raw = elim (cut_prefix raw access_token_prefix) [
  | none ↦ err unauthenticated
  | some body ↦ elim (cut b'.' body) [
    | none ↦ err unauthenticated
    | some parts ↦ verify_parts codec now (parts.0) (parts.1)
  ]
]

-- authenticateAccessToken, the user of its Actor
unfoldable pub authenticate_access_token : Codec → Directory → ℕ → Bytes → Result AuthError User
unfolding verify_access_token load_active_user
authenticate_access_token codec dir now raw =
    verify_access_token codec now raw >>= λ claims. load_active_user dir claims.sub

-- AccessTokenAudience
unfoldable pub access_token_audience : Codec → ℕ → Bytes → Option Bytes
unfolding verify_access_token
access_token_audience codec now raw = elim (verify_access_token codec now raw) [
  | err e ↦ none
  | ok claims ↦ some claims.aud
]

-- Authenticate on a request whose Authorization header `hdr` is not empty
unfoldable pub authenticate_bearer : Codec → Directory → ℕ → Bytes → Result AuthError User
unfolding cut_prefix has_prefix access_token_audience authenticate_access_token
authenticate_bearer codec dir now hdr = elim (cut_prefix hdr (codes "Bearer ")) [
  | none ↦ err unauthenticated
  | some raw ↦
      if not (has_prefix raw access_token_prefix)
      then err unauthenticated
      else elim (access_token_audience codec now raw) [
        | none ↦ err unauthenticated
        | some aud ↦
            if not (is_empty aud)
            then err unauthenticated
            else authenticate_access_token codec dir now raw
      ]
]
