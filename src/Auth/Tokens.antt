-- ===== src/Auth/Tokens.antt =====
-- crates/summer-auth/src/token/jwt.rs: the claims of tokens and their checks, with the errors of
-- error.rs and the crates that the session manager calls.
use summerrs_admin.Base.{ℕ, Option, List}
use summerrs_admin.Base.Text.{Bytes}
use summerrs_admin.Base.Word.{ℤ}

-- The errors of `AuthError` that occur here; the text of `internal` is that of the crate.
pub data AuthError : Type 0 where
  invalid_token token_expired invalid_refresh_token refresh_token_expired : AuthError
  account_banned refresh_required : AuthError
  storage_failed : Bytes → AuthError
  internal : AuthError

pub data AuthResult (A : Type 0) : Type 0 where
  ok : A → AuthResult A
  err : AuthError → AuthResult A

pub data TokenType : Type 0 where
  access_token : TokenType
  refresh_token : TokenType

pub record AccessClaims : Type 0 where
  pub iss : Bytes
  pub aud : Bytes
  pub sub : Bytes
  pub typ : TokenType
  pub iat : ℤ
  pub exp : ℤ
  pub dev : Bytes
  pub user_name : Bytes
  pub nick_name : Bytes
  pub roles : List Bytes
  pub permissions : List Bytes
  pub pb : Option Bytes

pub record RefreshClaims : Type 0 where
  pub sub : Bytes
  pub typ : TokenType
  pub iat : ℤ
  pub exp : ℤ
  pub rid : Bytes

pub record DeviceInfo : Type 0 where
  pub rid : Bytes
  pub login_time : ℤ
  pub login_ip : Bytes
  pub user_agent : Bytes

-- What `jsonwebtoken::decode` answers.
pub data Verdict (A : Type 0) : Type 0 where
  verified : A → Verdict A
  expired_signature : Verdict A
  refused : Verdict A

-- The crates that the manager calls: jsonwebtoken with the keys of the configuration, base64, and
-- serde_json for `DeviceInfo`.
pub record Crates : Type 0 where
  pub jwt_access : (now : ℕ) → Bytes → Verdict AccessClaims
  pub jwt_refresh : (now : ℕ) → Bytes → Verdict RefreshClaims
  pub b64_decode : Bytes → Option (List ℕ)
  pub from_json : Bytes → Option DeviceInfo

abbrev access_of : Verdict AccessClaims → AuthResult AccessClaims
access_of expired_signature = err token_expired
access_of refused = err invalid_token
access_of (verified claims) = elim (claims.typ) [
  | access_token ↦ ok claims
  | refresh_token ↦ err invalid_token
]

abbrev refresh_of : Verdict RefreshClaims → AuthResult RefreshClaims
refresh_of expired_signature = err refresh_token_expired
refresh_of refused = err invalid_refresh_token
refresh_of (verified claims) = elim (claims.typ) [
  | access_token ↦ err invalid_refresh_token
  | refresh_token ↦ ok claims
]

-- `JwtHandler::decode_access` and `decode_refresh`
unfoldable pub decode_access : Crates → (now : ℕ) → Bytes → AuthResult AccessClaims
decode_access crates now token = access_of (crates.jwt_access now token)

unfoldable pub decode_refresh : Crates → (now : ℕ) → Bytes → AuthResult RefreshClaims
decode_refresh crates now token = refresh_of (crates.jwt_refresh now token)
