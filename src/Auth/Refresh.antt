-- ===== src/Auth/Refresh.antt =====
-- crates/summer-auth/src/session/manager.rs, `refresh`, with `encode_access` and `encode_refresh` of
-- token/jwt.rs. The two tokens are signed by the jsonwebtoken crate and the new refresh id comes
-- from the uuid crate; both are parameters.
pub mod Once
use summerrs_admin.Base.{
  ℕ, ◌+◌, ◌≤◌, ◌≡◌, refl, Bool, true, false, Option, none, some, List, [], ◌∷◌, ◌++◌, ◌==◌,
  if◌then◌else◌, eq_bytes,
}
use summerrs_admin.Base.Text.{Bytes, codes}
use summerrs_admin.Base.Word.{ℤ, pos, negsuc, pos_part, neg_part, sub_ℕ}
use summerrs_admin.Auth.Bitmap.{PermissionMap, encode}
use summerrs_admin.Auth.UserType.{LoginId, encode_id, decode_id, DeviceType, as_str, device_from}
use summerrs_admin.Auth.Tokens.{
  AuthError, invalid_refresh_token, account_banned, internal, AuthResult, ok, err, access_token,
  refresh_token, AccessClaims, RefreshClaims, DeviceInfo, Crates, decode_refresh,
}
use summerrs_admin.Auth.Session.{
  AuthConfig, AuthStorage, refresh_key, device_key, deny_key, banned, and_then,
}

pub record UserProfile : Type 0 where
  pub user_name : Bytes
  pub nick_name : Bytes
  pub roles : List Bytes
  pub permissions : List Bytes

pub record TokenPair : Type 0 where
  pub access : Bytes
  pub refreshing : Bytes
  pub expires_in : ℤ

-- Signing: jsonwebtoken with the keys of the configuration, its issuer and audience, base64, and
-- serde_json for `DeviceInfo`; none is an error.
pub record Signer : Type 0 where
  pub issuer : Bytes
  pub audience : Bytes
  pub sign_access : AccessClaims → Option Bytes
  pub sign_refresh : RefreshClaims → Option Bytes
  pub b64_encode : List ℕ → Bytes
  pub to_json : DeviceInfo → Option Bytes

-- `now + ttl_seconds`
abbrev plus_ttl : ℕ → ℤ → ℤ
plus_ttl now ttl = sub_ℕ (now + pos_part ttl) (neg_part ttl)

abbrev kept_permissions : Option Bytes → List Bytes → List Bytes
kept_permissions none permissions = permissions
kept_permissions (some pb) permissions = []

abbrev signed : Option Bytes → AuthResult Bytes
signed none = err internal
signed (some token) = ok token

-- `JwtHandler::encode_access`
unfoldable pub encode_access :
    Signer
    → LoginId
    → DeviceType
    → UserProfile
    → Option Bytes
    → (ttl_seconds : ℤ) → (now : ℕ) → AuthResult Bytes
encode_access signer login_id device profile pb ttl_seconds now = signed (
    signer.sign_access (record {
      iss = signer.issuer;
      aud = signer.audience;
      sub = encode_id login_id;
      typ = access_token;
      iat = pos now;
      exp = plus_ttl now ttl_seconds;
      dev = as_str device;
      user_name = profile.user_name;
      nick_name = profile.nick_name;
      roles = profile.roles;
      permissions = kept_permissions pb profile.permissions;
      pb = pb;
    }))

-- `JwtHandler::encode_refresh`, with the id that `Uuid::new_v4` gave.
unfoldable pub encode_refresh :
    Signer → LoginId → (rid : Bytes) → (ttl_seconds : ℤ) → (now : ℕ) → AuthResult Bytes
encode_refresh signer login_id rid ttl_seconds now = signed (
    signer.sign_refresh (record {
      sub = encode_id login_id;
      typ = refresh_token;
      iat = pos now;
      exp = plus_ttl now ttl_seconds;
      rid = rid;
    }))

-- The part behind the last colon: `rsplit_once`.
abbrev after_last : Bytes → Option Bytes
after_last [] = none
after_last (b ∷ s) = elim (after_last s) [
  | none ↦ if b == b':' then some s else none
  | some rest ↦ some rest
]

abbrev pub split_value : Option Bytes → Option (Option Bytes)
split_value none = none
split_value (some v) = some (after_last v)

abbrev pub encode_permissions : Signer → Option PermissionMap → UserProfile → Option Bytes
encode_permissions signer none profile = none
encode_permissions signer (some map) profile = encode signer.b64_encode profile.permissions map

module _ (crates : Crates) (signer : Signer) (config : AuthConfig) (perm_map : Option PermissionMap)
    (T : AuthStorage) where
  abbrev pub store_json : Option Bytes → (dk : Bytes) → (at : ℕ) → T.State → T.State
  store_json none dk at s = s
  store_json (some json) dk at s = (T.set_string dk json config.refresh_timeout at s).1

  abbrev pub store_info : Option DeviceInfo → (rid dk : Bytes) → (at : ℕ) → T.State → T.State
  store_info none rid dk at s = s
  store_info (some info) rid dk at s =
      store_json (signer.to_json (record info { rid = rid })) dk at s

  -- Step 9, whose errors are ignored.
  abbrev pub update_device :
      AuthResult (Option Bytes) × T.State → (rid dk : Bytes) → (at : ℕ) → T.State
  update_device (err e, s) rid dk at = s
  update_device (ok none, s) rid dk at = s
  update_device (ok (some json), s) rid dk at = store_info (crates.from_json json) rid dk at s

  -- Steps 7 to 10, with both tokens signed.
  abbrev pub rotate :
      LoginId
      → DeviceType
      → (rk rid access refreshing : Bytes) → (at : ℕ) → T.State
      → AuthResult TokenPair × T.State
  rotate login_id device rk rid access refreshing at s =
      and_then
        (T.set_string (refresh_key rid) (encode_id login_id ++ b':' ∷ as_str device)
          config.refresh_timeout at s)
        (λ _ s1.
          let s2 = (T.delete rk s1).1 in
          let dk = device_key login_id device in
          (
            ok (record {
              access = access;
              refreshing = refreshing;
              expires_in = config.access_timeout;
            }),
            update_device (T.get_string dk at s2) rid dk at,
          ))

  abbrev pub with_tokens :
      AuthResult Bytes
      → AuthResult Bytes
      → LoginId
      → DeviceType
      → (rk rid : Bytes) → (at : ℕ) → T.State
      → AuthResult TokenPair × T.State
  with_tokens (err e) refreshing login_id device rk rid at s = (err e, s)
  with_tokens (ok access) (err e) login_id device rk rid at s = (err e, s)
  with_tokens (ok access) (ok refreshing) login_id device rk rid at s =
      rotate login_id device rk rid access refreshing at s

  -- Steps 3 to 6: the answer of the deny key.
  abbrev pub unless_banned :
      Option Bytes
      → UserProfile
      → LoginId
      → DeviceType
      → (rk rid : Bytes) → (now at : ℕ) → T.State
      → AuthResult TokenPair × T.State
  unless_banned deny profile login_id device rk rid now at s =
      let pb = encode_permissions signer perm_map profile in
      let go =
        with_tokens (encode_access signer login_id device profile pb config.access_timeout now)
          (encode_refresh signer login_id rid config.refresh_timeout now) login_id device rk rid at
          s in
      elim deny [ none ↦ go | some v ↦ if eq_bytes v banned then (err account_banned, s) else go ]

  -- Steps 2 and 3: the value of the refresh key.
  abbrev pub with_value :
      Option (Option Bytes)
      → UserProfile
      → LoginId
      → (rk rid : Bytes) → (now at : ℕ) → T.State
      → AuthResult TokenPair × T.State
  with_value none profile login_id rk rid now at s = (err invalid_refresh_token, s)
  with_value (some none) profile login_id rk rid now at s = (err invalid_refresh_token, s)
  with_value (some (some device_str)) profile login_id rk rid now at s =
      and_then (T.get_string (deny_key login_id) at s)
        (λ deny s'. unless_banned deny profile login_id (device_from device_str) rk rid now at s')

  abbrev pub with_id :
      Option LoginId
      → RefreshClaims
      → UserProfile
      → (rid : Bytes) → (now at : ℕ) → T.State
      → AuthResult TokenPair × T.State
  with_id none claims profile rid now at s = (err invalid_refresh_token, s)
  with_id (some login_id) claims profile rid now at s =
      and_then (T.get_string (refresh_key claims.rid) at s) (λ value s'.
        with_value (split_value value) profile login_id (refresh_key claims.rid) rid now at s')

  abbrev pub with_claims :
      AuthResult RefreshClaims
      → UserProfile
      → (rid : Bytes) → (now at : ℕ) → T.State
      → AuthResult TokenPair × T.State
  with_claims (err e) profile rid now at s = (err e, s)
  with_claims (ok claims) profile rid now at s =
      with_id (decode_id claims.sub) claims profile rid now at s

  -- `SessionManager::refresh`; `rid` is the id of the new refresh token.
  unfoldable pub refresh :
      (token : Bytes)
      → UserProfile
      → (rid : Bytes) → (now at : ℕ) → T.State
      → AuthResult TokenPair × T.State
  unfolding encode_access encode_refresh
  refresh token profile rid now at s =
      with_claims (decode_refresh crates now token) profile rid now at s
