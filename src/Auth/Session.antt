-- ===== src/Auth/Session.antt =====
-- crates/summer-auth/src/session/manager.rs: validating tokens, denying, and clearing devices, over any storage. The storage
-- reads its clock once in an operation of the manager (`at`), and the manager its own (`now`).
pub mod Deny
use summerrs_admin.Base.{
  ℕ, zero, suc, ◌+◌, ◌*◌, ◌≤◌, ◌≡◌, refl, Bool, true, false, not, ◌&&◌, Option, none, some, List,
  [], ◌∷◌, ◌++◌, ◌==◌, leb, ltb, if◌then◌else◌, eq_bytes,
}
use summerrs_admin.Base.Text.{Bytes, codes, decimal, starts_with, strip_prefix}
use summerrs_admin.Base.Word.{ℤ, pos, negsuc}
use summerrs_admin.Auth.Bitmap.{PermissionMap, decode}
use summerrs_admin.Auth.UserType.{
  LoginId, encode_id, decode_id, parse_i64, DeviceType, as_str, device_from,
}
use summerrs_admin.Auth.Storage.{MemoryStorage, set_string, get_string, delete, keys_by_prefix}
use summerrs_admin.Auth.Tokens.{
  AuthError, invalid_token, token_expired, invalid_refresh_token, refresh_token_expired,
  account_banned, refresh_required, storage_failed, AuthResult, ok, err, TokenType, access_token,
  refresh_token, AccessClaims, RefreshClaims, DeviceInfo, Verdict, verified, expired_signature,
  refused, Crates, decode_access, decode_refresh,
}

pub record ValidatedAccess : Type 0 where
  pub login_id : LoginId
  pub device : DeviceType
  pub user_name : Bytes
  pub nick_name : Bytes
  pub roles : List Bytes
  pub permissions : List Bytes

-- The trait `AuthStorage`; `err` is an `anyhow::Error`.
pub record AuthStorage : Type 1 where
  pub State : Type 0
  pub set_string :
      (key value : Bytes) → (ttl_seconds : ℤ) → (at : ℕ) → State → AuthResult Unit × State
  pub get_string : (key : Bytes) → (at : ℕ) → State → AuthResult (Option Bytes) × State
  pub delete : (key : Bytes) → State → AuthResult Unit × State
  pub keys_by_prefix : (prefix : Bytes) → (at : ℕ) → State → AuthResult (List Bytes) × State

-- `MemoryStorage` as an `AuthStorage`: it never fails.
abbrev memory_get : Option Bytes × MemoryStorage → AuthResult (Option Bytes) × MemoryStorage
memory_get (o, s) = (ok o, s)

abbrev pub memory_storage : AuthStorage
memory_storage = record {
  State = MemoryStorage;
  set_string = λ key value ttl at s. (ok tt, set_string key value ttl at s);
  get_string = λ key at s. memory_get (get_string key at s);
  delete = λ key s. (ok tt, delete key s);
  keys_by_prefix = λ prefix at s. (ok (keys_by_prefix prefix at s), s);
}

abbrev pub refresh_key : Bytes → Bytes
refresh_key rid = codes "auth:refresh:" ++ rid

abbrev pub device_key : LoginId → DeviceType → Bytes
device_key login_id device = codes "auth:device:" ++ encode_id login_id ++ b':' ∷ as_str device

abbrev pub deny_key : LoginId → Bytes
deny_key login_id = codes "auth:deny:" ++ encode_id login_id

abbrev pub device_prefix : LoginId → Bytes
device_prefix login_id = codes "auth:device:" ++ encode_id login_id ++ b':' ∷ []

-- `<=` of i64.
abbrev pub leb_ℤ : ℤ → ℤ → Bool
leb_ℤ (pos a) (pos b) = leb a b
leb_ℤ (pos a) (negsuc b) = false
leb_ℤ (negsuc a) (pos b) = true
leb_ℤ (negsuc a) (negsuc b) = leb b a

abbrev pub compare_iat : ℤ → Option ℤ → Option AuthError
compare_iat iat none = some invalid_token
compare_iat iat (some deny_ts) = if leb_ℤ iat deny_ts then some refresh_required else none

abbrev pub read_deny : ℤ → Option Bytes → Option AuthError
read_deny iat none = some invalid_token
read_deny iat (some rest) = compare_iat iat (parse_i64 rest)

-- The match on the deny value in `validate_token`: the error, if there is one.
unfoldable pub deny_error : (iat : ℤ) → Option Bytes → Option AuthError
deny_error iat none = none
deny_error iat (some v) =
    if eq_bytes v (codes "banned")
    then some account_banned
    else read_deny iat (strip_prefix (codes "refresh:") v)

-- The fields of `AuthConfig` that are read here.
pub record AuthConfig : Type 0 where
  pub access_timeout : ℤ
  pub refresh_timeout : ℤ
  pub per_request_deny_check : Bool

-- `?` on a result of the storage.
abbrev pub and_then :
    {S A B : Type 0} → AuthResult A × S → (A → S → AuthResult B × S) → AuthResult B × S
and_then (ok a, s) k = k a s
and_then (err e, s) k = (err e, s)

abbrev claimed_permissions : Crates → Option PermissionMap → Option Bytes → List Bytes → List Bytes
claimed_permissions crates perm_map none permissions = permissions
claimed_permissions crates none (some pb) permissions = permissions
claimed_permissions crates (some map) (some pb) permissions = decode crates.b64_decode pb map

-- Steps 3 and 4 of `validate_token`.
unfoldable pub validated :
    Crates → Option PermissionMap → LoginId → AccessClaims → AuthResult ValidatedAccess
validated crates perm_map login_id claims = ok (record {
  login_id = login_id;
  device = device_from claims.dev;
  user_name = claims.user_name;
  nick_name = claims.nick_name;
  roles = claims.roles;
  permissions = claimed_permissions crates perm_map claims.pb claims.permissions;
})

abbrev pub or_error : Option AuthError → AuthResult ValidatedAccess → AuthResult ValidatedAccess
or_error none result = result
or_error (some e) result = err e

-- The deny values and the lifetime of a ban.
abbrev pub deny_since : ℕ → Bytes
deny_since now = codes "refresh:" ++ decimal now

abbrev pub banned : Bytes
banned = codes "banned"

abbrev pub year : ℤ
year = pos (365 * 24 * 3600)

module _ (crates : Crates) (T : AuthStorage) where
  -- Step 2 and what follows it.
  abbrev pub check_deny :
      AuthConfig
      → Option PermissionMap
      → AccessClaims
      → (at : ℕ) → Option LoginId
      → T.State
      → AuthResult ValidatedAccess × T.State
  check_deny config perm_map claims at none s = (err invalid_token, s)
  check_deny config perm_map claims at (some login_id) s =
      let result = validated crates perm_map login_id claims in
      if config.per_request_deny_check
      then and_then (T.get_string (deny_key login_id) at s)
          (λ deny_value s'. (or_error (deny_error claims.iat deny_value) result, s'))
      else (result, s)

  abbrev pub check_claims :
      AuthConfig
      → Option PermissionMap
      → (at : ℕ) → AuthResult AccessClaims
      → T.State
      → AuthResult ValidatedAccess × T.State
  check_claims config perm_map at (err e) s = (err e, s)
  check_claims config perm_map at (ok claims) s =
      check_deny config perm_map claims at (decode_id claims.sub) s

  unfoldable pub validate_token :
      AuthConfig
      → Option PermissionMap
      → (access_token : Bytes) → (now at : ℕ) → T.State
      → AuthResult ValidatedAccess × T.State
  unfolding validated decode_access deny_error
  validate_token config perm_map token now at s =
      check_claims config perm_map at (decode_access crates now token) s

  abbrev login_of : Option LoginId → AuthResult LoginId
  login_of none = err invalid_refresh_token
  login_of (some login_id) = ok login_id

  abbrev subject : AuthResult RefreshClaims → AuthResult LoginId
  subject (err e) = err e
  subject (ok claims) = login_of (decode_id claims.sub)

  unfoldable pub parse_refresh_token : (token : Bytes) → (now : ℕ) → AuthResult LoginId
  unfolding decode_refresh
  parse_refresh_token token now = subject (decode_refresh crates now token)

  -- Deletes the refresh key of a device entry that was read and understood, ignoring errors.
  abbrev forget_parsed : Option DeviceInfo → T.State → T.State
  forget_parsed none s = s
  forget_parsed (some info) s = (T.delete (refresh_key info.rid) s).1

  abbrev forget_refresh : AuthResult (Option Bytes) × T.State → T.State
  forget_refresh (err e, s) = s
  forget_refresh (ok none, s) = s
  forget_refresh (ok (some json), s) = forget_parsed (crates.from_json json) s

  -- What `cleanup_device` and the loops over all devices do with one device key.
  abbrev pub clear_key : (key : Bytes) → (at : ℕ) → T.State → T.State
  clear_key key at s = (T.delete key (forget_refresh (T.get_string key at s))).1

  unfoldable pub cleanup_device : LoginId → DeviceType → (at : ℕ) → T.State → T.State
  cleanup_device login_id device at s = clear_key (device_key login_id device) at s

  abbrev pub clear_all : List Bytes → (at : ℕ) → T.State → T.State
  clear_all [] at s = s
  clear_all (key ∷ keys) at s = clear_all keys at (clear_key key at s)

  unfoldable pub force_refresh :
      AuthConfig → LoginId → (now at : ℕ) → T.State → AuthResult Unit × T.State
  force_refresh config login_id now at s =
      T.set_string (deny_key login_id) (deny_since now) config.access_timeout at s

  unfoldable pub logout :
      AuthConfig → LoginId → DeviceType → (now at : ℕ) → T.State → AuthResult Unit × T.State
  unfolding cleanup_device
  logout config login_id device now at s =
      T.set_string (deny_key login_id) (deny_since now) config.access_timeout at
        (cleanup_device login_id device at s)

  unfoldable pub logout_all :
      AuthConfig → LoginId → (now at : ℕ) → T.State → AuthResult Unit × T.State
  logout_all config login_id now at s =
      and_then (T.keys_by_prefix (device_prefix login_id) at s) (λ keys s'.
        T.set_string (deny_key login_id) (deny_since now) config.access_timeout at
          (clear_all keys at s'))

  unfoldable pub ban_user : LoginId → (at : ℕ) → T.State → AuthResult Unit × T.State
  ban_user login_id at s =
      and_then (T.keys_by_prefix (device_prefix login_id) at s)
        (λ keys s'. T.set_string (deny_key login_id) banned year at (clear_all keys at s'))

  unfoldable pub unban_user : LoginId → T.State → AuthResult Unit × T.State
  unban_user login_id s = T.delete (deny_key login_id) s

  unfoldable pub kick_out :
      AuthConfig → LoginId → Option DeviceType → (now at : ℕ) → T.State → AuthResult Unit × T.State
  unfolding logout logout_all
  kick_out config login_id (some d) now at s = logout config login_id d now at s
  kick_out config login_id none now at s = logout_all config login_id now at s
