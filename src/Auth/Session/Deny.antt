-- ===== src/Auth/Session/Deny.antt =====
-- What a deny entry does to the tokens of a user, over the storage in memory.
use summerrs_admin.Base.{
  ℕ, ◌+◌, ◌≤◌, ◌<◌, ◌≡◌, refl, ap, ◌∙◌, Bool, true, false, Option, none, some, List, ◌∷◌, ◌==◌, ltb,
  if◌then◌else◌, eq_bytes_refl, lt→ltb, ◌%◌, Bool-cases, inl, inr, arith,
}
use summerrs_admin.Base.Text.{Bytes, codes, decimal, strip_prefix-append}
use summerrs_admin.Base.Word.{ℤ, pos, pos_part, i64_max}
use summerrs_admin.Auth.Bitmap.{PermissionMap}
use summerrs_admin.Auth.UserType.{LoginId, decode_id, DeviceType}
use summerrs_admin.Auth.UserType.Roundtrips.{parse-decimal}
use summerrs_admin.Auth.Storage.{
  Entry, MemoryStorage, is_expired, find, retain_live, purge_expired, maybe_cleanup, set_string,
  get_string, delete, remove, cleanup_interval,
}
use summerrs_admin.Auth.Storage.Refinement.{valid, removed_is_gone}
use summerrs_admin.Auth.Storage.Runs.{get_string-valid}
use summerrs_admin.Auth.Tokens.{
  account_banned, refresh_required, AuthResult, ok, err, AccessClaims, Crates, decode_access,
}
use summerrs_admin.Auth.Session.{
  ValidatedAccess, memory_storage, AuthConfig, deny_key, leb_ℤ, compare_iat, read_deny, deny_error,
  validated, or_error, validate_token, deny_since, banned, force_refresh, logout, logout_all,
  ban_user, unban_user, kick_out, year,
}

-- An entry that is put first and has not expired survives the cleaning.
find-retain_live :
    (key : Bytes) (e : Entry) (rest : List (Bytes × Entry)) (now : ℕ)
    → is_expired now e.expires_at ≡ false
    → find key (retain_live now ((key, e) ∷ rest)) ≡ some e
unfolding retain_live
find-retain_live key e rest now live = rw (live, eq_bytes_refl key) refl

find-maybe_cleanup :
    (key : Bytes) (e : Entry) (rest : List (Bytes × Entry)) (now count : ℕ)
    → is_expired now e.expires_at ≡ false
    → find key
        (maybe_cleanup now (record { entries = (key, e) ∷ rest; write_count = count })).entries
      ≡ some e
unfolding maybe_cleanup purge_expired
find-maybe_cleanup key e rest now count live = elim (Bool-cases (count % cleanup_interval == 0)) [
  | inl due ↦ rw due (find-retain_live key e rest now live)
  | inr not_due ↦ rw (not_due, eq_bytes_refl key) refl
]

not_past : (at ttl : ℕ) → ltb (at + ttl) at ≡ false
not_past at ttl = ground arith

still :
    (t : ℕ) (value : Bytes) (ts : ℕ)
    → t ≤ ts
    → valid t (some (record { value = value; expires_at = some ts })) ≡ some value
still t value ts h = rw (let live : ltb ts t ≡ false = ground arith in live) refl

-- A value that was put with a lifetime is read until the lifetime has passed.
pub get_string-set_string :
    (key value : Bytes) (ttl : ℤ) (at t : ℕ) (s : MemoryStorage)
    → 0 < pos_part ttl
    → at ≤ t
    → t ≤ at + pos_part ttl
    → (get_string key t (set_string key value ttl at s)).0 ≡ some value
unfolding set_string
get_string-set_string key value ttl at t s has from until =
    let e : Entry = record { value = value; expires_at = some (at + pos_part ttl) } in
    let on : ltb 0 (pos_part ttl) ≡ true = lt→ltb 0 (pos_part ttl) has in
    rw on (
      get_string-valid key t (
        maybe_cleanup at
          (record { entries = (key, e) ∷ remove key s.entries; write_count = s.write_count }))
      ∙ ap (valid t) (
          find-maybe_cleanup key e (remove key s.entries) at s.write_count
            (not_past at (pos_part ttl)))
      ∙ still t value (at + pos_part ttl) until)

pub get_string-delete :
    (key : Bytes) (t : ℕ) (s : MemoryStorage) → (get_string key t (delete key s)).0 ≡ none
unfolding delete
get_string-delete key t s =
    get_string-valid key t (delete key s) ∙ ap (valid t) (removed_is_gone key s.entries)

-- The deny value of a moment denies the tokens that were issued until then.
deny_error-deny_since :
    (iat : ℤ) (now : ℕ)
    → now ≤ i64_max
    → deny_error iat (some (deny_since now))
      ≡ (if leb_ℤ iat (pos now) then some refresh_required else none)
unfolding deny_error
deny_error-deny_since iat now h =
    ap (read_deny iat) (strip_prefix-append (codes "refresh:") (decimal now))
    ∙ ap (compare_iat iat) (parse-decimal now h)

refuse_if :
    (b : Bool) (result : AuthResult ValidatedAccess)
    → or_error (if b then some refresh_required else none) result
      ≡ (if b then err refresh_required else result)
refuse_if true result = refl
refuse_if false result = refl

-- What a valid token gives after the user's tokens issued until `since` are denied.
abbrev pub answer_since :
    Crates
    → Option PermissionMap
    → LoginId
    → AccessClaims
    → (since : ℕ) → AuthResult ValidatedAccess
answer_since crates perm_map login_id claims since =
    if leb_ℤ claims.iat (pos since)
    then err refresh_required
    else validated crates perm_map login_id claims

module _ (crates : Crates) (config : AuthConfig) (perm_map : Option PermissionMap) (token : Bytes)
    (now : ℕ) (claims : AccessClaims) (login_id : LoginId)
    (checks : config.per_request_deny_check ≡ true)
    (genuine : decode_access crates now token ≡ ok claims)
    (names : decode_id claims.sub ≡ some login_id) where
  -- What a valid token of the user gives when the storage has this deny value.
  abbrev pub answer : Option Bytes → AuthResult ValidatedAccess
  answer deny_value =
      or_error (deny_error claims.iat deny_value) (validated crates perm_map login_id claims)

  memory_answer :
      (at : ℕ) (s : MemoryStorage)
      → (validate_token crates memory_storage config perm_map token now at s).0
        ≡ answer (get_string (deny_key login_id) at s).0
  unfolding validate_token
  memory_answer at s = rw (genuine, names, checks) refl

  denied :
      (value : Bytes) (ttl : ℤ) (at t : ℕ) (s : MemoryStorage)
      → 0 < pos_part ttl
      → at ≤ t
      → t ≤ at + pos_part ttl
      → (validate_token crates memory_storage config perm_map token now t
          (set_string (deny_key login_id) value ttl at s)).0
        ≡ answer (some value)
  denied value ttl at t s has from until =
      memory_answer t (set_string (deny_key login_id) value ttl at s)
      ∙ ap answer (get_string-set_string (deny_key login_id) value ttl at t s has from until)

  answer-deny_since :
      (since : ℕ)
      → since ≤ i64_max
      → answer (some (deny_since since)) ≡ answer_since crates perm_map login_id claims since
  answer-deny_since since h =
      ap (λ e. or_error e (validated crates perm_map login_id claims))
        (deny_error-deny_since claims.iat since h)
      ∙ refuse_if (leb_ℤ claims.iat (pos since)) (validated crates perm_map login_id claims)

  -- With the deny check on each request and a clock that fits an i64, `force_refresh` makes a
  -- genuine token of the user ask for a refresh if it was issued until then, and lets one that was
  -- issued later pass, from then until the access timeout has passed.
  pub force_refresh-denies :
      (since at t : ℕ) (s : MemoryStorage)
      → since ≤ i64_max
      → 0 < pos_part config.access_timeout
      → at ≤ t
      → t ≤ at + pos_part config.access_timeout
      → (validate_token crates memory_storage config perm_map token now t
          (force_refresh crates memory_storage config login_id since at s).1).0
        ≡ answer_since crates perm_map login_id claims since
  unfolding force_refresh
  force_refresh-denies since at t s typed has from until =
      denied (deny_since since) config.access_timeout at t s has from until
      ∙ answer-deny_since since typed

  -- Kicking a user out, from one device or from all, denies the user's genuine tokens in the same
  -- way and under the same conditions as `force_refresh`.
  pub kick_out-denies :
      (device : Option DeviceType) (since at t : ℕ) (s : MemoryStorage)
      → since ≤ i64_max
      → 0 < pos_part config.access_timeout
      → at ≤ t
      → t ≤ at + pos_part config.access_timeout
      → (validate_token crates memory_storage config perm_map token now t
          (kick_out crates memory_storage config login_id device since at s).1).0
        ≡ answer_since crates perm_map login_id claims since
  unfolding kick_out logout logout_all
  kick_out-denies none since at t s typed has from until =
      denied (deny_since since) config.access_timeout at t _ has from until
      ∙ answer-deny_since since typed
  kick_out-denies (some d) since at t s typed has from until =
      denied (deny_since since) config.access_timeout at t _ has from until
      ∙ answer-deny_since since typed

  -- With the deny check on each request, for 365 days after `ban_user` a genuine token of the user
  -- is refused as banned, and after `unban_user` it is valid at once, whatever was denied before.
  pub ban_user-denies :
      (at t u : ℕ) (s s' : MemoryStorage)
      → at ≤ t
      → t ≤ at + 31536000
      → ((validate_token crates memory_storage config perm_map token now t
            (ban_user crates memory_storage login_id at s).1).0
          ≡ err account_banned)
        × ((validate_token crates memory_storage config perm_map token now u
              (unban_user crates memory_storage login_id s').1).0
            ≡ validated crates perm_map login_id claims)
  unfolding ban_user unban_user deny_error
  ban_user-denies at t u s s' from until = (
    denied banned year at t _ (omega arith) from (omega arith),
    memory_answer u (delete (deny_key login_id) s')
        ∙ ap answer (get_string-delete (deny_key login_id) u s'),
  )
