-- ===== src/Auth/Refresh/Once.antt =====
-- A refresh token is used up by a refresh, over the storage in memory.
use summerrs_admin.Base.{
  ℕ, ◌≡◌, refl, ap, ◌∙◌, false, Option, none, some, List, All, eq_bytes, Bool-cases, inl, inr,
}
use summerrs_admin.Base.Text.{Bytes}
use summerrs_admin.Auth.Bitmap.{PermissionMap}
use summerrs_admin.Auth.UserType.{LoginId, decode_id, DeviceType, device_from}
use summerrs_admin.Auth.Tokens.{
  invalid_refresh_token, AuthResult, ok, err, RefreshClaims, DeviceInfo, Crates, decode_refresh,
}
use summerrs_admin.Auth.Storage.{MemoryStorage, find, set_string, get_string, delete}
use summerrs_admin.Auth.Storage.Refinement.{valid, removed_is_gone}
use summerrs_admin.Auth.Storage.Runs.{Event, run, get_string-valid}
use summerrs_admin.Auth.Session.{
  AuthConfig, memory_storage, refresh_key, device_key, deny_key, banned,
}
use summerrs_admin.Auth.Refresh.{
  UserProfile, TokenPair, Signer, store_json, store_info, update_device, rotate, with_tokens,
  unless_banned, with_value, split_value, refresh,
}
use summerrs_admin.Auth.Storage.Absent.{
  Absent, sets, set_string-Absent, read_entry-Absent, run-Absent,
}

module _ (crates : Crates) (signer : Signer) (config : AuthConfig)
    (perm_map : Option PermissionMap) where
  store_info-Absent :
      (info : Option DeviceInfo) (rid dk k : Bytes) (at : ℕ) (s : MemoryStorage)
      → eq_bytes dk k ≡ false
      → Absent k s
      → Absent k (store_info crates signer config perm_map memory_storage info rid dk at s)
  store_info-Absent none rid dk k at s other h = h
  store_info-Absent (some info) rid dk k at s other h =
      stored (signer.to_json (record info { rid = rid }))
    where
      stored :
          (json : Option Bytes)
          → Absent k (store_json crates signer config perm_map memory_storage json dk at s)
      stored none = h
      stored (some json) = set_string-Absent dk k json config.refresh_timeout at s other h

  update_device-Absent :
      (o : Option Bytes) (rid dk k : Bytes) (at : ℕ) (s : MemoryStorage)
      → eq_bytes dk k ≡ false
      → Absent k s
      → Absent k (update_device crates signer config perm_map memory_storage (ok o, s) rid dk at)
  update_device-Absent none rid dk k at s other h = h
  update_device-Absent (some json) rid dk k at s other h =
      store_info-Absent (crates.from_json json) rid dk k at s other h

  rotate-Absent :
      (login_id : LoginId) (device : DeviceType) (old rid access refreshing : Bytes) (at : ℕ)
      (s : MemoryStorage)
      → Absent
          (refresh_key old)
          (rotate crates signer config perm_map memory_storage login_id device
            (refresh_key old)
            rid
            access
            refreshing
            at
            s).1
  unfolding delete get_string Absent
  rotate-Absent login_id device old rid access refreshing at s =
      let dk = device_key login_id device in
      let s1 = set_string (refresh_key rid) _ config.refresh_timeout at s in
      let s2 = delete (refresh_key old) s1 in
      update_device-Absent (get_string dk at s2).0 rid dk (refresh_key old) at
        (get_string dk at s2).1 refl
        (read_entry-Absent dk (refresh_key old) at s2 (find dk s2.entries)
          (removed_is_gone (refresh_key old) s1.entries))

  module _ (old rid : Bytes) (profile : UserProfile) (login_id : LoginId) (now at : ℕ)
      (pair : TokenPair) where
    tokens-Absent :
        (a b : AuthResult Bytes) (device : DeviceType) (s : MemoryStorage)
        → (with_tokens crates signer config perm_map memory_storage a b login_id device
            (refresh_key old)
            rid
            at
            s).0
          ≡ ok pair
        → Absent
            (refresh_key old)
            (with_tokens crates signer config perm_map memory_storage a b login_id device
              (refresh_key old)
              rid
              at
              s).1
    tokens-Absent (err e) b device s h = absurd (cc h)
    tokens-Absent (ok access) (err e) device s h = absurd (cc h)
    tokens-Absent (ok access) (ok refreshing) device s h =
        rotate-Absent login_id device old rid access refreshing at s

    unless_banned-Absent :
        (deny : Option Bytes) (device : DeviceType) (s : MemoryStorage)
        → (unless_banned crates signer config perm_map memory_storage deny profile login_id device
            (refresh_key old)
            rid
            now
            at
            s).0
          ≡ ok pair
        → Absent
            (refresh_key old)
            (unless_banned crates signer config perm_map memory_storage deny profile login_id device
              (refresh_key old)
              rid
              now
              at
              s).1
    unless_banned-Absent none device s h = tokens-Absent _ _ device s h
    unless_banned-Absent (some v) device s h = elim (Bool-cases (eq_bytes v banned)) [
      | inl yes_banned ↦ absurd (cc (rw yes_banned at h))
      | inr not_banned ↦ rw not_banned (tokens-Absent _ _ device s (rw not_banned at h))
    ]

    with_value-Absent :
        (value : Option (Option Bytes)) (s : MemoryStorage)
        → (with_value crates signer config perm_map memory_storage value profile login_id
            (refresh_key old)
            rid
            now
            at
            s).0
          ≡ ok pair
        → Absent
            (refresh_key old)
            (with_value crates signer config perm_map memory_storage value profile login_id
              (refresh_key old)
              rid
              now
              at
              s).1
    with_value-Absent none s h = absurd (cc h)
    with_value-Absent (some none) s h = absurd (cc h)
    with_value-Absent (some (some device_str)) s h =
        unless_banned-Absent (get_string (deny_key login_id) at s).0 (device_from device_str)
          (get_string (deny_key login_id) at s).1 h

  -- Without its refresh key a token is refused.
  refused_without_key :
      (token rid : Bytes) (profile : UserProfile) (now at : ℕ) (claims : RefreshClaims)
      (login_id : LoginId) (s : MemoryStorage)
      → decode_refresh crates now token ≡ ok claims
      → decode_id claims.sub ≡ some login_id
      → Absent (refresh_key claims.rid) s
      → (refresh crates signer config perm_map memory_storage token profile rid now at s).0
        ≡ err invalid_refresh_token
  unfolding refresh Absent
  refused_without_key token rid profile now at claims login_id s genuine names gone =
      rw (genuine, names)
        (ap
          (λ o.
            (with_value crates signer config perm_map memory_storage (split_value o) profile
              login_id (refresh_key claims.rid) rid now at
              (get_string (refresh_key claims.rid) at s).1).0)
          (get_string-valid (refresh_key claims.rid) at s ∙ ap (valid at) gone))

  used_up :
      (token rid : Bytes) (profile : UserProfile) (now at : ℕ) (claims : RefreshClaims)
      (login_id : LoginId) (pair : TokenPair) (s : MemoryStorage)
      → decode_refresh crates now token ≡ ok claims
      → decode_id claims.sub ≡ some login_id
      → (refresh crates signer config perm_map memory_storage token profile rid now at s).0
        ≡ ok pair
      → Absent
          (refresh_key claims.rid)
          (refresh crates signer config perm_map memory_storage token profile rid now at s).1
  unfolding refresh
  used_up token rid profile now at claims login_id pair s genuine names done =
      rw (genuine, names)
        (with_value-Absent claims.rid rid profile login_id now at pair
          (split_value (get_string (refresh_key claims.rid) at s).0)
          (get_string (refresh_key claims.rid) at s).1 (rw (genuine, names) at done))

  -- A refresh token works once: after a refresh that succeeds, and after any later operations on
  -- the storage of which none sets the token's refresh key again, the same token is refused with
  -- InvalidRefreshToken, as long as it would still be verified.
  pub refresh-once :
      (token rid rid' : Bytes) (profile profile' : UserProfile) (now at now' at' : ℕ)
      (claims : RefreshClaims) (login_id : LoginId) (pair : TokenPair) (s : MemoryStorage)
      (events : List (ℕ × Event))
      → decode_refresh crates now token ≡ ok claims
      → decode_refresh crates now' token ≡ ok claims
      → decode_id claims.sub ≡ some login_id
      → (refresh crates signer config perm_map memory_storage token profile rid now at s).0
        ≡ ok pair
      → All (λ e. sets (refresh_key claims.rid) e.1 ≡ false) events
      → (refresh crates signer config perm_map memory_storage token profile' rid' now' at' (
          run events
            (refresh crates signer config perm_map memory_storage token profile rid now at s).1)).0
        ≡ err invalid_refresh_token
  refresh-once token rid rid' profile profile' now at now' at' claims login_id pair s events genuine
        still names success kept =
      refused_without_key token rid' profile' now' at' claims login_id _ still names (
        run-Absent (refresh_key claims.rid) events _ kept
          (used_up token rid profile now at claims login_id pair s genuine names success))
