-- ===== src/Auth/UserType.antt =====
-- crates/summer-auth/src/user_type.rs: login ids and device types as the texts that stand in keys
-- and tokens.
pub mod Roundtrips
use summerrs_admin.Base.{
  ℕ, zero, suc, ◌+◌, ◌*◌, ◌-◌, ◌≤◌, ◌≡◌, refl, Bool, true, false, not, ◌&&◌, ◌||◌, Option, none,
  some, List, [], ◌∷◌, ◌++◌, any, ◌==◌, leb, ltb, length, if◌then◌else◌, eq_bytes,
}
use summerrs_admin.Base.Text.{Bytes, codes, decimal, value_from}
use summerrs_admin.Base.Word.{ℤ, pos, negsuc, i64_max}

pub record LoginId : Type 0 where
  pub user_id : ℤ

-- `to_string` of an i64.
abbrev pub decimal_i64 : ℤ → Bytes
decimal_i64 (pos n) = decimal n
decimal_i64 (negsuc n) = b'-' ∷ decimal (n + 1)

-- `LoginId::session_key`
abbrev pub session_key : LoginId → Bytes
session_key login_id = codes "auth:session:" ++ decimal_i64 login_id.user_id

-- `LoginId::encode`
unfoldable pub encode_id : LoginId → Bytes
encode_id login_id = decimal_i64 login_id.user_id

abbrev pub is_digit : ℕ → Bool
is_digit b = leb b'0' b && leb b b'9'

abbrev pub all_digits : Bytes → Bool
all_digits [] = true
all_digits (b ∷ s) = is_digit b && all_digits s

abbrev pub is_number : Bytes → Bool
is_number [] = false
is_number (b ∷ s) = all_digits (b ∷ s)

abbrev pub parse_pos : Bytes → Option ℤ
parse_pos s =
    if is_number s && leb (value_from 0 s) i64_max then some (pos (value_from 0 s)) else none

abbrev negated : ℕ → ℤ
negated zero = pos 0
negated (suc n) = negsuc n

abbrev pub parse_neg : Bytes → Option ℤ
parse_neg s =
    if is_number s && leb (value_from 0 s) (i64_max + 1)
    then some (negated (value_from 0 s))
    else none

-- `parse::<i64>()`: an optional sign and at least one digit, within the range.
abbrev pub parse_i64 : Bytes → Option ℤ
parse_i64 [] = none
parse_i64 (b ∷ s) =
    if b == b'-' then parse_neg s else if b == b'+' then parse_pos s else parse_pos (b ∷ s)

abbrev id_of : Option ℤ → Option LoginId
id_of none = none
id_of (some n) = some (record { user_id = n })

-- `LoginId::decode`
unfoldable pub decode_id : Bytes → Option LoginId
decode_id s = if length s == 0 || any (λ b. b == b':') s then none else id_of (parse_i64 s)

pub data DeviceType : Type 0 where
  web android ios mini_program tablet desktop : DeviceType
  unknown : Bytes → DeviceType

-- `DeviceType::as_str`
abbrev pub as_str : DeviceType → Bytes
as_str web = codes "web"
as_str android = codes "android"
as_str ios = codes "ios"
as_str mini_program = codes "mini_program"
as_str tablet = codes "tablet"
as_str desktop = codes "desktop"
as_str (unknown s) = s

-- `DeviceType::from`
unfoldable pub device_from : Bytes → DeviceType
device_from s =
    if eq_bytes s (codes "web")
    then web
    else if eq_bytes s (codes "android")
    then android
    else if eq_bytes s (codes "ios")
    then ios
    else if eq_bytes s (codes "mini_program")
    then mini_program
    else if eq_bytes s (codes "tablet")
    then tablet
    else if eq_bytes s (codes "desktop")
    then desktop
    else unknown s
