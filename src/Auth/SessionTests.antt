-- ===== src/Auth/SessionTests.antt =====
-- The theorems about storage, sessions and refreshing applied at concrete inputs.
use summerrs_admin.Base.{ℕ, ◌≡◌, refl, true, none, some, List, [], ◌∷◌, arith}
use summerrs_admin.Base.Text.{Bytes, codes}
use summerrs_admin.Base.Word.{pos, negsuc}
use summerrs_admin.Auth.UserType.{LoginId, encode_id, decode_id, web}
use summerrs_admin.Auth.UserType.Roundtrips.{decode_id-encode_id}
use summerrs_admin.Auth.Storage.{MemoryStorage, empty_storage, set_string, get_string}
use summerrs_admin.Auth.Storage.Refinement.{valid}
use summerrs_admin.Auth.Storage.Runs.{Event, put, read, drop, run, replay, run-get_string}
use summerrs_admin.Auth.Tokens.{
  err, account_banned, access_token, AccessClaims, verified, refresh_token, RefreshClaims, Crates,
  decode_access,
}
use summerrs_admin.Auth.Session.{
  memory_storage, AuthConfig, validated, validate_token, force_refresh, kick_out, ban_user,
  unban_user,
}
use summerrs_admin.Auth.Tokens.{decode_refresh, invalid_refresh_token}
use summerrs_admin.Auth.Refresh.{UserProfile, Signer, refresh}
use summerrs_admin.Auth.Refresh.Once.{refresh-once}
use summerrs_admin.Auth.Session.Deny.{
  answer_since, force_refresh-denies, kick_out-denies, ban_user-denies,
}

decode_id-encode_id_example :
    decode_id (encode_id (record { user_id = negsuc 41 })) ≡ some (record { user_id = negsuc 41 })
decode_id-encode_id_example = decode_id-encode_id (negsuc 41) (omega arith)

abbrev history : List (ℕ × Event)
history =
    (1000, put (codes "a") (codes "one") (pos 60))
    ∷ (1010, put (codes "b") (codes "two") (negsuc 0))
    ∷ (1100, read (codes "a"))
    ∷ (1100, drop (codes "c"))
    ∷ []

run-get_string_example :
    (get_string (codes "b") 2000 (run history empty_storage)).0
    ≡ valid 2000 (replay history (λ _. none) (codes "b"))
run-get_string_example =
    run-get_string history 2000 (codes "b")
      (omega arith, (omega arith, (omega arith, (omega arith, omega arith))))

abbrev claims : AccessClaims
claims = record {
  iss = codes "admin";
  aud = codes "admin";
  sub = codes "42";
  typ = access_token;
  iat = pos 900;
  exp = pos 4500;
  dev = codes "web";
  user_name = codes "admin";
  nick_name = codes "Admin";
  roles = [];
  permissions = codes "user:list" ∷ [];
  pb = none;
}

abbrev refresh_claims : RefreshClaims
refresh_claims = record {
  sub = codes "42";
  typ = refresh_token;
  iat = pos 900;
  exp = pos 87300;
  rid = codes "first";
}

abbrev crates : Crates
crates = record {
  jwt_access = λ now token. verified claims;
  jwt_refresh = λ now token. verified refresh_claims;
  b64_decode = λ pb. none;
  from_json = λ json. none;
}

abbrev config : AuthConfig
config = record {
  access_timeout = pos 3600;
  refresh_timeout = pos 86400;
  per_request_deny_check = true;
}

abbrev user : LoginId
user = record { user_id = pos 42 }

abbrev token : Bytes
token = codes "token"

force_refresh-denies_example :
    (validate_token crates memory_storage config none token 1500 1500
      (force_refresh crates memory_storage config user 1000 1000 empty_storage).1).0
    ≡ answer_since crates none user claims 1000
unfolding decode_access decode_id
force_refresh-denies_example =
    force_refresh-denies crates config none token 1500 claims user refl refl refl 1000 1000 1500
      empty_storage (omega arith) (omega arith) (omega arith) (omega arith)

kick_out-denies_example :
    (validate_token crates memory_storage config none token 1500 1500
      (kick_out crates memory_storage config user (some web) 1000 1000 empty_storage).1).0
    ≡ answer_since crates none user claims 1000
unfolding decode_access decode_id
kick_out-denies_example =
    kick_out-denies crates config none token 1500 claims user refl refl refl (some web) 1000 1000
      1500 empty_storage (omega arith) (omega arith) (omega arith) (omega arith)

ban_user-denies_example :
    ((validate_token crates memory_storage config none token 1500 1500
        (ban_user crates memory_storage user 1000 empty_storage).1).0
      ≡ err account_banned)
    × ((validate_token crates memory_storage config none token 1500 1600
          (unban_user crates memory_storage user empty_storage).1).0
        ≡ validated crates none user claims)
unfolding decode_access decode_id
ban_user-denies_example =
    ban_user-denies crates config none token 1500 claims user refl refl refl 1000 1500 1600
      empty_storage empty_storage (omega arith) (omega arith)

-- A signer for tests: the id is the refresh token.
abbrev signer : Signer
signer = record {
  issuer = codes "admin";
  audience = codes "admin";
  sign_access = λ c. some (codes "signed");
  sign_refresh = λ c. some c.rid;
  b64_encode = λ bytes. bytes;
  to_json = λ info. none;
}

abbrev profile : UserProfile
profile = record {
  user_name = codes "admin";
  nick_name = codes "Admin";
  roles = [];
  permissions = [];
}

abbrev logged_in : MemoryStorage
logged_in = set_string (codes "auth:refresh:first") (codes "42:web") (pos 86400) 900 empty_storage

-- The user logs in on another device, and the old token is looked up.
abbrev used_meanwhile : List (ℕ × Event)
used_meanwhile =
    (1050, put (codes "auth:refresh:other") (codes "42:app") (pos 86400))
    ∷ (1060, read (codes "auth:refresh:first"))
    ∷ (1070, drop (codes "auth:refresh:first"))
    ∷ []

refresh-once_example :
    (refresh crates signer config none memory_storage token profile (codes "third") 1100 1100 (
      run used_meanwhile
        (refresh crates signer config none memory_storage token profile
          (codes "second")
          1000
          1000
          logged_in).1)).0
    ≡ err invalid_refresh_token
unfolding decode_refresh decode_id refresh set_string get_string
refresh-once_example =
    refresh-once crates signer config none token (codes "second") (codes "third") profile profile
      1000 1000 1100 1100 refresh_claims user
      (record { access = codes "signed"; refreshing = codes "second"; expires_in = pos 3600 })
      logged_in used_meanwhile refl refl refl refl (refl, (refl, (refl, tt)))
