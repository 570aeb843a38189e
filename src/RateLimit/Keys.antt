-- ===== src/RateLimit/Keys.antt =====
-- The keys of the caches and of Redis: `as_key_segment`, `signature` and `cache_key_for` of
-- config.rs, `sanitize_user_key` of algorithms.rs and `redis_key_for` of engine.rs, all under
-- crates/summer-common/src/rate_limit. Texts are byte strings. The md5 crate is a parameter.
use summerrs_admin.Base.{
  ℕ, ◌+◌, ◌-◌, ◌/◌, ◌%◌, ◌≤◌, ◌≡◌, refl, [], ◌∷◌, ◌++◌, arith, leb, ltb, if◌then◌else◌, length, ap,
}
use summerrs_admin.Base.Text.{
  Bytes, codes, decimal, decimal-digits, decimal-injective, Without, digits-Without, split_unique,
  value_from,
}
use summerrs_admin.RateLimit.Config.{
  RateLimitAlgorithm, token_bucket, gcra, leaky_bucket, throttle_queue, fixed_window,
  sliding_window, RateLimitConfig, window_seconds, effective_burst,
}

unfoldable pub as_key_segment : RateLimitAlgorithm → Bytes
as_key_segment token_bucket = codes "token_bucket"
as_key_segment gcra = codes "gcra"
as_key_segment leaky_bucket = codes "leaky_bucket"
as_key_segment throttle_queue = codes "throttle_queue"
as_key_segment fixed_window = codes "fixed_window"
as_key_segment sliding_window = codes "sliding_window"

abbrev pub user_key_max_len : ℕ
user_key_max_len = 200

hex_digit : ℕ → ℕ
hex_digit n = if ltb n 10 then b'0' + n else b'a' + n - 10

-- `format!("{byte:02x}")` for each byte
hex : Bytes → Bytes
hex [] = []
hex (b ∷ bs) = hex_digit (b / 16 % 16) ∷ hex_digit (b % 16) ∷ hex bs

module _ (md5 : Bytes → Bytes) where
  unfoldable pub sanitize_user_key : Bytes → Bytes
  unfolding hex hex_digit
  sanitize_user_key key =
      if leb (length key) user_key_max_len then key else b'h' ∷ b':' ∷ hex (md5 key)

  -- `format!("{}:{}:{}:{}:{}", …)` with `tail` behind it
  abbrev signature_then : RateLimitConfig → Bytes → Bytes
  signature_then c tail =
      as_key_segment c.algorithm
      ++ (b':'
          ∷ (decimal c.rate
              ++ (b':'
                  ∷ (decimal (window_seconds c)
                      ++ (b':'
                          ∷ (decimal (effective_burst c)
                              ++ (b':' ∷ (decimal c.max_wait_ms ++ tail))))))))

  unfoldable pub cache_key_for : RateLimitConfig → Bytes → Bytes
  cache_key_for c key = signature_then c (b':' ∷ sanitize_user_key key)

  unfoldable pub redis_key_for : Bytes → RateLimitConfig → Bytes
  redis_key_for key c =
      codes "rate-limit:" ++ signature_then c (b':' ∷ b'{' ∷ (sanitize_user_key key ++ b'}' ∷ []))

segment-Without : (a : RateLimitAlgorithm) → Without b':' (as_key_segment a)
unfolding as_key_segment
segment-Without token_bucket = omega arith
segment-Without gcra = omega arith
segment-Without leaky_bucket = omega arith
segment-Without throttle_queue = omega arith
segment-Without fixed_window = omega arith
segment-Without sliding_window = omega arith

segment-injective : (a b : RateLimitAlgorithm) → as_key_segment a ≡ as_key_segment b → a ≡ b
unfolding as_key_segment
segment-injective token_bucket token_bucket e = refl
segment-injective gcra gcra e = refl
segment-injective leaky_bucket leaky_bucket e = refl
segment-injective throttle_queue throttle_queue e = refl
segment-injective fixed_window fixed_window e = refl
segment-injective sliding_window sliding_window e = refl
segment-injective _ _ e = absurd (omega (arith, ap (value_from 0) e))

decimal-Without : (n : ℕ) → Without b':' (decimal n)
decimal-Without n = digits-Without b':' (decimal n) (omega arith) (decimal-digits n)

number_then :
    (n m : ℕ) (b b' : Bytes)
    → decimal n ++ (b':' ∷ b) ≡ decimal m ++ (b':' ∷ b')
    → (n ≡ m) × (b ≡ b')
number_then n m b b' e =
    let (p, q) =
      split_unique b':' (decimal n) (decimal m) b b' (decimal-Without n) (decimal-Without m) e in
    (decimal-injective n m p, q)

-- Two configurations share a bucket only if they agree: equal cache keys come from the same
-- algorithm, rate, window length, effective burst and longest wait, and from keys that are the same
-- after `sanitize_user_key`. This holds for every md5.
pub cache_key_for-injective :
    (md5 : Bytes → Bytes) (c c' : RateLimitConfig) (key key' : Bytes)
    → cache_key_for md5 c key ≡ cache_key_for md5 c' key'
    → (c.algorithm ≡ c'.algorithm)
      × (c.rate ≡ c'.rate)
      × (window_seconds c ≡ window_seconds c')
      × (effective_burst c ≡ effective_burst c')
      × (c.max_wait_ms ≡ c'.max_wait_ms)
      × (sanitize_user_key md5 key ≡ sanitize_user_key md5 key')
unfolding cache_key_for
cache_key_for-injective md5 c c' key key' e =
    let (seg, e1) =
      split_unique b':' _ _ _ _ (segment-Without c.algorithm) (segment-Without c'.algorithm) e in
    let (rate, e2) = number_then c.rate c'.rate _ _ e1 in
    let (secs, e3) = number_then (window_seconds c) (window_seconds c') _ _ e2 in
    let (burst, e4) = number_then (effective_burst c) (effective_burst c') _ _ e3 in
    let (wait, e5) = number_then c.max_wait_ms c'.max_wait_ms _ _ e4 in
    (segment-injective _ _ seg, rate, secs, burst, wait, e5)

hex-length : (bs : Bytes) → length (hex bs) ≡ length bs + length bs
unfolding hex
hex-length [] = omega arith
hex-length (b ∷ bs) = omega (arith, hex-length bs)

-- The user's part of a key is never longer than 200 bytes, md5 digests being 16 bytes long.
pub sanitize_user_key-bounded :
    (md5 : Bytes → Bytes)
    → ((key : Bytes) → length (md5 key) ≡ 16)
    → (key : Bytes) → length (sanitize_user_key md5 key) ≤ user_key_max_len
unfolding sanitize_user_key
sanitize_user_key-bounded md5 sixteen key = ground (arith, sixteen key, hex-length (md5 key))
