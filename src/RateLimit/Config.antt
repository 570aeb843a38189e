-- ===== src/RateLimit/Config.antt =====
-- crates/summer-common/src/rate_limit/config.rs: the enums and `RateLimitConfig` with its derived
-- quantities. Durations are in milliseconds unless a name says otherwise.
pub mod Bounds
use summerrs_admin.Base.{
  ℕ, ◌+◌, ◌-◌, ◌*◌, ◌/◌, ◌≤◌, ◌<◌, ◌≡◌, refl, min, max, Bool, true, false, arith,
}
use summerrs_admin.Base.Word.{i64_max, u32_mod, u64_mod, u64_max, saturating_add}

pub data RateLimitPer : Type 0 where
  second minute hour day : RateLimitPer

unfoldable pub window_seconds_of : RateLimitPer → ℕ
window_seconds_of second = 1
window_seconds_of minute = 60
window_seconds_of hour = 3600
window_seconds_of day = 86400

unfoldable pub window_millis_of : RateLimitPer → ℕ
unfolding window_seconds_of
window_millis_of per = window_seconds_of per * 1000

pub data RateLimitBackend : Type 0 where
  memory redis : RateLimitBackend

pub data RateLimitAlgorithm : Type 0 where
  token_bucket gcra leaky_bucket throttle_queue fixed_window sliding_window : RateLimitAlgorithm

unfoldable pub uses_gcra : RateLimitAlgorithm → Bool
uses_gcra token_bucket = true
uses_gcra gcra = true
uses_gcra _ = false

unfoldable pub uses_scheduled_slot : RateLimitAlgorithm → Bool
uses_scheduled_slot leaky_bucket = true
uses_scheduled_slot throttle_queue = true
uses_scheduled_slot _ = false

unfoldable pub supports_cost : RateLimitAlgorithm → Bool
unfolding uses_gcra
supports_cost a = uses_gcra a

pub data RateLimitFailurePolicy : Type 0 where
  fail_open fail_closed fallback_memory : RateLimitFailurePolicy

pub data RateLimitMode : Type 0 where
  enforce shadow : RateLimitMode

pub record RateLimitConfig : Type 0 where
  pub rate : ℕ
  pub per : RateLimitPer
  pub burst : ℕ
  pub backend : RateLimitBackend
  pub algorithm : RateLimitAlgorithm
  pub failure_policy : RateLimitFailurePolicy
  pub max_wait_ms : ℕ
  pub mode : RateLimitMode

-- The ranges of the Rust types: rate and burst are u32, max_wait_ms is u64.
pub record IsTyped (c : RateLimitConfig) : Type 0 where
  pub rate_u32 : c.rate < u32_mod
  pub burst_u32 : c.burst < u32_mod
  pub wait_u64 : c.max_wait_ms < u64_mod

unfoldable pub emission_interval_millis : RateLimitConfig → ℕ
unfolding window_millis_of saturating_add
emission_interval_millis c =
    let window_ms = max (window_millis_of c.per) 1 in
    let rate = max c.rate 1 in saturating_add window_ms (rate - 1) / rate

unfoldable pub window_millis : RateLimitConfig → ℕ
unfolding window_millis_of
window_millis c = window_millis_of c.per

unfoldable pub window_seconds : RateLimitConfig → ℕ
unfolding window_seconds_of
window_seconds c = window_seconds_of c.per

unfoldable pub window_limit : RateLimitConfig → ℕ
window_limit c = max c.rate 1

-- The match on the algorithm in `effective_burst`.
abbrev burst_for : RateLimitAlgorithm → ℕ → ℕ
burst_for leaky_bucket burst = 1
burst_for _ burst = max burst 1

unfoldable pub effective_burst : RateLimitConfig → ℕ
effective_burst c = burst_for c.algorithm c.burst

-- `u64::div_ceil`
abbrev div_ceil : ℕ → ℕ → ℕ
div_ceil a b = (a + (b - 1)) / b

-- The match on the algorithm in `redis_expire_seconds`; the sums and products are u64, saturating.
abbrev expire_for : RateLimitAlgorithm → RateLimitConfig → ℕ → ℕ → ℕ → ℕ
expire_for token_bucket c burst interval secs =
    max (div_ceil (min (burst * interval) u64_max) 1000) 2 * 2
expire_for gcra c burst interval secs = max (div_ceil (min (burst * interval) u64_max) 1000) 2 * 2
expire_for fixed_window c burst interval secs = max secs 1 * 2
expire_for sliding_window c burst interval secs = max secs 1 * 2
expire_for leaky_bucket c burst interval secs = max (div_ceil interval 1000) 1 * 2
expire_for throttle_queue c burst interval secs =
    max (div_ceil (min (interval + max c.max_wait_ms 1) u64_max) 1000) 1 * 2

unfoldable pub redis_expire_seconds : RateLimitConfig → ℕ
unfolding emission_interval_millis effective_burst window_seconds
redis_expire_seconds c =
    expire_for c.algorithm c (max (effective_burst c) 1) (max (emission_interval_millis c) 1)
      (window_seconds c)
