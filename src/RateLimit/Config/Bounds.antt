-- ===== src/RateLimit/Config/Bounds.antt =====
-- The derived quantities of `RateLimitConfig` stay in range.
use summerrs_admin.Base.{ℕ, ◌+◌, ◌-◌, ◌*◌, ◌/◌, ◌≤◌, ◌<◌, ◌≡◌, max, ap, arith}
use summerrs_admin.Base.Word.{u32_mod}
use summerrs_admin.RateLimit.Config.{
  RateLimitPer, second, minute, hour, day, window_millis_of, RateLimitConfig, IsTyped,
  emission_interval_millis, effective_burst, window_millis,
}

pub window_millis_bounds :
    (per : RateLimitPer) → (1000 ≤ window_millis_of per) × (window_millis_of per ≤ 86400000)
unfolding window_millis_of
window_millis_bounds second = omega arith
window_millis_bounds minute = omega arith
window_millis_bounds hour = omega arith
window_millis_bounds day = omega arith

-- ⌈w / r⌉ is the least number whose r-fold reaches w.
ceil_bounds :
    (w r : ℕ)
    → 1 ≤ w
    → 1 ≤ r
    → ((w + (r - 1)) / r ≤ w)
      × (1 ≤ (w + (r - 1)) / r)
      × (w ≤ r * ((w + (r - 1)) / r))
      × (r * ((w + (r - 1)) / r) < w + r)
ceil_bounds w r p q = (grind arith, grind arith, grind arith, grind arith)

module _ (c : RateLimitConfig) (typed : IsTyped c) where
  pub emission-eq :
      emission_interval_millis c ≡ (max (window_millis c) 1 + (max c.rate 1 - 1)) / max c.rate 1
  unfolding emission_interval_millis window_millis
  emission-eq =
      ap (λ t. t / max c.rate 1) (omega (arith, window_millis_bounds c.per, typed.rate_u32))

  -- The emission interval is the window divided by the rate, rounded up: it is at least one
  -- millisecond and at most a day, `rate` intervals fill the window, and one millisecond less
  -- for each would not.
  pub emission_interval_lem :
      let e = emission_interval_millis c in
      (1 ≤ e)
      × (e ≤ 86400000)
      × (window_millis c ≤ max c.rate 1 * e)
      × (max c.rate 1 * e < window_millis c + max c.rate 1)
  unfolding window_millis
  emission_interval_lem =
      let b = window_millis_bounds c.per in
      let k =
        ceil_bounds (max (window_millis_of c.per) 1) (max c.rate 1) (omega arith) (omega arith) in
      rw emission-eq (omega arith, omega arith, omega arith, omega arith)

  pub effective_burst_bounds : (1 ≤ effective_burst c) × (effective_burst c < u32_mod)
  unfolding effective_burst
  effective_burst_bounds = ground (arith, typed.burst_u32)
