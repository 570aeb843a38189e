-- ===== src/RateLimit/Engine/Unread.antt =====
-- What a check does not read: the mode of its configuration.
use mathlib.Core.Option
use summerrs_admin.Base.{
  ℕ, ◌≡◌, refl, ap, ◌∙◌, max, Bool, true, false, Option, none, some, List, if◌then◌else◌,
}
use summerrs_admin.Base.Text.{Bytes}
use summerrs_admin.Base.Word.{ℤ}
use summerrs_admin.RateLimit.Config.{
  RateLimitConfig, RateLimitMode, RateLimitAlgorithm, token_bucket, gcra, leaky_bucket,
  throttle_queue, fixed_window, sliding_window, RateLimitBackend, memory, redis,
  RateLimitFailurePolicy, fail_open, fail_closed, fallback_memory, effective_burst, uses_gcra,
  uses_scheduled_slot, emission_interval_millis, window_millis, window_limit, window_seconds,
  redis_expire_seconds,
}
use summerrs_admin.RateLimit.Decision.{RateLimitDecision}
use summerrs_admin.RateLimit.Keys.{cache_key_for, redis_key_for}
use summerrs_admin.RateLimit.Algorithms.{
  gcra_capacity, gcra_cost, check_gcra, check_scheduled_slot, check_fixed_window,
  check_sliding_window,
}
use summerrs_admin.RateLimit.Platform.{Platform, Moment}
use summerrs_admin.RateLimit.Scripts.{redis_call}
use summerrs_admin.RateLimit.Engine.{
  RateLimitEngine, dispatch, run_dispatch, check_memory, apply_policy, handle_backend_failure,
  read_reply, check_redis, count_fallback, count_failure, on_backend, note_decision,
  check_with_cost,
}

-- The configuration in another mode.
abbrev pub in_mode : RateLimitMode → RateLimitConfig → RateLimitConfig
in_mode m c = record c { mode = m }

redis_call-mode :
    (m : RateLimitMode) (c : RateLimitConfig) (cost : ℕ) (t : Moment) (a : RateLimitAlgorithm)
    → redis_call (in_mode m (record c { algorithm = a })) cost t a
      ≡ redis_call (record c { algorithm = a }) cost t a
unfolding redis_call effective_burst emission_interval_millis window_millis window_limit
    window_seconds redis_expire_seconds
redis_call-mode m c cost t token_bucket = refl
redis_call-mode m c cost t gcra = refl
redis_call-mode m c cost t leaky_bucket = refl
redis_call-mode m c cost t throttle_queue = refl
redis_call-mode m c cost t fixed_window = refl
redis_call-mode m c cost t sliding_window = refl

module _ (M : Platform) where
  -- No check reads the mode: both share the cells.
  check_memory-mode :
      (m : RateLimitMode) (key : Bytes) (c : RateLimitConfig) (cost now : ℕ) (e : RateLimitEngine M)
      → check_memory M key (in_mode m c) cost now e ≡ check_memory M key c cost now e
  unfolding check_memory run_dispatch dispatch cache_key_for uses_gcra uses_scheduled_slot
      effective_burst emission_interval_millis window_millis window_limit window_seconds check_gcra
      check_scheduled_slot check_fixed_window check_sliding_window gcra_capacity gcra_cost
  check_memory-mode m key c cost now e = refl

  failure-mode :
      (p : RateLimitFailurePolicy) (m : RateLimitMode) (key : Bytes) (c : RateLimitConfig)
      (cost now : ℕ) (e : RateLimitEngine M)
      → apply_policy M p key (in_mode m c) cost now e ≡ apply_policy M p key c cost now e
  unfolding apply_policy effective_burst
  failure-mode fail_open m key c cost now e = refl
  failure-mode fail_closed m key c cost now e = refl
  failure-mode fallback_memory m key c cost now e =
      check_memory-mode m key c cost now (count_fallback M e)

  check_redis-mode :
      (m : RateLimitMode) (key : Bytes) (c : RateLimitConfig) (cost : ℕ) (t : Moment)
      (e : RateLimitEngine M)
      → check_redis M key (in_mode m c) cost t e ≡ check_redis M key c cost t e
  unfolding check_redis handle_backend_failure redis_key_for window_seconds effective_burst
      read_reply
  check_redis-mode m key c cost t e = by_connection e.redis
    where
      replied :
          (r : Option (List ℤ)) (read : List ℤ → RateLimitDecision)
          → read_reply M r read key (in_mode m c) cost t.now e
            ≡ read_reply M r read key c cost t.now e
      replied none read = failure-mode c.failure_policy m key c cost t.now (count_failure M e)
      replied (some values) read = refl

      by_connection :
          (b : Bool)
          → (if b
              then (let (script, args, read) = redis_call (in_mode m c) cost t c.algorithm in
                  read_reply M
                    (t.reply script (redis_key_for M.md5 key (in_mode m c)) args)
                    read
                    key
                    (in_mode m c)
                    cost
                    t.now
                    e)
              else handle_backend_failure M key (in_mode m c) cost t.now e)
            ≡ (if b
                then (let (script, args, read) = redis_call c cost t c.algorithm in
                    read_reply M
                      (t.reply script (redis_key_for M.md5 key c) args)
                      read
                      key
                      c
                      cost
                      t.now
                      e)
                else handle_backend_failure M key c cost t.now e)
      by_connection true =
          ap
            (λ z.
              read_reply M (t.reply z.0 (redis_key_for M.md5 key c) z.1) z.2 key (in_mode m c) cost
                t.now e)
            (redis_call-mode m c cost t c.algorithm)
          ∙ replied _ _
      by_connection false = failure-mode c.failure_policy m key c cost t.now e

  pub check_with_cost-mode :
      (m : RateLimitMode) (key : Bytes) (c : RateLimitConfig) (cost : ℕ) (t : Moment)
      (e : RateLimitEngine M)
      → check_with_cost M key (in_mode m c) cost t e ≡ check_with_cost M key c cost t e
  unfolding check_with_cost
  check_with_cost-mode m key c cost t e = ap (Option.map (note_decision M)) (by_backend c.backend)
    where
      by_backend :
          (b : RateLimitBackend)
          → on_backend M b key (in_mode m c) (max cost 1) t e
            ≡ on_backend M b key c (max cost 1) t e
      by_backend memory = check_memory-mode m key c (max cost 1) t.now e
      by_backend redis = check_redis-mode m key c (max cost 1) t e
