-- ===== src/RateLimit/Scripts.antt =====
-- The scripts that `check_redis` of crates/summer-common/src/rate_limit/algorithms.rs invokes, and
-- the decisions that it reads from their replies.
use summerrs_admin.Base.{
  ℕ, ◌%◌, max, Bool, false, none, some, List, [], ◌∷◌, ◌++◌, ◌==◌, if◌then◌else◌,
}
use summerrs_admin.Base.Text.{decimal}
use summerrs_admin.Base.Word.{ℤ, pos, negsuc, pos_part, u32_mod, i64_of_bits}
use summerrs_admin.RateLimit.Config.{
  RateLimitAlgorithm, token_bucket, gcra, leaky_bucket, throttle_queue, fixed_window,
  sliding_window, RateLimitConfig, emission_interval_millis, effective_burst, window_millis,
  window_limit, redis_expire_seconds,
}
use summerrs_admin.RateLimit.Decision.{
  RateLimitMetadata, rejected_metadata, RateLimitDecision, allowed, delayed, rejected,
}
use summerrs_admin.RateLimit.Platform.{
  Script, gcra_script, fixed_window_script, sliding_window_script, scheduled_slot_script, Arg, int,
  text, Moment,
}

-- `unpack_triple`
abbrev nth_or_zero : List ℤ → ℕ → ℤ
nth_or_zero [] i = pos 0
nth_or_zero (v ∷ vs) ℕ.zero = v
nth_or_zero (v ∷ vs) (ℕ.suc i) = nth_or_zero vs i

abbrev is_one : ℤ → Bool
is_one (pos n) = n == 1
is_one (negsuc n) = false

decision_from_lua_triple :
    (allowed value_ms remaining : ℤ) → (limit reset_after : ℕ) → RateLimitDecision
decision_from_lua_triple a value_ms left limit reset_after =
    if is_one a
    then allowed (record {
      limit = limit;
      remaining = pos_part left % u32_mod;
      reset_after = reset_after;
      retry_after = none;
    })
    else rejected (record {
      limit = limit;
      remaining = 0;
      reset_after = reset_after;
      retry_after = some (pos_part value_ms);
    })

scheduled_decision_from_lua : (allowed value_ms : ℤ) → (reset_after : ℕ) → RateLimitDecision
scheduled_decision_from_lua a value_ms reset_after =
    let meta : RateLimitMetadata = record {
      limit = 1;
      remaining = 0;
      reset_after = reset_after;
      retry_after = none;
    } in
    if is_one a
    then (if pos_part value_ms == 0 then allowed meta else delayed (pos_part value_ms) meta)
    else rejected (rejected_metadata 1 (pos_part value_ms))

gcra_call : RateLimitConfig → (cost : ℕ) → Moment → Script × List Arg × (List ℤ → RateLimitDecision)
gcra_call c cost t = (
  gcra_script,
  int (pos t.now)
      ∷ int (pos (emission_interval_millis c))
      ∷ int (pos (max (effective_burst c) 1))
      ∷ int (pos (redis_expire_seconds c))
      ∷ int (pos cost)
      ∷ [],
  λ v.
      decision_from_lua_triple (nth_or_zero v 0) (nth_or_zero v 1) (nth_or_zero v 2)
        (max (effective_burst c) 1) (emission_interval_millis c),
)

-- The script that `check_redis` invokes, its arguments, and the decision for its reply.
unfoldable pub redis_call :
    RateLimitConfig
    → (cost : ℕ) → Moment
    → RateLimitAlgorithm
    → Script × List Arg × (List ℤ → RateLimitDecision)
unfolding decision_from_lua_triple scheduled_decision_from_lua gcra_call
redis_call c cost t token_bucket = gcra_call c cost t
redis_call c cost t gcra = gcra_call c cost t
redis_call c cost t fixed_window = (
  fixed_window_script,
  int (pos t.now) ∷ int (pos (window_millis c)) ∷ int (pos (window_limit c)) ∷ [],
  λ v.
      decision_from_lua_triple (nth_or_zero v 0) (nth_or_zero v 1) (nth_or_zero v 2)
        (window_limit c) (window_millis c),
)
redis_call c cost t sliding_window = (
  sliding_window_script,
  int (pos t.now)
      ∷ int (pos (window_millis c))
      ∷ int (pos (window_limit c))
      ∷ text (decimal t.now ++ (b':' ∷ t.uuid))
      ∷ int (pos (redis_expire_seconds c))
      ∷ [],
  λ v.
      decision_from_lua_triple (nth_or_zero v 0) (nth_or_zero v 1) (nth_or_zero v 2)
        (window_limit c) (window_millis c),
)
redis_call c cost t leaky_bucket = (
  scheduled_slot_script,
  int (pos t.now)
      ∷ int (pos (emission_interval_millis c))
      ∷ int (pos 0)
      ∷ int (pos (redis_expire_seconds c))
      ∷ [],
  λ v. scheduled_decision_from_lua (nth_or_zero v 0) (nth_or_zero v 1) (emission_interval_millis c),
)
redis_call c cost t throttle_queue = (
  scheduled_slot_script,
  int (pos t.now)
      ∷ int (pos (emission_interval_millis c))
      ∷ int (i64_of_bits c.max_wait_ms)
      ∷ int (pos (redis_expire_seconds c))
      ∷ [],
  λ v. scheduled_decision_from_lua (nth_or_zero v 0) (nth_or_zero v 1) (emission_interval_millis c),
)
