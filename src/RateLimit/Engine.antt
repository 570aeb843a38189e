-- ===== src/RateLimit/Engine.antt =====
-- crates/summer-common/src/rate_limit/engine.rs, with `check_memory` and `check_redis` of
-- algorithms.rs. A call takes the engine and returns it changed; `none`
-- is a panic.
pub mod Accounting
pub mod Cells
pub mod Reset
pub mod Failure
pub mod Unread
pub mod Passes
use summerrs_admin.Base.{
  ℕ, ◌+◌, ◌%◌, ◌≤◌, ◌<◌, ◌≡◌, refl, max, Bool, true, false, not, ◌&&◌, Option, none, some, List, [],
  ◌∷◌, ◌++◌, arith, leb, ltb, ◌==◌, if◌then◌else◌, any, ◌||◌, ◌/◌,
}
use summerrs_admin.Base.Text.{Bytes, decimal}
use summerrs_admin.Base.Word.{ℤ, pos, negsuc, pos_part, u32_mod, saturating_mul, wrapping_sub}
use summerrs_admin.RateLimit.Config.{
  RateLimitBackend, memory, redis, RateLimitAlgorithm, token_bucket, gcra, leaky_bucket,
  throttle_queue, fixed_window, sliding_window, RateLimitFailurePolicy, fail_open, fail_closed,
  fallback_memory, RateLimitConfig, uses_gcra, uses_scheduled_slot, supports_cost,
  emission_interval_millis, effective_burst, window_millis, window_limit, redis_expire_seconds,
}
use summerrs_admin.RateLimit.Decision.{
  RateLimitMetadata, rejected_metadata, unlimited, blocklisted, RateLimitDecision, allowed, delayed,
  rejected, backend_unavailable, RateLimitStats, fetch_add, record_stats,
}
use summerrs_admin.RateLimit.Keys.{cache_key_for, redis_key_for}
use summerrs_admin.RateLimit.Algorithms.{
  FixedWindowState, settle, check_gcra, check_fixed_window, check_sliding_window,
  check_scheduled_slot,
}
use summerrs_admin.RateLimit.Scripts.{redis_call}
use mathlib.Core.Option
use summerrs_admin.RateLimit.Platform.{
  Platform, Script, gcra_script, fixed_window_script, sliding_window_script, scheduled_slot_script,
  refund_script, Arg, int, text, Moment,
}

abbrev pub get_or {ℓ} : {A : Type ℓ} → Option A → A → A
get_or none d = d
get_or (some a) d = a

-- The algorithms that `check_memory` tells apart; the last is its `unreachable!`.
pub data Dispatch : Type 0 where
  to_gcra : Dispatch
  to_slot : (max_wait_ms : ℕ) → Dispatch
  to_fixed to_sliding unreachable : Dispatch

abbrev is_leaky : RateLimitAlgorithm → Bool
is_leaky leaky_bucket = true
is_leaky _ = false

abbrev window_dispatch : RateLimitAlgorithm → Dispatch
window_dispatch fixed_window = to_fixed
window_dispatch sliding_window = to_sliding
window_dispatch _ = unreachable

unfoldable pub dispatch : RateLimitConfig → Dispatch
unfolding uses_gcra uses_scheduled_slot
dispatch c =
    if uses_gcra c.algorithm
    then to_gcra
    else if uses_scheduled_slot c.algorithm
    then to_slot (if is_leaky c.algorithm then 0 else c.max_wait_ms)
    else window_dispatch c.algorithm

module _ (M : Platform) where
  pub record RateLimitEngine : Type 0 where
    pub gcra_states : M.Cache ℤ
    pub fixed_window_states : M.Cache FixedWindowState
    pub sliding_window_states : M.Cache (List ℕ)
    pub scheduled_states : M.Cache ℕ
    -- whether a Redis connection was configured
    pub redis : Bool
    pub stats : RateLimitStats
    pub allowlist : List M.IpNetwork
    pub blocklist : List M.IpNetwork

  -- A decision and the engine afterwards; `none` is a panic.
  abbrev pub Outcome : Type 0
  Outcome = Option (RateLimitDecision × RateLimitEngine)

  -- `check_memory` and the four checks that it calls: each reads the cell of the key, or starts it,
  -- runs its algorithm, and leaves the cell changed.
  unfoldable pub run_dispatch :
      Bytes → RateLimitConfig → (cost now : ℕ) → Dispatch → RateLimitEngine → Outcome
  run_dispatch key c cost now to_gcra e =
      let k = cache_key_for M.md5 c key in
      let tat = get_or (M.get ℤ k e.gcra_states) (pos now) in
      let (d, tat') = settle (check_gcra c cost now tat) tat in
      some (d, record e { gcra_states = M.write ℤ k tat' e.gcra_states })
  run_dispatch key c cost now (to_slot wait) e =
      let k = cache_key_for M.md5 c key in
      let next = get_or (M.get ℕ k e.scheduled_states) now in
      let (d, next') = settle (check_scheduled_slot c wait now next) next in
      some (d, record e { scheduled_states = M.write ℕ k next' e.scheduled_states })
  run_dispatch key c cost now to_fixed e =
      let k = cache_key_for M.md5 c key in
      let id = now / max (window_millis c) 1 in
      let s =
        get_or (M.get FixedWindowState k e.fixed_window_states)
          (record { window_id = id; count = 0 }) in
      let (d, s') = check_fixed_window c now s in
      some
        (d, record e { fixed_window_states = M.write FixedWindowState k s' e.fixed_window_states })
  run_dispatch key c cost now to_sliding e =
      let k = cache_key_for M.md5 c key in
      let entries = get_or (M.get (List ℕ) k e.sliding_window_states) [] in
      let (d, entries') = check_sliding_window c now entries in
      some (
        d,
        record e { sliding_window_states = M.write (List ℕ) k entries' e.sliding_window_states },
      )
  run_dispatch key c cost now unreachable e = none

  unfoldable pub check_memory : Bytes → RateLimitConfig → (cost now : ℕ) → RateLimitEngine → Outcome
  unfolding run_dispatch dispatch
  check_memory key c cost now e = run_dispatch key c cost now (dispatch c) e

  abbrev pub count_fail_open : RateLimitEngine → RateLimitEngine
  count_fail_open e = record e {
    stats = record (e.stats) { fail_open_passes = fetch_add e.stats.fail_open_passes 1 };
  }

  abbrev pub count_fallback : RateLimitEngine → RateLimitEngine
  count_fallback e = record e {
    stats = record (e.stats) { fallback_to_memory = fetch_add e.stats.fallback_to_memory 1 };
  }

  abbrev pub count_failure : RateLimitEngine → RateLimitEngine
  count_failure e = record e {
    stats = record (e.stats) { backend_failures = fetch_add e.stats.backend_failures 1 };
  }

  -- The match on the policy in `handle_backend_failure`.
  apply_policy :
      RateLimitFailurePolicy → Bytes → RateLimitConfig → (cost now : ℕ) → RateLimitEngine → Outcome
  apply_policy fail_open key c cost now e =
      let limit = max (effective_burst c) 1 in
      some (
        allowed (record { limit = limit; remaining = limit; reset_after = 0; retry_after = none }),
        count_fail_open e,
      )
  apply_policy fail_closed key c cost now e = some (backend_unavailable, e)
  apply_policy fallback_memory key c cost now e = check_memory key c cost now (count_fallback e)

  unfoldable pub handle_backend_failure :
      Bytes → RateLimitConfig → (cost now : ℕ) → RateLimitEngine → Outcome
  unfolding apply_policy
  handle_backend_failure key c cost now e = apply_policy c.failure_policy key c cost now e

  -- What `check_redis` does with the reply of the script.
  read_reply :
      Option (List ℤ)
      → (List ℤ → RateLimitDecision)
      → Bytes
      → RateLimitConfig
      → (cost now : ℕ) → RateLimitEngine
      → Outcome
  read_reply (some values) read key c cost now e = some (read values, e)
  read_reply none read key c cost now e = handle_backend_failure key c cost now (count_failure e)

  unfoldable pub check_redis :
      Bytes → RateLimitConfig → (cost : ℕ) → Moment → RateLimitEngine → Outcome
  unfolding read_reply
  check_redis key c cost t e =
      let (script, args, read) = redis_call c cost t c.algorithm in
      if e.redis
      then read_reply (t.reply script (redis_key_for M.md5 key c) args) read key c cost t.now e
      else handle_backend_failure key c cost t.now e

  -- The match on the backend in `check_with_cost`.
  abbrev on_backend :
      RateLimitBackend → Bytes → RateLimitConfig → (cost : ℕ) → Moment → RateLimitEngine → Outcome
  on_backend memory key c cost t e = check_memory key c cost t.now e
  on_backend redis key c cost t e = check_redis key c cost t e

  abbrev note_decision : RateLimitDecision × RateLimitEngine → RateLimitDecision × RateLimitEngine
  note_decision (d, e) = (d, record e { stats = record_stats d e.stats })

  unfoldable pub check_with_cost :
      Bytes → RateLimitConfig → (cost : ℕ) → Moment → RateLimitEngine → Outcome
  check_with_cost key c cost t e =
      Option.map note_decision (on_backend c.backend key c (max cost 1) t e)

  -- `check`
  unfoldable pub check : Bytes → RateLimitConfig → Moment → RateLimitEngine → Outcome
  unfolding check_with_cost
  check key c t e = check_with_cost key c 1 t e

  abbrev pub is_nil {ℓ} : {A : Type ℓ} → List A → Bool
  is_nil [] = true
  is_nil (_ ∷ _) = false

  unfoldable pub check_lists :
      M.IpAddr → RateLimitEngine → Option RateLimitDecision × RateLimitEngine
  check_lists ip e =
      if not (is_nil e.allowlist) && any (λ net. M.in_network net ip) e.allowlist
      then (
        some (allowed unlimited),
        record e {
          stats = record (e.stats) { allowlist_passes = fetch_add e.stats.allowlist_passes 1 };
        },
      )
      else if not (is_nil e.blocklist) && any (λ net. M.in_network net ip) e.blocklist
      then (
        some (rejected blocklisted),
        record e {
          stats = record (e.stats) { blocklist_blocks = fetch_add e.stats.blocklist_blocks 1 };
        },
      )
      else (none, e)

  -- The invalidation of `reset_key`, by algorithm.
  abbrev drop_cell : RateLimitAlgorithm → Bytes → RateLimitEngine → RateLimitEngine
  drop_cell token_bucket k e = record e { gcra_states = M.invalidate ℤ k e.gcra_states }
  drop_cell gcra k e = record e { gcra_states = M.invalidate ℤ k e.gcra_states }
  drop_cell fixed_window k e = record e {
    fixed_window_states = M.invalidate FixedWindowState k e.fixed_window_states;
  }
  drop_cell sliding_window k e = record e {
    sliding_window_states = M.invalidate (List ℕ) k e.sliding_window_states;
  }
  drop_cell leaky_bucket k e = record e { scheduled_states = M.invalidate ℕ k e.scheduled_states }
  drop_cell throttle_queue k e = record e { scheduled_states = M.invalidate ℕ k e.scheduled_states }

  abbrev is_redis : RateLimitBackend → Bool
  is_redis memory = false
  is_redis redis = true

  -- The engine afterwards, and the Redis key for which a DEL is sent, if any.
  unfoldable pub reset_key :
      Bytes → RateLimitConfig → RateLimitEngine → RateLimitEngine × Option Bytes
  reset_key key c e = (
    drop_cell c.algorithm (cache_key_for M.md5 c key) e,
    if is_redis c.backend && e.redis then some (redis_key_for M.md5 key c) else none,
  )

  abbrev count_refund : ℕ → RateLimitEngine → RateLimitEngine
  count_refund cost e = record e {
    stats = record (e.stats) { cost_refunded = fetch_add e.stats.cost_refunded cost };
  }

  -- `fetch_sub` on the cell of the key, if the cache holds one.
  abbrev give_back : Option ℤ → Bytes → ℕ → RateLimitEngine → RateLimitEngine
  give_back none k refund_ms e = e
  give_back (some tat) k refund_ms e = record e {
    gcra_states = M.write ℤ k (wrapping_sub tat refund_ms) e.gcra_states;
  }

  -- The match on the backend in `refund`. The reply of the refund script is ignored, so the
  -- engine does not depend on it.
  abbrev refund_on :
      RateLimitBackend → Bytes → RateLimitConfig → ℕ → RateLimitEngine → RateLimitEngine
  refund_on memory key c cost e =
      let k = cache_key_for M.md5 c key in
      count_refund cost
        (give_back (M.get ℤ k e.gcra_states) k (saturating_mul cost (emission_interval_millis c)) e)
  refund_on redis key c cost e = if e.redis then count_refund cost e else e

  unfoldable pub refund : Bytes → RateLimitConfig → (cost : ℕ) → RateLimitEngine → RateLimitEngine
  unfolding supports_cost
  refund key c cost e =
      if not (supports_cost c.algorithm) || cost == 0 then e else refund_on c.backend key c cost e
