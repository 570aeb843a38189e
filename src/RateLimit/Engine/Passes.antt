-- ===== src/RateLimit/Engine/Passes.antt =====
-- A check neither reads nor changes the counter of shadow passes, and keeps the blocklist.
use mathlib.Core.Option
use summerrs_admin.Base.{
  ℕ, ◌≡◌, refl, ap, ◌∙◌, max, Bool, true, false, Option, none, some, List, if◌then◌else◌,
}
use summerrs_admin.Base.Text.{Bytes}
use summerrs_admin.Base.Word.{ℤ}
use summerrs_admin.RateLimit.Config.{
  RateLimitConfig, RateLimitBackend, memory, redis, RateLimitFailurePolicy, fail_open, fail_closed,
  fallback_memory,
}
use summerrs_admin.RateLimit.Decision.{
  RateLimitDecision, allowed, delayed, rejected, backend_unavailable, record_stats,
}
use summerrs_admin.RateLimit.Platform.{Platform, Moment}
use summerrs_admin.RateLimit.Scripts.{redis_call}
use summerrs_admin.RateLimit.Engine.{
  RateLimitEngine, Outcome, Dispatch, to_gcra, to_slot, to_fixed, to_sliding, unreachable, dispatch,
  run_dispatch, check_memory, apply_policy, handle_backend_failure, read_reply, check_redis,
  count_fallback, count_failure, on_backend, note_decision, check_with_cost,
}

module _ (M : Platform) where
  -- The engine with another number of shadow passes.
  abbrev pub with_passes : ℕ → RateLimitEngine M → RateLimitEngine M
  with_passes p e = record e { stats = record (e.stats) { shadow_passes = p } }

  abbrev pub with_passes_behind :
      ℕ → RateLimitDecision × RateLimitEngine M → RateLimitDecision × RateLimitEngine M
  with_passes_behind p (d, e) = (d, with_passes p e)

  run_dispatch-passes :
      (p : ℕ) (key : Bytes) (c : RateLimitConfig) (cost now : ℕ) (to : Dispatch)
      (e : RateLimitEngine M)
      → run_dispatch M key c cost now to (with_passes p e)
        ≡ Option.map (with_passes_behind p) (run_dispatch M key c cost now to e)
  unfolding run_dispatch
  run_dispatch-passes p key c cost now to_gcra e = refl
  run_dispatch-passes p key c cost now (to_slot w) e = refl
  run_dispatch-passes p key c cost now to_fixed e = refl
  run_dispatch-passes p key c cost now to_sliding e = refl
  run_dispatch-passes p key c cost now unreachable e = refl

  failure-passes :
      (policy : RateLimitFailurePolicy) (p : ℕ) (key : Bytes) (c : RateLimitConfig) (cost now : ℕ)
      (e : RateLimitEngine M)
      → apply_policy M policy key c cost now (with_passes p e)
        ≡ Option.map (with_passes_behind p) (apply_policy M policy key c cost now e)
  unfolding apply_policy check_memory
  failure-passes fail_open p key c cost now e = refl
  failure-passes fail_closed p key c cost now e = refl
  failure-passes fallback_memory p key c cost now e =
      run_dispatch-passes p key c cost now (dispatch c) (count_fallback M e)

  check_redis-passes :
      (p : ℕ) (key : Bytes) (c : RateLimitConfig) (cost : ℕ) (t : Moment) (e : RateLimitEngine M)
      → check_redis M key c cost t (with_passes p e)
        ≡ Option.map (with_passes_behind p) (check_redis M key c cost t e)
  unfolding check_redis handle_backend_failure read_reply
  check_redis-passes p key c cost t e = by_connection e.redis (t.reply _ _ _)
    where
      by_connection :
          (b : Bool) (r : Option (List ℤ))
          → (if b
              then read_reply M r
                  (redis_call c cost t c.algorithm).2
                  key
                  c
                  cost
                  t.now
                  (with_passes p e)
              else apply_policy M c.failure_policy key c cost t.now (with_passes p e))
            ≡ Option.map (with_passes_behind p) (
                if b
                then read_reply M r (redis_call c cost t c.algorithm).2 key c cost t.now e
                else apply_policy M c.failure_policy key c cost t.now e)
      by_connection true none =
          failure-passes c.failure_policy p key c cost t.now (count_failure M e)
      by_connection true (some values) = refl
      by_connection false r = failure-passes c.failure_policy p key c cost t.now e

  note-passes :
      (p : ℕ) (o : Outcome M)
      → Option.map (note_decision M) (Option.map (with_passes_behind p) o)
        ≡ Option.map (with_passes_behind p) (Option.map (note_decision M) o)
  unfolding record_stats
  note-passes p none = refl
  note-passes p (some (allowed meta, e)) = refl
  note-passes p (some (delayed w meta, e)) = refl
  note-passes p (some (rejected meta, e)) = refl
  note-passes p (some (backend_unavailable, e)) = refl

  pub check_with_cost-passes :
      (p : ℕ) (key : Bytes) (c : RateLimitConfig) (cost : ℕ) (t : Moment) (e : RateLimitEngine M)
      → check_with_cost M key c cost t (with_passes p e)
        ≡ Option.map (with_passes_behind p) (check_with_cost M key c cost t e)
  unfolding check_with_cost check_memory
  check_with_cost-passes p key c cost t e =
      ap (Option.map (note_decision M)) (by_backend c.backend)
      ∙ note-passes p (on_backend M c.backend key c (max cost 1) t e)
    where
      by_backend :
          (b : RateLimitBackend)
          → on_backend M b key c (max cost 1) t (with_passes p e)
            ≡ Option.map (with_passes_behind p) (on_backend M b key c (max cost 1) t e)
      by_backend memory = run_dispatch-passes p key c (max cost 1) t.now (dispatch c) e
      by_backend redis = check_redis-passes p key c (max cost 1) t e

  -- A check keeps the blocklist.
  abbrev pub Keeps : List M.IpNetwork → Outcome M → Type 0
  Keeps blocks none = Unit
  Keeps blocks (some (d, e)) = e.blocklist ≡ blocks

  run_dispatch-Keeps :
      (key : Bytes) (c : RateLimitConfig) (cost now : ℕ) (to : Dispatch) (e : RateLimitEngine M)
      → Keeps e.blocklist (run_dispatch M key c cost now to e)
  unfolding run_dispatch
  run_dispatch-Keeps key c cost now to_gcra e = refl
  run_dispatch-Keeps key c cost now (to_slot w) e = refl
  run_dispatch-Keeps key c cost now to_fixed e = refl
  run_dispatch-Keeps key c cost now to_sliding e = refl
  run_dispatch-Keeps key c cost now unreachable e = tt

  failure-Keeps :
      (policy : RateLimitFailurePolicy) (key : Bytes) (c : RateLimitConfig) (cost now : ℕ)
      (e : RateLimitEngine M)
      → Keeps e.blocklist (apply_policy M policy key c cost now e)
  unfolding apply_policy check_memory
  failure-Keeps fail_open key c cost now e = refl
  failure-Keeps fail_closed key c cost now e = refl
  failure-Keeps fallback_memory key c cost now e =
      run_dispatch-Keeps key c cost now (dispatch c) (count_fallback M e)

  check_redis-Keeps :
      (key : Bytes) (c : RateLimitConfig) (cost : ℕ) (t : Moment) (e : RateLimitEngine M)
      → Keeps e.blocklist (check_redis M key c cost t e)
  unfolding check_redis handle_backend_failure read_reply
  check_redis-Keeps key c cost t e = by_connection e.redis (t.reply _ _ _)
    where
      by_connection :
          (b : Bool) (r : Option (List ℤ))
          → Keeps e.blocklist (
              if b
              then read_reply M r (redis_call c cost t c.algorithm).2 key c cost t.now e
              else apply_policy M c.failure_policy key c cost t.now e)
      by_connection true none = failure-Keeps c.failure_policy key c cost t.now (count_failure M e)
      by_connection true (some values) = refl
      by_connection false r = failure-Keeps c.failure_policy key c cost t.now e

  pub check_with_cost-Keeps :
      (key : Bytes) (c : RateLimitConfig) (cost : ℕ) (t : Moment) (e : RateLimitEngine M)
      → Keeps e.blocklist (check_with_cost M key c cost t e)
  unfolding check_with_cost check_memory
  check_with_cost-Keeps key c cost t e = noted _ (by_backend c.backend)
    where
      noted :
          (o : Outcome M) → Keeps e.blocklist o → Keeps e.blocklist (Option.map (note_decision M) o)
      noted none k = tt
      noted (some (d, e')) k = k

      by_backend :
          (b : RateLimitBackend) → Keeps e.blocklist (on_backend M b key c (max cost 1) t e)
      by_backend memory = run_dispatch-Keeps key c (max cost 1) t.now (dispatch c) e
      by_backend redis = check_redis-Keeps key c (max cost 1) t e
