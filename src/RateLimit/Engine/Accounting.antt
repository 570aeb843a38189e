-- ===== src/RateLimit/Engine/Accounting.antt =====
-- The engine never panics, and its counters record each decision once.
use mathlib.Core.Option
use summerrs_admin.Base.{
  ℕ, ◌≡◌, refl, ◌≢◌, max, Bool, true, false, Option, none, some, List, arith, if◌then◌else◌,
}
use summerrs_admin.Base.Text.{Bytes}
use summerrs_admin.Base.Word.{ℤ}
use summerrs_admin.RateLimit.Config.{
  RateLimitBackend, memory, redis, RateLimitAlgorithm, token_bucket, RateLimitFailurePolicy,
  fail_open, fail_closed, fallback_memory, RateLimitConfig,
}
use summerrs_admin.RateLimit.Decision.{
  RateLimitDecision, allowed, delayed, rejected, backend_unavailable, RateLimitStats, fetch_add,
  record_stats,
}
use summerrs_admin.RateLimit.Scripts.{redis_call}
use summerrs_admin.RateLimit.Platform.{Platform, Moment}
use summerrs_admin.RateLimit.Engine.{
  Dispatch, to_gcra, to_slot, to_fixed, to_sliding, unreachable, dispatch, RateLimitEngine, Outcome,
  run_dispatch, check_memory, apply_policy, handle_backend_failure, read_reply, check_redis,
  check_with_cost, count_fallback, count_failure, on_backend, note_decision,
}

dispatch-ne-unreachable :
    (a : RateLimitAlgorithm) (c : RateLimitConfig) → c.algorithm ≡ a → dispatch c ≢ unreachable
unfolding dispatch
dispatch-ne-unreachable token_bucket c e = ground arith
dispatch-ne-unreachable _ c e = ground arith

module _ (M : Platform) where
  -- What the counters of `s` are after one decision: exactly one of the four that tell decisions
  -- apart has grown, by one, and those of the lists and of the costs have not changed.
  pub record Counts (d : RateLimitDecision) (s s' : RateLimitStats) : Type 0 where
    pub told_apart :
        (s'.allowed ≡ (elim d [ allowed _ ↦ fetch_add s.allowed 1 | _ ↦ s.allowed ]))
        × (s'.delayed ≡ (elim d [ delayed _ _ ↦ fetch_add s.delayed 1 | _ ↦ s.delayed ]))
        × (s'.rejected ≡ (elim d [ rejected _ ↦ fetch_add s.rejected 1 | _ ↦ s.rejected ]))
        × (s'.fail_closed_blocks ≡ (elim d [
          | backend_unavailable ↦ fetch_add s.fail_closed_blocks 1
          | _ ↦ s.fail_closed_blocks
        ]))
    pub others :
        (s'.allowlist_passes ≡ s.allowlist_passes)
        × (s'.blocklist_blocks ≡ s.blocklist_blocks)
        × (s'.shadow_passes ≡ s.shadow_passes)
        × (s'.cost_consumed ≡ s.cost_consumed)
        × (s'.cost_refunded ≡ s.cost_refunded)

  -- A memory check succeeds, and leaves the counters, the lists and the connection alone.
  abbrev Quiet : RateLimitEngine M → Outcome M → Type 0
  Quiet e none = ⊥
  Quiet e (some (d, e')) =
      (e'.stats ≡ e.stats)
      × (e'.allowlist ≡ e.allowlist)
      × (e'.blocklist ≡ e.blocklist)
      × (e'.redis ≡ e.redis)

  run_dispatch-Quiet :
      (key : Bytes) (c : RateLimitConfig) (cost now : ℕ) (to : Dispatch) (e : RateLimitEngine M)
      → to ≢ unreachable
      → Quiet e (run_dispatch M key c cost now to e)
  unfolding run_dispatch
  run_dispatch-Quiet key c cost now to_gcra e h = (refl, refl, refl, refl)
  run_dispatch-Quiet key c cost now (to_slot w) e h = (refl, refl, refl, refl)
  run_dispatch-Quiet key c cost now to_fixed e h = (refl, refl, refl, refl)
  run_dispatch-Quiet key c cost now to_sliding e h = (refl, refl, refl, refl)
  run_dispatch-Quiet key c cost now unreachable e h = absurd (h refl)

  pub check_memory-Quiet :
      (key : Bytes) (c : RateLimitConfig) (cost now : ℕ) (e : RateLimitEngine M)
      → Quiet e (check_memory M key c cost now e)
  unfolding check_memory
  check_memory-Quiet key c cost now e =
      run_dispatch-Quiet key c cost now (dispatch c) e (dispatch-ne-unreachable c.algorithm c refl)

  -- A check before it is counted: of the counters only those of failures may have grown.
  abbrev Uncounted : RateLimitEngine M → Outcome M → Type 0
  Uncounted e none = ⊥
  Uncounted e (some (d, e')) =
      (e'.stats.allowed ≡ e.stats.allowed)
      × (e'.stats.delayed ≡ e.stats.delayed)
      × (e'.stats.rejected ≡ e.stats.rejected)
      × (e'.stats.fail_closed_blocks ≡ e.stats.fail_closed_blocks)
      × (e'.stats.allowlist_passes ≡ e.stats.allowlist_passes)
      × (e'.stats.blocklist_blocks ≡ e.stats.blocklist_blocks)
      × (e'.stats.shadow_passes ≡ e.stats.shadow_passes)
      × (e'.stats.cost_consumed ≡ e.stats.cost_consumed)
      × (e'.stats.cost_refunded ≡ e.stats.cost_refunded)

  Uncounted-of_Quiet :
      (e f : RateLimitEngine M) (o : Outcome M)
      → Quiet f o
      → Uncounted e (some (backend_unavailable, f))
      → Uncounted e o
  Uncounted-of_Quiet e f none q u = q
  Uncounted-of_Quiet e f (some (d, e')) (q, _, _, _) u = rw q u

  apply_policy-Uncounted :
      (p : RateLimitFailurePolicy) (key : Bytes) (c : RateLimitConfig) (cost now : ℕ)
      (e : RateLimitEngine M)
      → Uncounted e (apply_policy M p key c cost now e)
  unfolding apply_policy
  apply_policy-Uncounted fail_open key c cost now e =
      (refl, refl, refl, refl, refl, refl, refl, refl, refl)
  apply_policy-Uncounted fail_closed key c cost now e =
      (refl, refl, refl, refl, refl, refl, refl, refl, refl)
  apply_policy-Uncounted fallback_memory key c cost now e =
      Uncounted-of_Quiet e (count_fallback M e) _
        (check_memory-Quiet key c cost now (count_fallback M e))
        (refl, refl, refl, refl, refl, refl, refl, refl, refl)

  Uncounted-if :
      (b : Bool) (e : RateLimitEngine M) (x y : Outcome M)
      → Uncounted e x
      → Uncounted e y
      → Uncounted e (if b then x else y)
  Uncounted-if true e x y p q = p
  Uncounted-if false e x y p q = q

  check_redis-Uncounted :
      (key : Bytes) (c : RateLimitConfig) (cost : ℕ) (t : Moment) (e : RateLimitEngine M)
      → Uncounted e (check_redis M key c cost t e)
  unfolding check_redis handle_backend_failure
  check_redis-Uncounted key c cost t e =
      Uncounted-if e.redis e _ _ (replied _)
        (apply_policy-Uncounted c.failure_policy key c cost t.now e)
    where
      replied :
          (r : Option (List ℤ))
          → Uncounted e (read_reply M r (redis_call c cost t c.algorithm).2 key c cost t.now e)
      replied none = apply_policy-Uncounted c.failure_policy key c cost t.now (count_failure M e)
      replied (some values) = (refl, refl, refl, refl, refl, refl, refl, refl, refl)

  on_backend-Uncounted :
      (b : RateLimitBackend) (key : Bytes) (c : RateLimitConfig) (cost : ℕ) (t : Moment)
      (e : RateLimitEngine M)
      → Uncounted e (on_backend M b key c cost t e)
  on_backend-Uncounted memory key c cost t e =
      Uncounted-of_Quiet e e _ (check_memory-Quiet key c cost t.now e)
        (refl, refl, refl, refl, refl, refl, refl, refl, refl)
  on_backend-Uncounted redis key c cost t e = check_redis-Uncounted key c cost t e

  note-Counts :
      (e : RateLimitEngine M) (o : Outcome M)
      → Uncounted e o
      → (d : RateLimitDecision) × (e' : RateLimitEngine M) × (Option.map (note_decision M) o
          ≡ some (d, e'))
        × Counts d e.stats e'.stats
  unfolding record_stats
  note-Counts e none u = absurd u
  note-Counts e (some (allowed m, e')) u = (_, _, refl, ground arith)
  note-Counts e (some (delayed w m, e')) u = (_, _, refl, ground arith)
  note-Counts e (some (rejected m, e')) u = (_, _, refl, ground arith)
  note-Counts e (some (backend_unavailable, e')) u = (_, _, refl, ground arith)

-- Every check returns a decision, whatever the backend, the algorithm, the failure policy and the
-- reply of the server (`unreachable!` is never reached), and is counted once: of the counters of
-- allowed, delayed, rejected and fail-closed requests the one for the decision has grown by one
-- (wrapping at 2^64), and the other three, those of the lists, of the shadow mode and of the costs
-- are unchanged.
pub check_with_cost-Counts :
    (M : Platform) (key : Bytes) (c : RateLimitConfig) (cost : ℕ) (t : Moment)
    (e : RateLimitEngine M)
    → (d : RateLimitDecision) × (e' : RateLimitEngine M) × (check_with_cost M key c cost t e
        ≡ some (d, e'))
      × Counts M d e.stats e'.stats
unfolding check_with_cost
check_with_cost-Counts M key c cost t e =
    note-Counts M e (on_backend M c.backend key c (max cost 1) t e)
      (on_backend-Uncounted M c.backend key c (max cost 1) t e)
