-- ===== src/RateLimit/Algorithms.antt =====
-- crates/summer-common/src/rate_limit/algorithms.rs, the in-memory algorithms. Each function here
-- is one check on the cell that the cache holds for a key: it takes the clock's reading, which is
-- a duration since the epoch and so not negative, and the content of the cell, and it returns the
-- decision and the content afterwards. `Engine` puts them over the caches.
pub mod Gcra
pub mod GcraRetry
pub mod Threads
pub mod GcraThreads
pub mod Windows
pub mod Slots
use summerrs_admin.Base.{
  ℕ, ◌+◌, ◌-◌, ◌*◌, ◌/◌, ◌%◌, ◌≤◌, ◌<◌, ◌≡◌, refl, min, max, Bool, true, false, Option, none, some,
  List, [], ◌∷◌, ◌++◌, length, arith, leb, ltb, ◌==◌, not, if◌then◌else◌,
}
use summerrs_admin.Base.Word.{ℤ, pos, pos_part, i64_max, u32_mod, saturating_add, saturating_mul}
use summerrs_admin.RateLimit.Config.{
  RateLimitConfig, RateLimitAlgorithm, emission_interval_millis, effective_burst, window_millis,
  window_limit,
}
use summerrs_admin.RateLimit.Decision.{
  RateLimitMetadata, rejected_metadata, RateLimitDecision, allowed, delayed, rejected,
}

-- One round of the compare-and-exchange loop of `check_memory_gcra` and of
-- `check_memory_scheduled_slot`: what the thread does with the value that it loaded.
pub data Attempt (A : Type 0) : Type 0 where
  -- return the decision and leave the cell
  give_up : RateLimitDecision → Attempt A
  -- try to replace the loaded value by this one; on success return the decision
  exchange : A → RateLimitDecision → Attempt A

-- The cell and the decision when nobody interferes: the exchange succeeds.
abbrev pub settle : {A : Type 0} → Attempt A → A → RateLimitDecision × A
settle (give_up d) a = (d, a)
settle (exchange a' d) a = (d, a')

unfoldable pub gcra_capacity : RateLimitConfig → ℕ
unfolding saturating_mul
gcra_capacity config = saturating_mul (effective_burst config) (emission_interval_millis config)

unfoldable pub gcra_cost : RateLimitConfig → ℕ → ℕ
unfolding saturating_mul
gcra_cost config cost = saturating_mul (max cost 1) (emission_interval_millis config)

-- The body of the loop of `check_memory_gcra`, over the quantities computed before it. The clock
-- is not negative, so `tat.max(now_ms)` is the maximum of the nonnegative part of `tat`.
unfoldable pub gcra_round : (emission capacity cost_emission limit now : ℕ) → ℤ → Attempt ℤ
unfolding saturating_add
gcra_round emission capacity cost_emission limit now tat =
    let arrival = max (pos_part tat) now in
    let diff = arrival - now in
    let new_tat = saturating_add arrival cost_emission in
    if ltb capacity (saturating_add diff cost_emission)
    then give_up (rejected (rejected_metadata limit (saturating_add diff cost_emission - capacity)))
    else exchange (pos new_tat) (
        allowed (record {
          limit = limit;
          remaining =
              if ltb 0 emission
              then ((capacity - diff - cost_emission) / emission) % u32_mod
              else 0;
          reset_after = new_tat - now;
          retry_after = none;
        }))

unfoldable pub check_gcra : RateLimitConfig → (cost now : ℕ) → ℤ → Attempt ℤ
check_gcra config cost now tat =
    gcra_round (emission_interval_millis config) (gcra_capacity config) (gcra_cost config cost)
      (effective_burst config) now tat

pub record FixedWindowState : Type 0 where
  pub window_id : ℕ
  pub count : ℕ

-- The reset of `check_memory_fixed_window` when the window has changed.
abbrev roll : ℕ → FixedWindowState → FixedWindowState
roll id s = if s.window_id == id then s else record { window_id = id; count = 0 }

-- The rest of `check_memory_fixed_window`, after the reset.
fixed_count : (limit reset_after : ℕ) → FixedWindowState → RateLimitDecision × FixedWindowState
fixed_count limit reset_after s =
    if leb limit s.count
    then (
      rejected (record {
        limit = limit;
        remaining = 0;
        reset_after = reset_after;
        retry_after = some reset_after;
      }),
      s,
    )
    else (
      allowed (record {
        limit = limit;
        remaining = limit - (s.count + 1);
        reset_after = reset_after;
        retry_after = none;
      }),
      record s { count = s.count + 1 },
    )

unfoldable pub check_fixed_window :
    RateLimitConfig → (now : ℕ) → FixedWindowState → RateLimitDecision × FixedWindowState
unfolding fixed_count
check_fixed_window config now s =
    let window_ms = max (window_millis config) 1 in
    let id = now / window_ms in
    fixed_count (window_limit config) ((id + 1) * window_ms - now) (roll id s)

-- `while front <= now - window { pop_front }`; the cutoff may be negative, so the window is added
-- to the entry instead.
unfoldable pub evict : (window_ms now : ℕ) → List ℕ → List ℕ
evict window_ms now [] = []
evict window_ms now (ts ∷ entries) =
    let rest = evict window_ms now entries in
    if leb (ts + window_ms) now then rest else ts ∷ entries

-- `reset_after_from_front`
abbrev reset_after_from_front : (window_ms now : ℕ) → List ℕ → ℕ
reset_after_from_front window_ms now [] = 0
reset_after_from_front window_ms now (oldest ∷ _) = oldest + window_ms - now

-- The rest of `check_memory_sliding_window`, after the eviction.
sliding_push : (limit window_ms now : ℕ) → List ℕ → RateLimitDecision × List ℕ
sliding_push limit window_ms now entries =
    if leb limit (length entries % u32_mod)
    then (
      rejected (record {
        limit = limit;
        remaining = 0;
        reset_after = reset_after_from_front window_ms now entries;
        retry_after = some (reset_after_from_front window_ms now entries);
      }),
      entries,
    )
    else (
      allowed (record {
        limit = limit;
        remaining = limit - length (entries ++ now ∷ []) % u32_mod;
        reset_after = reset_after_from_front window_ms now (entries ++ now ∷ []);
        retry_after = none;
      }),
      entries ++ now ∷ [],
    )

unfoldable pub check_sliding_window :
    RateLimitConfig → (now : ℕ) → List ℕ → RateLimitDecision × List ℕ
unfolding evict sliding_push
check_sliding_window config now entries =
    let window_ms = max (window_millis config) 1 in
    sliding_push (window_limit config) window_ms now (evict window_ms now entries)

-- The loop body of `check_memory_scheduled_slot`. The cell starts at the clock's reading and only
-- grows, so it is not negative.
unfoldable pub slot_round : (interval_ms max_wait_ms now : ℕ) → ℕ → Attempt ℕ
unfolding saturating_add
slot_round interval_ms max_wait_ms now next_available =
    let scheduled = max next_available now in
    let delay_ms = scheduled - now in
    let meta : RateLimitMetadata = record {
      limit = 1;
      remaining = 0;
      reset_after = interval_ms;
      retry_after = none;
    } in
    if ltb max_wait_ms delay_ms
    then give_up (rejected (rejected_metadata 1 delay_ms))
    else exchange (saturating_add scheduled interval_ms)
        (if delay_ms == 0 then allowed meta else delayed delay_ms meta)

unfoldable pub check_scheduled_slot : RateLimitConfig → (max_wait_ms now : ℕ) → ℕ → Attempt ℕ
check_scheduled_slot config max_wait_ms now next =
    slot_round (max (emission_interval_millis config) 1) max_wait_ms now next
