-- ===== src/RateLimit/Decision.antt =====
-- crates/summer-common/src/rate_limit/decision.rs: decisions with their metadata, the holder that
-- keeps the strictest metadata of a request, and the engine's counters. A `Duration` is a number of
-- milliseconds. An `AtomicU64` counter wraps at 2^64.
use summerrs_admin.Base.{
  ℕ, ◌+◌, ◌%◌, Bool, true, false, Option, none, some, leb, ◌==◌, if◌then◌else◌,
}
use summerrs_admin.Base.Word.{u32_max, u64_mod}

pub record RateLimitMetadata : Type 0 where
  pub limit : ℕ
  pub remaining : ℕ
  pub reset_after : ℕ
  pub retry_after : Option ℕ

abbrev pub rejected_metadata : ℕ → ℕ → RateLimitMetadata
rejected_metadata limit retry_after = record {
  limit = limit;
  remaining = 0;
  reset_after = retry_after;
  retry_after = some retry_after;
}

abbrev pub unlimited : RateLimitMetadata
unlimited = record { limit = u32_max; remaining = u32_max; reset_after = 0; retry_after = none }

abbrev pub blocklisted : RateLimitMetadata
blocklisted = record { limit = 0; remaining = 0; reset_after = 0; retry_after = none }

unfoldable pub is_unlimited : RateLimitMetadata → Bool
is_unlimited m = m.limit == u32_max

-- `RateLimitMetadataHolder`: the content of the lock.
unfoldable pub record_meta : RateLimitMetadata → Option RateLimitMetadata → Option RateLimitMetadata
record_meta meta none = some meta
record_meta meta (some existing) =
    if leb existing.remaining meta.remaining then some existing else some meta

pub data RateLimitDecision : Type 0 where
  allowed : RateLimitMetadata → RateLimitDecision
  delayed : ℕ → RateLimitMetadata → RateLimitDecision
  rejected : RateLimitMetadata → RateLimitDecision
  backend_unavailable : RateLimitDecision

unfoldable pub metadata : RateLimitDecision → Option RateLimitMetadata
metadata (allowed meta) = some meta
metadata (delayed d meta) = some meta
metadata (rejected meta) = some meta
metadata backend_unavailable = none

-- The decision lets the request through, at once or after a wait.
abbrev pub is_admitted : RateLimitDecision → Bool
is_admitted (allowed _) = true
is_admitted (delayed _ _) = true
is_admitted _ = false

pub record RateLimitStats : Type 0 where
  pub allowed : ℕ
  pub delayed : ℕ
  pub rejected : ℕ
  pub backend_failures : ℕ
  pub fallback_to_memory : ℕ
  pub fail_open_passes : ℕ
  pub fail_closed_blocks : ℕ
  pub allowlist_passes : ℕ
  pub blocklist_blocks : ℕ
  pub shadow_passes : ℕ
  pub cost_consumed : ℕ
  pub cost_refunded : ℕ

-- `fetch_add` on an `AtomicU64`
abbrev pub fetch_add : ℕ → ℕ → ℕ
fetch_add counter n = (counter + n) % u64_mod

-- `RateLimitStats::record`
unfoldable pub record_stats : RateLimitDecision → RateLimitStats → RateLimitStats
record_stats (allowed _) s = record s { allowed = fetch_add s.allowed 1 }
record_stats (delayed _ _) s = record s { delayed = fetch_add s.delayed 1 }
record_stats (rejected _) s = record s { rejected = fetch_add s.rejected 1 }
record_stats backend_unavailable s = record s {
  fail_closed_blocks = fetch_add s.fail_closed_blocks 1;
}
