-- ===== src/RateLimit/Context.antt =====
-- crates/summer-common/src/rate_limit/context.rs and reservation.rs: the checks that a handler
-- calls, with the shadow mode and the metadata holder, and the reservation of quota. Logging and
-- the sleep of a delayed request are left out; the wait is in the decision of the engine.
pub mod Reservations
pub mod Softer
pub mod Shadow
use mathlib.Core.Option
use summerrs_admin.Base.{
  ℕ, ◌+◌, ◌-◌, ◌≤◌, ◌<◌, ◌≡◌, refl, min, max, Bool, true, false, not, Option, none, some, arith,
  ltb, if◌then◌else◌,
}
use summerrs_admin.Base.Text.{Bytes}
use summerrs_admin.RateLimit.Config.{RateLimitMode, enforce, shadow, RateLimitConfig, supports_cost}
use summerrs_admin.RateLimit.Decision.{
  RateLimitMetadata, RateLimitDecision, allowed, delayed, rejected, backend_unavailable, metadata,
  is_admitted, RateLimitStats, fetch_add, record_meta,
}
use summerrs_admin.RateLimit.Platform.{Platform, Moment}
use summerrs_admin.RateLimit.Engine.{RateLimitEngine, check_with_cost, check_lists, refund}

-- The errors of `ApiErrors` that occur here; the texts of the last two are fixed.
pub data ApiError : Type 0 where
  too_many_requests : Bytes → ApiError
  service_unavailable internal : ApiError

pub data ApiResult (A : Type 0) : Type 0 where
  ok : A → ApiResult A
  err : ApiError → ApiResult A

-- `ReservationState`
pub record Reservation : Type 0 where
  pub key : Bytes
  pub config : RateLimitConfig
  pub reserved_cost : ℕ

-- `metadata.record` of the decision's metadata, if it has any.
abbrev note_meta : Option RateLimitMetadata → Option RateLimitMetadata → Option RateLimitMetadata
note_meta none holder = holder
note_meta (some meta) holder = record_meta meta holder

module _ (M : Platform) where
  -- The engine and the metadata holder that a request shares.
  pub record Shared : Type 0 where
    pub engine : RateLimitEngine M
    pub holder : Option RateLimitMetadata

  abbrev pub Answer : Type 0 → Type 0
  Answer A = ApiResult A × Shared

  -- The match on a decision of the lists.
  abbrev list_answer : RateLimitDecision → Bytes → ApiResult RateLimitMetadata
  list_answer (allowed meta) message = ok meta
  list_answer (rejected _) message = err (too_many_requests message)
  list_answer _ message = err internal

  -- The match on the mode for a rejected request.
  abbrev reject : RateLimitMode → RateLimitMetadata → Bytes → Shared → Answer RateLimitMetadata
  reject shadow meta message s = (
    ok meta,
    record s {
      engine = record (s.engine) {
        stats = record (s.engine.stats) {
          shadow_passes = fetch_add s.engine.stats.shadow_passes 1;
        };
      };
    },
  )
  reject enforce meta message s = (err (too_many_requests message), s)

  -- The match on the decision in `finalize`, after its metadata has been recorded.
  abbrev conclude : RateLimitDecision → RateLimitConfig → Bytes → Shared → Answer RateLimitMetadata
  conclude (allowed meta) c message s = (ok meta, s)
  conclude (delayed d meta) c message s = (ok meta, s)
  conclude (rejected meta) c message s = reject c.mode meta message s
  conclude backend_unavailable c message s = (err service_unavailable, s)

  unfoldable pub finalize :
      RateLimitDecision → RateLimitConfig → Bytes → Shared → Answer RateLimitMetadata
  unfolding metadata record_meta
  finalize d c message s =
      conclude d c message (record s { holder = note_meta (metadata d) s.holder })

  abbrev consume : ℕ → RateLimitEngine M → RateLimitEngine M
  consume cost e = record e {
    stats = record (e.stats) { cost_consumed = fetch_add e.stats.cost_consumed cost };
  }

  -- The algorithm's part of `check_with_cost`, behind the lists.
  abbrev after_check :
      (cost : ℕ)
      → RateLimitConfig
      → Bytes
      → Option RateLimitMetadata
      → RateLimitDecision × RateLimitEngine M
      → Answer RateLimitMetadata
  after_check cost c message holder (d, e) =
      finalize d c message
        (record { engine = if is_admitted d then consume cost e else e; holder = holder })

  abbrev after_lists :
      Option RateLimitDecision × RateLimitEngine M
      → Bytes
      → RateLimitConfig
      → (cost : ℕ) → Bytes
      → Moment
      → Option RateLimitMetadata
      → Option (Answer RateLimitMetadata)
  after_lists (some d, e) key c cost message t holder =
      some (list_answer d message, record { engine = e; holder = note_meta (metadata d) holder })
  after_lists (none, e) key c cost message t holder =
      Option.map (after_check (max cost 1) c message holder)
        (check_with_cost M key c (max cost 1) t e)

  -- `RateLimitContext::check_with_cost`; `none` is a panic.
  unfoldable pub checked :
      M.IpAddr
      → Bytes
      → RateLimitConfig
      → (cost : ℕ) → (message : Bytes) → Moment
      → Shared
      → Option (Answer RateLimitMetadata)
  unfolding finalize check_lists
  checked ip key c cost message t s =
      after_lists (check_lists M ip s.engine) key c cost message t s.holder

  abbrev hand_out : Bytes → RateLimitConfig → ℕ → Answer RateLimitMetadata → Answer Reservation
  hand_out key c cost (ok meta, s) =
      (ok (record { key = key; config = c; reserved_cost = cost }), s)
  hand_out key c cost (err x, s) = (err x, s)

  unfoldable pub reserve :
      M.IpAddr
      → Bytes
      → RateLimitConfig
      → (estimated_cost : ℕ) → (message : Bytes) → Moment
      → Shared
      → Option (Answer Reservation)
  unfolding checked
  reserve ip key c estimated_cost message t s =
      if supports_cost c.algorithm
      then Option.map (hand_out key c (max estimated_cost 1))
          (checked ip key c (max estimated_cost 1) message t s)
      else some (err internal, s)

  -- `Reservation::commit`
  unfoldable pub commit : Reservation → (actual_cost : ℕ) → RateLimitEngine M → RateLimitEngine M
  commit r actual_cost e =
      let actual = min actual_cost r.reserved_cost in
      if ltb actual r.reserved_cost then refund M r.key r.config (r.reserved_cost - actual) e else e

  -- `Reservation::release`, and `drop` of a reservation that was not consumed, where a tokio
  -- handle is at hand.
  unfoldable pub release : Reservation → RateLimitEngine M → RateLimitEngine M
  release r e = refund M r.key r.config r.reserved_cost e
