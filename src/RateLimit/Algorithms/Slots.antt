-- ===== src/RateLimit/Algorithms/Slots.antt =====
-- What `check_memory_scheduled_slot` (LeakyBucket and ThrottleQueue) promises over a run of
-- requests for one key.
use summerrs_admin.Base.{
  ℕ, ◌+◌, ◌-◌, ◌≤◌, ◌<◌, ◌≡◌, ◌⊎◌, inl, inr, max, true, false, List, [], ◌∷◌, arith, if◌then◌else◌,
}
use summerrs_admin.Base.Word.{saturating_add}
use summerrs_admin.RateLimit.Config.{RateLimitConfig, IsTyped, emission_interval_millis}
use summerrs_admin.RateLimit.Config.Bounds.{emission_interval_lem}
use summerrs_admin.RateLimit.Decision.{RateLimitDecision, delayed, is_admitted}
use summerrs_admin.RateLimit.Algorithms.{settle, slot_round, check_scheduled_slot}
use summerrs_admin.RateLimit.Algorithms.Gcra.{far_future}

-- One check by a thread that nobody interferes with.
unfoldable pub slot_step : RateLimitConfig → (max_wait now : ℕ) → ℕ → RateLimitDecision × ℕ
unfolding check_scheduled_slot slot_round
slot_step c max_wait now next = settle (check_scheduled_slot c max_wait now next) next

-- How long the caller sleeps before the request is served.
abbrev pub wait_of : RateLimitDecision → ℕ
wait_of (delayed d _) = d
wait_of _ = 0

-- For each request that is admitted, the reading of the clock and the time at which it is served.
unfoldable pub served : RateLimitConfig → ℕ → List ℕ → ℕ → List (ℕ × ℕ)
served c max_wait [] next = []
served c max_wait (now ∷ es) next =
    let (d, next') = slot_step c max_wait now next in
    let later = served c max_wait es next' in
    if is_admitted d then (now, now + wait_of d) ∷ later else later

-- Each request is served at `from` or later, after it arrived and within the wait, and at least
-- the interval after the one before it.
abbrev pub Spaced : (interval max_wait from : ℕ) → List (ℕ × ℕ) → Type 0
Spaced interval max_wait from [] = Unit
Spaced interval max_wait from ((now, start) ∷ l) =
    (from ≤ start)
    × (now ≤ start)
    × (start ≤ now + max_wait)
    × Spaced interval max_wait (start + interval) l

-- No reading of the clock is beyond 2^62 ms.
abbrev pub Near : List ℕ → Type 0
Near [] = Unit
Near (now ∷ es) = (now ≤ far_future) × Near es

abbrev pub interval_of : RateLimitConfig → ℕ
interval_of c = max (emission_interval_millis c) 1

-- A check admits exactly when the next free slot is within the wait, serves the request at that
-- slot, and frees the slot an interval later.
slot_step_cases :
    (c : RateLimitConfig)
    → IsTyped c
    → (max_wait now next : ℕ) → max_wait ≤ 2305843009213693952
    → now ≤ far_future
    → let (d, next') = slot_step c max_wait now next in
      ((max next now - now ≤ max_wait)
        × (is_admitted d ≡ true)
        × (now + wait_of d ≡ max next now)
        × (next' ≡ max next now + interval_of c))
      ⊎ ((max_wait < max next now - now) × (is_admitted d ≡ false) × (next' ≡ next))
unfolding slot_step saturating_add
slot_step_cases c typed max_wait now next hw hn =
    let e = emission_interval_lem c typed in ground arith

Spaced-le :
    (interval max_wait a b : ℕ) (l : List (ℕ × ℕ))
    → a ≤ b
    → Spaced interval max_wait b l
    → Spaced interval max_wait a l
Spaced-le interval max_wait a b [] h s = tt
Spaced-le interval max_wait a b (x ∷ l) h s = (omega arith, s.1, s.2, s.3)

-- The requests that a run admits are served one emission interval apart, none before it arrived
-- and none later than `max_wait` after, and none before the slot that the cell names. Waits up to
-- 2^61 ms and readings of the clock up to 2^62 ms; the clock may go back.
pub served-Spaced :
    (c : RateLimitConfig)
    → IsTyped c
    → (max_wait : ℕ) → max_wait ≤ 2305843009213693952
    → (es : List ℕ) (next : ℕ) → Near es
    → Spaced (emission_interval_millis c) max_wait next (served c max_wait es next)
unfolding served
served-Spaced c typed w hw [] next near = tt
served-Spaced c typed w hw (now ∷ es) next (hn, near) =
    let (d, next') = slot_step c w now next in
    let ih = served-Spaced c typed w hw es next' near in
    elim (slot_step_cases c typed w now next hw hn) [
      | inl (fits, ok, at, moved) ↦ rw ok (
        omega arith,
        omega arith,
        omega arith,
        Spaced-le _ w _ next' _ (omega (arith, emission_interval_lem c typed)) ih,
      )
      | inr (full, denied, same) ↦ rw denied (Spaced-le _ w next next' _ (omega arith) ih)
    ]
