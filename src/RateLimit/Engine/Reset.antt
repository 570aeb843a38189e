-- ===== src/RateLimit/Engine/Reset.antt =====
-- `reset_key` lets the next request for the key through, in every algorithm.
use summerrs_admin.Base.{
  ℕ, ◌*◌, ◌/◌, ◌≤◌, ◌≡◌, refl, inl, inr, max, true, none, some, List, [], arith,
}
use summerrs_admin.Base.Text.{Bytes}
use summerrs_admin.Base.Word.{ℤ, pos}
use summerrs_admin.RateLimit.Config.{
  RateLimitConfig, IsTyped, RateLimitAlgorithm, token_bucket, gcra, leaky_bucket, throttle_queue,
  fixed_window, sliding_window, uses_gcra, emission_interval_millis, effective_burst, window_limit,
  window_millis,
}
use summerrs_admin.RateLimit.Config.Bounds.{effective_burst_bounds}
use summerrs_admin.RateLimit.Decision.{RateLimitDecision, is_admitted}
use summerrs_admin.RateLimit.Keys.{cache_key_for}
use summerrs_admin.RateLimit.Algorithms.{
  FixedWindowState, settle, check_fixed_window, check_sliding_window, check_scheduled_slot,
  slot_round,
}
use summerrs_admin.RateLimit.Algorithms.Gcra.{far_future, gcra_step, gcra_step_cases}
use summerrs_admin.RateLimit.Platform.{Platform, Retains}
use summerrs_admin.RateLimit.Engine.{
  RateLimitEngine, Dispatch, to_gcra, to_slot, to_fixed, to_sliding, unreachable, dispatch,
  run_dispatch, check_memory, drop_cell, reset_key, Outcome,
}

-- The algorithms admit a first request.
first_slot :
    (c : RateLimitConfig) (wait now : ℕ)
    → is_admitted (settle (check_scheduled_slot c wait now now) now).0 ≡ true
unfolding check_scheduled_slot slot_round
first_slot c wait now = ground arith

first_fixed :
    (c : RateLimitConfig) (now id : ℕ)
    → is_admitted (check_fixed_window c now (record { window_id = id; count = 0 })).0 ≡ true
unfolding check_fixed_window window_limit
first_fixed c now id = ground arith

first_sliding :
    (c : RateLimitConfig) (now : ℕ) → is_admitted (check_sliding_window c now []).0 ≡ true
unfolding check_sliding_window window_limit
first_sliding c now = ground arith

first_gcra :
    (c : RateLimitConfig) (cost now : ℕ)
    → IsTyped c
    → now ≤ far_future
    → max cost 1 ≤ effective_burst c
    → is_admitted (gcra_step c cost now (pos now)).0 ≡ true
first_gcra c cost now typed near fits =
    let small : max cost 1 * emission_interval_millis c
        ≤ effective_burst c * emission_interval_millis c =
      grind arith in
    elim (gcra_step_cases c typed cost now (pos now) (omega (arith, effective_burst_bounds c typed))
      near) [ inl h ↦ h.1 | inr h ↦ absurd (omega (arith, h.0)) ]

module _ (M : Platform) (law : Retains M) (key : Bytes) (c : RateLimitConfig) where
  -- The cell that the check would use is not there.
  abbrev Fresh : Dispatch → RateLimitEngine M → Type 0
  Fresh to_gcra e = M.get ℤ (cache_key_for M.md5 c key) e.gcra_states ≡ none
  Fresh (to_slot w) e = M.get ℕ (cache_key_for M.md5 c key) e.scheduled_states ≡ none
  Fresh to_fixed e = M.get FixedWindowState (cache_key_for M.md5 c key) e.fixed_window_states ≡ none
  Fresh to_sliding e = M.get (List ℕ) (cache_key_for M.md5 c key) e.sliding_window_states ≡ none
  Fresh unreachable e = ⊥

  abbrev Admitted : Outcome M → Type 0
  Admitted none = ⊥
  Admitted (some (d, e)) = is_admitted d ≡ true

  run-Fresh :
      (cost now : ℕ) (to : Dispatch) (e : RateLimitEngine M)
      → IsTyped c
      → now ≤ far_future
      → (to ≡ to_gcra → max cost 1 ≤ effective_burst c)
      → Fresh to e
      → Admitted (run_dispatch M key c cost now to e)
  unfolding run_dispatch gcra_step
  run-Fresh cost now to_gcra e typed near fits f =
      rw f (first_gcra c cost now typed near (fits refl))
  run-Fresh cost now (to_slot w) e typed near fits f = rw f (first_slot c w now)
  run-Fresh cost now to_fixed e typed near fits f =
      rw f (first_fixed c now (now / max (window_millis c) 1))
  run-Fresh cost now to_sliding e typed near fits f = rw f (first_sliding c now)
  run-Fresh cost now unreachable e typed near fits f = absurd f

  drop-Fresh :
      (a : RateLimitAlgorithm) (e : RateLimitEngine M)
      → c.algorithm ≡ a
      → Fresh (dispatch c) (drop_cell M a (cache_key_for M.md5 c key) e)
  unfolding dispatch
  drop-Fresh token_bucket e p = rw p (law.get_invalidate_self ℤ _ _)
  drop-Fresh gcra e p = rw p (law.get_invalidate_self ℤ _ _)
  drop-Fresh leaky_bucket e p = rw p (law.get_invalidate_self ℕ _ _)
  drop-Fresh throttle_queue e p = rw p (law.get_invalidate_self ℕ _ _)
  drop-Fresh fixed_window e p = rw p (law.get_invalidate_self FixedWindowState _ _)
  drop-Fresh sliding_window e p = rw p (law.get_invalidate_self (List ℕ) _ _)

  gcra-dispatch : dispatch c ≡ to_gcra → uses_gcra c.algorithm ≡ true
  unfolding dispatch
  gcra-dispatch = ground arith

  Admitted-out :
      (o : Outcome M)
      → Admitted o
      → (d : RateLimitDecision) × (e' : RateLimitEngine M) × (o ≡ some (d, e'))
        × (is_admitted d ≡ true)
  Admitted-out none h = absurd h
  Admitted-out (some (d, e')) h = (d, e', refl, h)

-- After `reset_key` the next memory check of the key admits the request, whatever the engine held,
-- in every algorithm. For the cost-based algorithms its cost must be within the burst. Readings of
-- the clock up to 2^62 ms; the cache forgets what is invalidated.
pub reset_key-admits :
    (M : Platform)
    → Retains M
    → (key : Bytes) (c : RateLimitConfig) (cost now : ℕ) (e : RateLimitEngine M) → IsTyped c
    → now ≤ far_future
    → (uses_gcra c.algorithm ≡ true → max cost 1 ≤ effective_burst c)
    → (d : RateLimitDecision) × (e' : RateLimitEngine M) × (check_memory M key c cost now
          (reset_key M key c e).0
        ≡ some (d, e'))
      × (is_admitted d ≡ true)
unfolding check_memory reset_key
reset_key-admits M law key c cost now e typed near fits = Admitted-out M law key c _ (
    run-Fresh M law key c cost now (dispatch c) _ typed near
      (λ p. fits (gcra-dispatch M law key c p)) (drop-Fresh M law key c c.algorithm e refl))
