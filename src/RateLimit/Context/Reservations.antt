-- ===== src/RateLimit/Context/Reservations.antt =====
-- A reservation charges what was used: reserve, then commit or release.
use summerrs_admin.Base.{
  ℕ, ◌+◌, ◌-◌, ◌*◌, ◌≤◌, ◌<◌, ◌≡◌, inl, inr, min, max, true, some, arith, ap, sym, ◌∙◌, false≢true,
}
use summerrs_admin.Base.Text.{Bytes}
use summerrs_admin.Base.Word.{ℤ, pos, pos_part, u32_mod}
use summerrs_admin.RateLimit.Config.{
  RateLimitConfig, IsTyped, memory, uses_gcra, emission_interval_millis,
}
use summerrs_admin.RateLimit.Decision.{RateLimitDecision, is_admitted}
use summerrs_admin.RateLimit.Keys.{cache_key_for}
use summerrs_admin.RateLimit.Algorithms.Gcra.{
  far_future, product_max, gcra_step, gcra_step_cases, gcra_capacity-eq,
}
use summerrs_admin.RateLimit.Platform.{Platform, Retains}
use summerrs_admin.RateLimit.Engine.{RateLimitEngine, check_memory, refund}
use summerrs_admin.RateLimit.Engine.Cells.{gcra_cell, check_memory-gcra, refund-cell}
use summerrs_admin.RateLimit.Context.{Reservation, commit, release}

module _ (M : Platform) (law : Retains M) where
  -- Committing refunds the units that were not used.
  commit-refund :
      (r : Reservation) (actual : ℕ) (e : RateLimitEngine M)
      → (commit M r actual e
          ≡ refund M r.key r.config (r.reserved_cost - min actual r.reserved_cost) e)
  unfolding commit refund
  commit-refund r actual e = ground arith

  -- The cell of an admitted check.
  admitted-cell :
      (key : Bytes) (c : RateLimitConfig) (cost now : ℕ) (e e' : RateLimitEngine M)
      (d : RateLimitDecision)
      → IsTyped c
      → uses_gcra c.algorithm ≡ true
      → cost < u32_mod
      → now ≤ far_future
      → check_memory M key c cost now e ≡ some (d, e')
      → is_admitted d ≡ true
      → let at =
          max (pos_part (gcra_cell M key c now e)) now + max cost 1 * emission_interval_millis c in
        (at ≤ now + product_max)
        × (M.get ℤ (cache_key_for M.md5 c key) e'.gcra_states ≡ some (pos at))
  admitted-cell key c cost now e e' d typed h u32 near run ok =
      let (e1, run1, held) = check_memory-gcra M law key c cost now e h in
      let (cap_eq, cap_le) = gcra_capacity-eq c typed in
      let same : some (d, e') ≡ some ((gcra_step c cost now (gcra_cell M key c now e)).0, e1) =
        sym run ∙ run1 in
      let same_d : d ≡ (gcra_step c cost now (gcra_cell M key c now e)).0 = cc in
      let same_e : e1 ≡ e' = cc in
      elim (gcra_step_cases c typed cost now (gcra_cell M key c now e) u32 near) [
        | inl (fits, _, moved) ↦ (
          omega arith,
          ap (λ x. M.get ℤ (cache_key_for M.md5 c key) x.gcra_states) (sym same_e)
              ∙ held
              ∙ ap some moved,
        )
        | inr (_, denied, _) ↦ absurd (false≢true (sym denied ∙ sym (ap is_admitted same_d) ∙ ok))
      ]

-- A reservation charges exactly what was used. After a check in memory with a GCRA algorithm has
-- admitted k = max(cost, 1) units at the time now, committing `actual` units leaves the key's cell
-- at the later of its old value and now, plus the time of min(actual, k) units; releasing leaves
-- it at the later of the two. This holds for u32 costs and readings of the clock up to 2^62 ms, while
-- the cache keeps the cell.
pub reserve-commit-release :
    (M : Platform)
    → Retains M
    → (key : Bytes) (c : RateLimitConfig) (cost now : ℕ) (e e' : RateLimitEngine M)
      (d : RateLimitDecision)
    → IsTyped c
    → uses_gcra c.algorithm ≡ true
    → c.backend ≡ memory
    → cost < u32_mod
    → now ≤ far_future
    → check_memory M key c cost now e ≡ some (d, e')
    → is_admitted d ≡ true
    → (actual : ℕ)
    → let r : Reservation = record { key = key; config = c; reserved_cost = max cost 1 } in
      let k = cache_key_for M.md5 c key in
      let before = max (pos_part (gcra_cell M key c now e)) now in
      (M.get ℤ k (commit M r actual e').gcra_states
        ≡ some (pos (before + min actual (max cost 1) * emission_interval_millis c)))
      × (M.get ℤ k (release M r e').gcra_states ≡ some (pos before))
unfolding release
reserve-commit-release M law key c cost now e e' d typed h b u32 near run ok actual =
    let em = emission_interval_millis c in
    let n = max cost 1 in
    let before = max (pos_part (gcra_cell M key c now e)) now in
    let (low, held) = admitted-cell M law key c cost now e e' d typed h u32 near run ok in
    let back : (i : ℕ)
        → i ≤ n
        → M.get ℤ (cache_key_for M.md5 c key) (refund M key c i e').gcra_states
          ≡ some (pos (before + n * em - i * em)) =
      λ i le. refund-cell M law key c i (before + n * em) e' h b (grind arith) (omega arith) held in
    let used : n * em ≡ (n - min actual n) * em + min actual n * em = grind arith in
    (
      ap (λ x. M.get ℤ (cache_key_for M.md5 c key) x.gcra_states)
            (commit-refund M law (record { key = key; config = c; reserved_cost = n }) actual e')
          ∙ back (n - min actual n) (omega arith)
          ∙ ap (λ x. some (pos x)) (omega arith),
      back n (omega arith) ∙ ap (λ x. some (pos x)) (omega arith),
    )
