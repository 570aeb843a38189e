-- ===== src/RateLimit/Algorithms/Gcra.antt =====
-- The GCRA check of `check_memory_gcra`: what one round does, and what it promises over a run.
use summerrs_admin.Base.{
  ℕ, ◌+◌, ◌-◌, ◌*◌, ◌/◌, ◌%◌, ◌≤◌, ◌<◌, ◌≡◌, refl, ◌⊎◌, min, max, true, false, none, arith, ltb,
  if◌then◌else◌,
}
use summerrs_admin.Base.Word.{ℤ, pos, pos_part, i64_max, u32_mod, saturating_add, saturating_mul}
use summerrs_admin.RateLimit.Config.{
  RateLimitConfig, IsTyped, emission_interval_millis, effective_burst,
}
use summerrs_admin.RateLimit.Config.Bounds.{emission_interval_lem, effective_burst_bounds}
use summerrs_admin.RateLimit.Decision.{
  rejected_metadata, RateLimitDecision, allowed, rejected, is_admitted,
}
use summerrs_admin.RateLimit.Algorithms.{
  give_up, exchange, settle, gcra_capacity, gcra_cost, gcra_round, check_gcra,
}

-- Clock readings up to 2^62 ms, some 146 million years.
abbrev pub far_future : ℕ
far_future = 4611686018427387904

-- The largest product of a u32 and an emission interval.
abbrev pub product_max : ℕ
product_max = 371085174374400000

product_bound : (a e : ℕ) → a < u32_mod → e ≤ 86400000 → a * e ≤ product_max
product_bound a e p q = grind arith

module _ (c : RateLimitConfig) (typed : IsTyped c) where
  pub gcra_capacity-eq :
      (gcra_capacity c ≡ effective_burst c * emission_interval_millis c)
      × (gcra_capacity c ≤ product_max)
  unfolding gcra_capacity saturating_mul
  gcra_capacity-eq =
      let b = effective_burst_bounds c typed in
      let e = emission_interval_lem c typed in
      let p = product_bound (effective_burst c) (emission_interval_millis c) b.1 e.1 in
      (omega arith, omega arith)

  pub gcra_cost-eq :
      (cost : ℕ)
      → cost < u32_mod
      → (gcra_cost c cost ≡ max cost 1 * emission_interval_millis c)
        × (gcra_cost c cost ≤ product_max)
  unfolding gcra_cost saturating_mul
  gcra_cost-eq cost h =
      let e = emission_interval_lem c typed in
      let p = product_bound (max cost 1) (emission_interval_millis c) (omega arith) e.1 in
      (omega arith, omega arith)

-- One round, with no saturation: the cell moves by the cost from where it arrives, and stays
-- within the capacity.
module _ (em cap ce limit now : ℕ) (tat : ℤ) where
  abbrev arrival : ℕ
  arrival = max (pos_part tat) now

  pub gcra_round_admits :
      now ≤ far_future
      → cap ≤ product_max
      → ce ≤ product_max
      → arrival - now + ce ≤ cap
      → (gcra_round em cap ce limit now tat
          ≡ exchange (pos (arrival + ce)) (
              allowed (record {
                limit = limit;
                remaining = if ltb 0 em then ((cap - (arrival - now) - ce) / em) % u32_mod else 0;
                reset_after = arrival + ce - now;
                retry_after = none;
              })))
  unfolding gcra_round saturating_add
  gcra_round_admits hn hc he h = ground arith

  pub gcra_round_rejects :
      pos_part tat ≤ i64_max
      → now ≤ far_future
      → cap ≤ product_max
      → ce ≤ product_max
      → cap < arrival - now + ce
      → (retry : ℕ) × (gcra_round em cap ce limit now tat
          ≡ give_up (rejected (rejected_metadata limit retry)))
        × (retry ≡ min (arrival - now + ce) i64_max - cap)
  unfolding gcra_round saturating_add
  gcra_round_rejects ht hn hc he h = (min (arrival - now + ce) i64_max - cap, ground arith, refl)

-- One check by a thread that nobody interferes with: decision and cell afterwards.
unfoldable pub gcra_step : RateLimitConfig → (cost now : ℕ) → ℤ → RateLimitDecision × ℤ
unfolding check_gcra gcra_round
gcra_step c cost now tat = settle (check_gcra c cost now tat) tat

module _ (c : RateLimitConfig) (typed : IsTyped c) where
  -- A check admits exactly when the time by which the cell is ahead of the clock, together with
  -- the cost, is within the capacity; it then moves the cell by the cost from the later of the cell
  -- and the clock. Otherwise it leaves the cell.
  pub gcra_step_cases :
      (cost now : ℕ) (tat : ℤ)
      → cost < u32_mod
      → now ≤ far_future
      → let e = emission_interval_millis c in
        let ahead = max (pos_part tat) now - now in
        let (d, tat') = gcra_step c cost now tat in
        ((ahead + max cost 1 * e ≤ effective_burst c * e)
          × (is_admitted d ≡ true)
          × (tat' ≡ pos (max (pos_part tat) now + max cost 1 * e)))
        ⊎ ((effective_burst c * e < ahead + max cost 1 * e)
            × (is_admitted d ≡ false)
            × (tat' ≡ tat))
  unfolding gcra_step saturating_add
  gcra_step_cases cost now tat hc hn =
      let (cap_eq, cap_le) = gcra_capacity-eq c typed in
      let (ce_eq, ce_le) = gcra_cost-eq c typed cost hc in ground arith
