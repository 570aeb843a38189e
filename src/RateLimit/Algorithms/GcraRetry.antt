-- ===== src/RateLimit/Algorithms/GcraRetry.antt =====
-- What the GCRA check promises to the client that waits for the time it was told.
use summerrs_admin.Base.{
  ℕ, ◌+◌, ◌-◌, ◌*◌, ◌≤◌, ◌<◌, ◌≡◌, inl, inr, max, true, false, arith, leb, leb→le, leb-false→lt,
  Bool-cases, sym, ◌∙◌,
}
use summerrs_admin.Base.Word.{ℤ, pos_part, u32_mod, saturating_add}
use summerrs_admin.RateLimit.Config.{
  RateLimitConfig, IsTyped, emission_interval_millis, effective_burst,
}
use summerrs_admin.RateLimit.Config.Bounds.{effective_burst_bounds}
use summerrs_admin.RateLimit.Decision.{rejected_metadata, rejected, is_admitted}
use summerrs_admin.RateLimit.Algorithms.Gcra.{
  far_future, gcra_step, gcra_step_cases, gcra_capacity-eq, gcra_cost-eq,
}

module _ (c : RateLimitConfig) (typed : IsTyped c) where
  -- The metadata of a rejection, at cells that do not saturate.
  gcra_step-rejected :
      (cost now : ℕ) (tat : ℤ)
      → cost < u32_mod
      → pos_part tat ≤ far_future
      → now ≤ far_future
      → let e = emission_interval_millis c in
        effective_burst c * e < max (pos_part tat) now - now + max cost 1 * e
        → (gcra_step c cost now tat).0
          ≡ rejected (
              rejected_metadata
                (effective_burst c)
                (max (pos_part tat) now - now + max cost 1 * e - effective_burst c * e))
  unfolding gcra_step saturating_add
  gcra_step-rejected cost now tat hc ht hn full =
      let (cap_eq, cap_le) = gcra_capacity-eq c typed in
      let (ce_eq, ce_le) = gcra_cost-eq c typed cost hc in ground arith

  -- Admission depends on the clock only through the time by which the cell is ahead.
  gcra_step-eq_true :
      (cost now : ℕ) (tat : ℤ)
      → cost < u32_mod
      → now ≤ far_future
      → let e = emission_interval_millis c in
        max (pos_part tat) now - now + max cost 1 * e ≤ effective_burst c * e
        → is_admitted (gcra_step c cost now tat).0 ≡ true
  gcra_step-eq_true cost now tat hc hn fits = elim (gcra_step_cases c typed cost now tat hc hn) [
    | inl h ↦ h.1
    | inr h ↦ absurd (omega (arith, h.0))
  ]

  gcra_step-eq_false :
      (cost now : ℕ) (tat : ℤ)
      → cost < u32_mod
      → now ≤ far_future
      → let e = emission_interval_millis c in
        effective_burst c * e < max (pos_part tat) now - now + max cost 1 * e
        → is_admitted (gcra_step c cost now tat).0 ≡ false
  gcra_step-eq_false cost now tat hc hn full = elim (gcra_step_cases c typed cost now tat hc hn) [
    | inl h ↦ absurd (omega (arith, h.0))
    | inr h ↦ h.1
  ]

-- A rejected request whose cost is within the burst is told the exact wait, for readings of the
-- clock and cells up to 2^62 ms: the decision is a rejection with some `retry_after`, and the same
-- request on the same cell, w ms later, is admitted exactly when w is at least `retry_after`.
pub gcra-retry_exact :
    (c : RateLimitConfig)
    → IsTyped c
    → (cost now : ℕ) (tat : ℤ) (w : ℕ) → max cost 1 ≤ effective_burst c
    → pos_part tat ≤ far_future
    → now + w ≤ far_future
    → is_admitted (gcra_step c cost now tat).0 ≡ false
    → (wait : ℕ) × ((gcra_step c cost now tat).0
        ≡ rejected (rejected_metadata (effective_burst c) wait))
      × (is_admitted (gcra_step c cost (now + w) tat).0 ≡ leb wait w)
gcra-retry_exact c typed cost now tat w small ht hn denied =
    let e = emission_interval_millis c in
    let hc : cost < u32_mod = omega (arith, effective_burst_bounds c typed) in
    let small_e : max cost 1 * e ≤ effective_burst c * e = grind arith in
    let wait = max (pos_part tat) now - now + max cost 1 * e - effective_burst c * e in
    elim (gcra_step_cases c typed cost now tat hc (omega arith)) [
      | inl h ↦ cc (h.1)
      | inr (full, _, _) ↦ (
        wait,
        gcra_step-rejected c typed cost now tat hc ht (omega arith) full,
        elim (Bool-cases (leb wait w)) [
          | inl enough ↦
              gcra_step-eq_true c typed cost (now + w) tat hc hn
                (omega (arith, leb→le wait w enough))
              ∙ sym enough
          | inr early ↦
              gcra_step-eq_false c typed cost (now + w) tat hc hn
                (omega (arith, leb-false→lt wait w early))
              ∙ sym early
        ],
      )
    ]
