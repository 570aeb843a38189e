-- ===== src/RateLimit/Engine/Cells.antt =====
-- What the engine does to the cells of its caches: a refund after a reservation, and a reset.
-- The caches keep what is written, and forget what is invalidated (`Retains`).
use summerrs_admin.Base.{
  ℕ, ◌-◌, ◌*◌, ◌≤◌, ◌≡◌, refl, true, some, arith, if◌then◌else◌, ap, ◌∙◌, ◌==◌, not, ◌||◌,
}
use summerrs_admin.Base.Text.{Bytes}
use summerrs_admin.Base.Word.{
  ℤ, pos, i64_max, saturating_mul, wrapping_sub, wrapping_sub_exact, saturating_mul_exact, sub_ℕ,
}
use summerrs_admin.RateLimit.Config.{memory, RateLimitConfig, uses_gcra, emission_interval_millis}
use summerrs_admin.RateLimit.Keys.{cache_key_for}
use summerrs_admin.RateLimit.Algorithms.Gcra.{gcra_step}
use summerrs_admin.RateLimit.Platform.{Platform, Retains}
use summerrs_admin.RateLimit.Engine.{
  RateLimitEngine, get_or, dispatch, to_gcra, check_memory, give_back, refund_on, refund,
  count_refund,
}

-- The cell that a check of a GCRA configuration finds.
abbrev pub gcra_cell : (M : Platform) → Bytes → RateLimitConfig → (now : ℕ) → RateLimitEngine M → ℤ
gcra_cell M key c now e = get_or (M.get ℤ (cache_key_for M.md5 c key) e.gcra_states) (pos now)

sub_ℕ-le : (a b : ℕ) → b ≤ a → sub_ℕ a b ≡ pos (a - b)
sub_ℕ-le a b h = ground arith

module _ (M : Platform) (law : Retains M) where
  -- A GCRA check through the cache is one step on its cell.
  pub check_memory-gcra :
      (key : Bytes) (c : RateLimitConfig) (cost now : ℕ) (e : RateLimitEngine M)
      → uses_gcra c.algorithm ≡ true
      → let (d, tat') = gcra_step c cost now (gcra_cell M key c now e) in
        (e' : RateLimitEngine M) × (check_memory M key c cost now e ≡ some (d, e'))
        × (M.get ℤ (cache_key_for M.md5 c key) e'.gcra_states ≡ some tat')
  unfolding check_memory gcra_step
  check_memory-gcra key c cost now e h = (
    record e {
      gcra_states =
          M.write ℤ (cache_key_for M.md5 c key) (gcra_step c cost now (gcra_cell M key c now e)).1
            e.gcra_states;
    },
    rw (to_gcra_of h) refl,
    law.get_write_self ℤ _ _ _,
  )
    where
      to_gcra_of : uses_gcra c.algorithm ≡ true → dispatch c ≡ to_gcra
      to_gcra_of p = rw p refl

  -- A refund in memory is a write to the cell, and a count.
  refund-eq :
      (key : Bytes) (c : RateLimitConfig) (n : ℕ) (tat : ℤ) (e : RateLimitEngine M)
      → uses_gcra c.algorithm ≡ true
      → c.backend ≡ memory
      → M.get ℤ (cache_key_for M.md5 c key) e.gcra_states ≡ some tat
      → refund M key c (ℕ.suc n) e
        ≡ count_refund M (ℕ.suc n) (
            give_back M
              (some tat)
              (cache_key_for M.md5 c key)
              (saturating_mul (ℕ.suc n) (emission_interval_millis c))
              e)
  unfolding refund
  refund-eq key c n tat e h b held =
      let k = cache_key_for M.md5 c key in
      let ms = saturating_mul (ℕ.suc n) (emission_interval_millis c) in
      cost_based h
      ∙ ap (λ v. refund_on M v key c (ℕ.suc n) e) b
      ∙ ap (λ o. count_refund M (ℕ.suc n) (give_back M o k ms e)) held
    where
      cost_based :
          uses_gcra c.algorithm ≡ true
          → (if not (uses_gcra c.algorithm) || ℕ.suc n == 0
              then e
              else refund_on M c.backend key c (ℕ.suc n) e)
            ≡ refund_on M c.backend key c (ℕ.suc n) e
      cost_based p = rw p (ground arith)

  refund-none : (key : Bytes) (c : RateLimitConfig) (e : RateLimitEngine M) → refund M key c 0 e ≡ e
  unfolding refund
  refund-none key c e = ground arith

  -- A refund of n units moves a cell that holds at least their time back by it.
  pub refund-cell :
      (key : Bytes) (c : RateLimitConfig) (n a : ℕ) (e : RateLimitEngine M)
      → uses_gcra c.algorithm ≡ true
      → c.backend ≡ memory
      → n * emission_interval_millis c ≤ a
      → a ≤ i64_max
      → M.get ℤ (cache_key_for M.md5 c key) e.gcra_states ≡ some (pos a)
      → M.get ℤ (cache_key_for M.md5 c key) (refund M key c n e).gcra_states
        ≡ some (pos (a - n * emission_interval_millis c))
  refund-cell key c ℕ.zero a e h b fits small held =
      rw refund-none (held ∙ ap (λ t. some (pos t)) (omega arith))
  refund-cell key c (ℕ.suc n) a e h b fits small held =
      let k = cache_key_for M.md5 c key in
      let ms = ℕ.suc n * emission_interval_millis c in
      ap (λ r. M.get ℤ k r.gcra_states) (refund-eq key c n (pos a) e h b held)
      ∙ law.get_write_self ℤ k _ e.gcra_states
      ∙ ap some (
          ap (wrapping_sub (pos a))
            (saturating_mul_exact (ℕ.suc n) (emission_interval_millis c) (omega arith))
          ∙ wrapping_sub_exact a ms small (omega arith)
          ∙ sub_ℕ-le a ms fits)
