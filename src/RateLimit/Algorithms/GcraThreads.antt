-- ===== src/RateLimit/Algorithms/GcraThreads.antt =====
-- The rate that `check_memory_gcra` enforces on all threads together.
use summerrs_admin.Base.{
  ℕ, zero, suc, ◌+◌, ◌-◌, ◌*◌, ◌≤◌, ◌<◌, ◌≡◌, refl, inl, inr, max, Option, none, some, [], ◌∷◌,
  arith, if◌then◌else◌,
}
use summerrs_admin.Base.Word.{ℤ, pos_part, u32_mod}
use summerrs_admin.RateLimit.Config.{
  RateLimitConfig, IsTyped, emission_interval_millis, effective_burst,
}
use summerrs_admin.RateLimit.Decision.{RateLimitDecision, is_admitted}
use summerrs_admin.RateLimit.Algorithms.{Attempt, check_gcra}
use summerrs_admin.RateLimit.Algorithms.Gcra.{far_future, gcra_step, gcra_step_cases}
use summerrs_admin.RateLimit.Algorithms.Threads.{
  Thread, ready, loaded, done, System, History, lookup, Reach, Sequence, start, then_do, outcome,
  Reach-explained,
}

-- The units that a thread was granted.
abbrev pub granted : ℕ → Option RateLimitDecision → ℕ
granted cost none = 0
granted cost (some d) = if is_admitted d then max cost 1 else 0

-- The decision that a thread has returned.
abbrev pub done_decision : {A : Type 0} → Thread A → Option RateLimitDecision
done_decision ready = none
done_decision (loaded _) = none
done_decision (done d) = some d

-- Threads 0 to n - 1: their costs and, by thread, decisions.
unfoldable pub granted_to : (ℕ → ℕ) → ℕ → (ℕ → Option RateLimitDecision) → ℕ
granted_to cost zero f = 0
granted_to cost (suc n) f = granted (cost n) (f n) + granted_to cost n f

-- The units granted in a history.
granted_in : (ℕ → ℕ) → History → ℕ
granted_in cost [] = 0
granted_in cost ((i, d) ∷ h) = granted (cost i) (some d) + granted_in cost h

granted_to_outside :
    (cost : ℕ → ℕ) (n i : ℕ) (d : RateLimitDecision) (h : History)
    → n ≤ i
    → granted_to cost n (λ j. lookup j ((i, d) ∷ h)) ≡ granted_to cost n (λ j. lookup j h)
unfolding granted_to lookup
granted_to_outside cost zero i d h p = refl
granted_to_outside cost (suc n) i d h p =
    ground (arith, granted_to_outside cost n i d h (omega arith))

granted_to-cons :
    (cost : ℕ → ℕ) (n i : ℕ) (d : RateLimitDecision) (h : History)
    → granted_to cost n (λ j. lookup j ((i, d) ∷ h))
      ≤ granted (cost i) (some d) + granted_to cost n (λ j. lookup j h)
unfolding granted_to lookup
granted_to-cons cost zero i d h = omega arith
granted_to-cons cost (suc n) i d h =
    ground (arith, granted_to_outside cost n i d h, granted_to-cons cost n i d h)

granted_to-nothing : (cost : ℕ → ℕ) (n : ℕ) → granted_to cost n (λ j. lookup j []) ≡ 0
unfolding granted_to lookup
granted_to-nothing cost zero = refl
granted_to-nothing cost (suc n) = omega (arith, granted_to-nothing cost n)

granted_to-le_in :
    (cost : ℕ → ℕ) (n : ℕ) (h : History) → granted_to cost n (λ j. lookup j h) ≤ granted_in cost h
unfolding granted_in
granted_to-le_in cost n [] = omega (arith, granted_to-nothing cost n)
granted_to-le_in cost n ((i, d) ∷ h) =
    omega (arith, granted_to-cons cost n i d h, granted_to-le_in cost n h)

granted_to_mono :
    (cost : ℕ → ℕ) (n : ℕ) (f g : ℕ → Option RateLimitDecision)
    → ((i : ℕ) → granted (cost i) (f i) ≤ granted (cost i) (g i))
    → granted_to cost n f ≤ granted_to cost n g
unfolding granted_to
granted_to_mono cost zero f g h = omega arith
granted_to_mono cost (suc n) f g h = omega (arith, h n, granted_to_mono cost n f g h)

-- Every thread has read the clock between t0 and t1, and asks for a u32 cost.
abbrev pub Timely : (cost now : ℕ → ℕ) → ℕ → ℕ → Type 0
Timely cost now t0 t1 = (i : ℕ) → (t0 ≤ now i) × (now i ≤ t1) × (cost i < u32_mod)

-- What thread `i` does with the value that it loaded.
abbrev pub gcra_rounds : RateLimitConfig → (cost now : ℕ → ℕ) → ℕ → ℤ → Attempt ℤ
gcra_rounds c cost now i tat = check_gcra c (cost i) (now i) tat

granted-done-le :
    (r : ℕ → ℤ → Attempt ℤ) (cost i : ℕ) (t : Thread ℤ)
    → granted cost (done_decision t) ≤ granted cost (outcome r i t)
granted-done-le r cost i ready = omega arith
granted-done-le r cost i (loaded a) = omega arith
granted-done-le r cost i (done d) = omega arith

module _ (c : RateLimitConfig) (typed : IsTyped c) (cost now : ℕ → ℕ) (t0 t1 : ℕ)
    (near : t1 ≤ far_future) (timely : Timely cost now t0 t1) where
  -- What one decision adds.
  granted-step :
      (i : ℕ) (a : ℤ) (d : RateLimitDecision) (a' : ℤ)
      → gcra_step c (cost i) (now i) a ≡ (d, a')
      → let e = emission_interval_millis c in
        (granted (cost i) (some d) * e + max (pos_part a) t0 ≤ max (pos_part a') t0)
        × (pos_part a' ≤ max (pos_part a) (t1 + effective_burst c * e))
  granted-step i a d a' e =
      let (lo, hi, u32) = timely i in
      elim (gcra_step_cases c typed (cost i) (now i) a u32 (omega arith)) [
        | inl h ↦ let (fits, ok, moved) = rw e at h in rw (ok, moved) (omega arith, omega arith)
        | inr h ↦
            let (full, denied, same) = rw e at h in rw (denied, same) (omega arith, omega arith)
      ]

  -- The units granted so far fit between the cell at the start and the cell, which stays within
  -- the capacity of the end.
  granted_in-bound :
      (tat0 : ℤ) (h : History) (tat : ℤ)
      → Sequence (gcra_rounds c cost now) tat0 h tat
      → (granted_in cost h * emission_interval_millis c + max (pos_part tat0) t0
          ≤ max (pos_part tat) t0)
        × (pos_part tat ≤ max (pos_part tat0) (t1 + effective_burst c * emission_interval_millis c))
  unfolding granted_in gcra_step
  granted_in-bound tat0 h tat start = (omega arith, omega arith)
  granted_in-bound tat0 h tat (then_do {h = k} {a = a} q i d a' new e) =
      let (fits, below) = granted_in-bound tat0 k a q in
      let (more, still) = granted-step i a d tat e in (omega arith, omega arith)

-- However many threads check one key, in whatever interleaving of their loads, decisions and
-- exchanges, and whatever the cell held before, the units granted to threads 0 to n - 1 take at
-- most the burst and what the elapsed time pays for: units * emission ≤ burst * emission + (t1 - t0),
-- where every thread has read the clock between t0 and t1 (in any order, at most 2^62 ms) and asks
-- for a u32 cost. No refund happens meanwhile.
pub gcra_threads-granted_bound :
    (c : RateLimitConfig)
    → IsTyped c
    → (cost now : ℕ → ℕ) (t0 t1 : ℕ) → t1 ≤ far_future
    → Timely cost now t0 t1
    → (tat0 : ℤ) (s : System ℤ) → Reach (gcra_rounds c cost now) tat0 s
    → (n : ℕ)
    → granted_to cost n (λ i. done_decision (s.thread i)) * emission_interval_millis c
      ≤ effective_burst c * emission_interval_millis c + (t1 - t0)
gcra_threads-granted_bound c typed cost now t0 t1 near timely tat0 s r n =
    let (h, (q, all)) = Reach-explained (gcra_rounds c cost now) tat0 s r in
    let (fits, below) = granted_in-bound c typed cost now t0 t1 near timely tat0 h s.cell q in
    let told : (i : ℕ)
        → granted (cost i) (done_decision (s.thread i)) ≤ granted (cost i) (lookup i h) =
      λ i. rw (all i) (granted-done-le (gcra_rounds c cost now) (cost i) i (s.thread i)) in
    let few = granted_to_mono cost n (λ i. done_decision (s.thread i)) (λ i. lookup i h) told in
    let e = emission_interval_millis c in
    let some_units = granted_to-le_in cost n h in
    let units : granted_to cost n (λ i. done_decision (s.thread i)) ≤ granted_in cost h =
      omega arith in
    let product : granted_to cost n (λ i. done_decision (s.thread i)) * e ≤ granted_in cost h * e =
      grind arith in
    omega arith
