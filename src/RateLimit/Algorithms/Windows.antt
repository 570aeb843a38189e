-- ===== src/RateLimit/Algorithms/Windows.antt =====
-- What `check_memory_fixed_window` and `check_memory_sliding_window` promise over a run of
-- requests for one key.
use summerrs_admin.Base.{
  ℕ, ◌+◌, ◌-◌, ◌/◌, ◌≤◌, ◌<◌, ◌≡◌, refl, ◌⊎◌, inl, inr, max, true, false, List, [], ◌∷◌, ◌++◌,
  arith, leb, ltb, ◌==◌, ◌&&◌, if◌then◌else◌, length, length-append, Bool-cases, ap,
}
use summerrs_admin.RateLimit.Config.{RateLimitConfig, IsTyped, window_millis, window_limit}
use summerrs_admin.RateLimit.Decision.{is_admitted}
use summerrs_admin.RateLimit.Algorithms.{
  FixedWindowState, check_fixed_window, evict, check_sliding_window,
}

-- Readings of a clock that does not go back, the first at or after `t`.
abbrev pub Ascending : ℕ → List ℕ → Type 0
Ascending t [] = Unit
Ascending t (now ∷ es) = (t ≤ now) × Ascending now es

abbrev pub window_ms : RateLimitConfig → ℕ
window_ms c = max (window_millis c) 1

-- The number of requests that a run admits in the window `w`.
unfoldable pub fixed_admitted : RateLimitConfig → ℕ → List ℕ → FixedWindowState → ℕ
fixed_admitted c w [] s = 0
fixed_admitted c w (now ∷ es) s =
    let (d, s') = check_fixed_window c now s in
    (if is_admitted d && now / window_ms c == w then 1 else 0) + fixed_admitted c w es s'

-- What the window `w` may still admit when the state is `s`.
abbrev room : RateLimitConfig → ℕ → FixedWindowState → ℕ
room c w s =
    if ltb w s.window_id
    then 0
    else if s.window_id == w
    then window_limit c - s.count
    else window_limit c

-- One check uses up the room of its window, and of no other.
fixed_step :
    (c : RateLimitConfig) (w now : ℕ) (s : FixedWindowState)
    → s.count ≤ window_limit c
    → s.window_id ≤ now / window_ms c
    → let (d, s') = check_fixed_window c now s in
      (s'.count ≤ window_limit c)
      × (s'.window_id ≡ now / window_ms c)
      × ((if is_admitted d && now / window_ms c == w then 1 else 0) + room c w s' ≤ room c w s)
unfolding check_fixed_window window_limit
fixed_step c w now s h p = ground arith

fixed_admitted-le_room :
    (c : RateLimitConfig) (w : ℕ) (es : List ℕ) (t : ℕ) (s : FixedWindowState)
    → Ascending t es
    → s.count ≤ window_limit c
    → s.window_id ≤ t / window_ms c
    → fixed_admitted c w es s ≤ room c w s
unfolding fixed_admitted
fixed_admitted-le_room c w [] t s a h p = omega arith
fixed_admitted-le_room c w (now ∷ es) t s a h p =
    let q : t / window_ms c ≤ now / window_ms c = grind arith in
    let (k, same, used) = fixed_step c w now s h (omega arith) in
    omega (
      arith,
      fixed_admitted-le_room c w es now (check_fixed_window c now s).1 a.1 k (omega arith),
      used,
    )

-- However many requests arrive, on a clock that does not go back, each window admits at most
-- `rate` of them (one if the rate is 0). The cell may hold any count up to the limit, for the window
-- of the start or an earlier one.
pub fixed_window-admitted_bound :
    (c : RateLimitConfig) (w : ℕ) (es : List ℕ) (t : ℕ) (s : FixedWindowState)
    → Ascending t es
    → s.count ≤ window_limit c
    → s.window_id ≤ t / window_ms c
    → fixed_admitted c w es s ≤ max c.rate 1
unfolding window_limit
fixed_window-admitted_bound c w es t s a h p =
    let k : room c w s ≤ max c.rate 1 = ground arith in
    omega (arith, fixed_admitted-le_room c w es t s a h p)

-- The readings of the clock at which a run admits a request, in order.
unfoldable pub sliding_admitted : RateLimitConfig → List ℕ → List ℕ → List ℕ
sliding_admitted c [] entries = []
sliding_admitted c (now ∷ es) entries =
    let (d, entries') = check_sliding_window c now entries in
    let later = sliding_admitted c es entries' in if is_admitted d then now ∷ later else later

-- How many of the times lie in the window that ends at x: after x - w, up to x.
unfoldable pub count_in : (w x : ℕ) → List ℕ → ℕ
count_in w x [] = 0
count_in w x (ts ∷ l) = (if leb ts x && ltb x (ts + w) then 1 else 0) + count_in w x l

count_in-append : (w x : ℕ) (l m : List ℕ) → count_in w x (l ++ m) ≡ count_in w x l + count_in w x m
unfolding count_in
count_in-append w x [] m = omega arith
count_in-append w x (ts ∷ l) m = omega (arith, count_in-append w x l m)

count_in-le : (w x : ℕ) (l : List ℕ) → count_in w x l ≤ length l
unfolding count_in
count_in-le w x [] = omega arith
count_in-le w x (ts ∷ l) = ground (arith, count_in-le w x l)

-- What is evicted lies in no window that ends now or later.
count_in-evict :
    (w now x : ℕ) (l : List ℕ) → now ≤ x → count_in w x (evict w now l) ≡ count_in w x l
unfolding count_in evict
count_in-evict w now x [] h = refl
count_in-evict w now x (ts ∷ l) h = ground (arith, count_in-evict w now x l h)

length-evict : (w now : ℕ) (l : List ℕ) → length (evict w now l) ≤ length l
unfolding evict
length-evict w now [] = omega arith
length-evict w now (ts ∷ l) = ground (arith, length-evict w now l)

-- Nothing admitted from now on lies in a window that ended before.
sliding_admitted-later :
    (c : RateLimitConfig) (es : List ℕ) (entries : List ℕ) (t x : ℕ)
    → Ascending t es
    → x < t
    → count_in (window_ms c) x (sliding_admitted c es entries) ≡ 0
unfolding sliding_admitted count_in
sliding_admitted-later c [] entries t x a h = refl
sliding_admitted-later c (now ∷ es) entries t x a h = ground (
  arith,
  sliding_admitted-later c es (check_sliding_window c now entries).1 now x a.1 (omega arith),
)

-- One check: the log stays within the limit, and a request is admitted by adding it to what the
-- eviction leaves.
sliding_step :
    (c : RateLimitConfig)
    → IsTyped c
    → (now : ℕ) (entries : List ℕ) → length entries ≤ window_limit c
    → let kept = evict (window_ms c) now entries in
      let (d, entries') = check_sliding_window c now entries in
      (length entries' ≤ window_limit c)
      × (((is_admitted d ≡ true) × (entries' ≡ kept ++ now ∷ []))
          ⊎ ((is_admitted d ≡ false) × (entries' ≡ kept)))
unfolding check_sliding_window window_limit
sliding_step c typed now entries h =
    let kept = evict (window_ms c) now entries in
    let shorter = length-evict (window_ms c) now entries in
    ground (arith, length-append kept (now ∷ []), shorter, typed.rate_u32)

-- The log and what a run still admits, in one window: the run adds to what the log holds.
sliding_admitted-le :
    (c : RateLimitConfig)
    → IsTyped c
    → (x : ℕ) (es : List ℕ) (t : ℕ) (entries : List ℕ) → Ascending t es
    → length entries ≤ window_limit c
    → count_in (window_ms c) x (entries ++ sliding_admitted c es entries) ≤ window_limit c
unfolding sliding_admitted count_in
sliding_admitted-le c typed x [] t entries a h =
    omega (arith, count_in-append (window_ms c) x entries [], count_in-le (window_ms c) x entries)
sliding_admitted-le c typed x (now ∷ es) t entries a h =
    let w = window_ms c in
    let (d, entries') = check_sliding_window c now entries in
    let kept = evict w now entries in
    let later = sliding_admitted c es entries' in
    let (short, cases) = sliding_step c typed now entries h in
    let ih = sliding_admitted-le c typed x es now entries' a.1 short in
    let split = count_in-append w x entries' later in
    let here = count_in-append w x entries (if is_admitted d then now ∷ later else later) in
    let few = count_in-le w x entries in
    elim (Bool-cases (ltb x now)) [
      | inl before ↦ ground (arith, here, few, sliding_admitted-later c es entries' now x a.1)
      | inr after ↦ elim cases [
        | inl (ok, e) ↦ ground (
          arith,
          here,
          split,
          ap (count_in w x) e,
          count_in-append w x kept (now ∷ []),
          count_in-evict w now x entries,
        )
        | inr (refused, e) ↦
            ground (arith, here, split, ap (count_in w x) e, count_in-evict w now x entries)
      ]
    ]

-- However many requests arrive, on a clock that does not go back, no window of the configured
-- length, wherever it ends, holds more than `rate` admitted requests (one if the rate is 0). The
-- log may hold any times at the start, up to the limit, and these are counted too.
pub sliding_window-admitted_bound :
    (c : RateLimitConfig)
    → IsTyped c
    → (x : ℕ) (es : List ℕ) (t : ℕ) (entries : List ℕ) → Ascending t es
    → length entries ≤ max c.rate 1
    → count_in (max (window_millis c) 1) x (entries ++ sliding_admitted c es entries) ≤ max c.rate 1
unfolding window_limit
sliding_window-admitted_bound c typed x es t entries a h =
    sliding_admitted-le c typed x es t entries a h
