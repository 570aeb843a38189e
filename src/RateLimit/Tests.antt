-- ===== src/RateLimit/Tests.antt =====
-- Tests of the rate limiter, and its theorems applied at concrete inputs.
use summerrs_admin.Base.{
  ℕ, ◌+◌, ◌-◌, ◌*◌, ◌≤◌, ◌<◌, ◌≡◌, refl, min, max, Bool, true, false, Option, none, some, List, [],
  ◌∷◌, ◌++◌, map, arith, length, leb,
}
use summerrs_admin.Base.Text.{Bytes, codes, decimal}
use summerrs_admin.Base.Word.{ℤ, pos, negsuc, pos_part}
use summerrs_admin.RateLimit.Config.{
  emission_interval_millis, effective_burst, window_millis, window_seconds, window_limit, uses_gcra,
  RateLimitConfig, redis, fallback_memory, enforce, shadow,
}
use summerrs_admin.RateLimit.Config.Bounds.{emission_interval_lem}
use summerrs_admin.RateLimit.Decision.{
  RateLimitDecision, RateLimitMetadata, rejected, rejected_metadata, allowed, is_admitted,
}
use summerrs_admin.RateLimit.Keys.{
  as_key_segment, cache_key_for, sanitize_user_key, user_key_max_len, cache_key_for-injective,
  sanitize_user_key-bounded,
}
use summerrs_admin.RateLimit.Algorithms.{
  Attempt, FixedWindowState, gcra_capacity, gcra_cost, check_gcra, gcra_round, check_fixed_window,
  check_sliding_window,
}
use summerrs_admin.RateLimit.Algorithms.Gcra.{gcra_step}
use summerrs_admin.RateLimit.Algorithms.GcraRetry.{gcra-retry_exact}
use summerrs_admin.RateLimit.Algorithms.Windows.{
  fixed_admitted, sliding_admitted, count_in, fixed_window-admitted_bound,
  sliding_window-admitted_bound,
}
use summerrs_admin.RateLimit.Algorithms.Slots.{slot_step, served, Spaced, served-Spaced}
use summerrs_admin.RateLimit.Algorithms.Threads.{
  ready, loaded, done, System, update, History, Reach, here, next, load, swap, Explains,
  Reach-explained,
}
use summerrs_admin.RateLimit.Algorithms.GcraThreads.{
  gcra_rounds, granted_to, done_decision, gcra_threads-granted_bound,
}
use summerrs_admin.RateLimit.Engine.{RateLimitEngine, check_with_cost, check_memory, reset_key}
use summerrs_admin.RateLimit.Engine.Reset.{reset_key-admits}
use summerrs_admin.RateLimit.Engine.Failure.{Request, in_memory, decisions, decisions-fallback}
use summerrs_admin.RateLimit.Engine.Accounting.{Counts, check_with_cost-Counts}
use summerrs_admin.RateLimit.Engine.Cells.{gcra_cell}
use summerrs_admin.RateLimit.Context.{Reservation, commit, release, Shared, checked, ApiResult}
use summerrs_admin.RateLimit.Context.Reservations.{reserve-commit-release}
use summerrs_admin.RateLimit.Context.Softer.{Visit, raised, is_refusal}
use summerrs_admin.RateLimit.Context.Shadow.{serve, Softened, serve-shadow}
use summerrs_admin.RateLimit.Sample.{
  sample, sample-Retains, two_a_minute, two_a_minute-IsTyped, empty_engine, at_time,
}

gcra_step_test :
    (is_admitted (gcra_step two_a_minute 1 1000 (pos 1000)).0 ≡ true)
    × ((gcra_step two_a_minute 1 1000 (pos 31000)).1 ≡ pos 61000)
    × ((gcra_step two_a_minute 1 1000 (pos 61000)).0 ≡ rejected (rejected_metadata 2 30000))
    × (is_admitted (gcra_step two_a_minute 1 31000 (pos 61000)).0 ≡ true)
    × (is_admitted (gcra_step two_a_minute 3 1000 (negsuc 5)).0 ≡ false)
unfolding gcra_step emission_interval_millis effective_burst gcra_capacity gcra_cost
gcra_step_test = (refl, refl, refl, refl, refl)

emission_interval_lem_example :
    let e = emission_interval_millis two_a_minute in
    (1 ≤ e)
    × (e ≤ 86400000)
    × (window_millis two_a_minute ≤ 2 * e)
    × (2 * e < window_millis two_a_minute + 2)
emission_interval_lem_example = emission_interval_lem two_a_minute two_a_minute-IsTyped

gcra-retry_exact_example :
    (wait : ℕ) × ((gcra_step two_a_minute 1 1000 (pos 61000)).0
      ≡ rejected (rejected_metadata (effective_burst two_a_minute) wait))
    × (is_admitted (gcra_step two_a_minute 1 21000 (pos 61000)).0 ≡ leb wait 20000)
unfolding gcra_step emission_interval_millis effective_burst gcra_capacity gcra_cost
gcra-retry_exact_example =
    gcra-retry_exact two_a_minute two_a_minute-IsTyped 1 1000 (pos 61000) 20000 (omega arith)
      (omega arith) (omega arith) refl

-- Both threads ask for one unit at 1000 ms.
abbrev one_unit : ℕ → ℕ
one_unit i = 1

abbrev at_1000 : ℕ → ℕ
at_1000 i = 1000

abbrev two_rounds : ℕ → ℤ → Attempt ℤ
two_rounds = gcra_rounds two_a_minute one_unit at_1000

-- Thread 0 has loaded the cell.
abbrev loaded_once : System ℤ
loaded_once = record { cell = pos 1000; thread = update (λ i. ready) 0 (loaded (pos 1000)) }

loaded_once-Reach : Reach two_rounds (pos 1000) loaded_once
loaded_once-Reach = next here (load 0 refl refl)

abbrev served_decision : RateLimitDecision
served_decision =
    allowed (record { limit = 2; remaining = 1; reset_after = 30000; retry_after = none })

-- Thread 0 has exchanged the cell and returned.
abbrev served_once : System ℤ
served_once = record {
  cell = pos 31000;
  thread = update (update (λ i. ready) 0 (loaded (pos 1000))) 0 (done served_decision);
}

served_once-Reach : Reach two_rounds (pos 1000) served_once
unfolding gcra_step emission_interval_millis effective_burst gcra_capacity gcra_cost
served_once-Reach = next loaded_once-Reach (swap 0 (pos 31000) served_decision refl refl refl)

Reach-explained_example : (h : History) × Explains two_rounds (pos 1000) h served_once
Reach-explained_example = Reach-explained two_rounds (pos 1000) served_once served_once-Reach

gcra_threads-granted_bound_example :
    granted_to one_unit 5 (λ i. done_decision (served_once.thread i))
      * emission_interval_millis two_a_minute
    ≤ effective_burst two_a_minute * emission_interval_millis two_a_minute + (1500 - 900)
gcra_threads-granted_bound_example =
    gcra_threads-granted_bound two_a_minute two_a_minute-IsTyped one_unit at_1000 900 1500
      (omega arith) (λ i. (omega arith, omega arith, omega arith)) (pos 1000) served_once
      served_once-Reach 5

abbrev arrivals : List ℕ
arrivals = 1000 ∷ 1000 ∷ 2000 ∷ 61000 ∷ 61500 ∷ 121000 ∷ []

abbrev first_window : FixedWindowState
first_window = record { window_id = 0; count = 0 }

fixed_window_test : fixed_admitted two_a_minute 0 arrivals first_window ≡ 2
unfolding fixed_admitted check_fixed_window window_millis window_limit
fixed_window_test = refl

fixed_window-admitted_bound_example : fixed_admitted two_a_minute 1 arrivals first_window ≤ 2
fixed_window-admitted_bound_example =
    fixed_window-admitted_bound two_a_minute 1 arrivals 1000 first_window (omega arith)
      (omega arith) (omega arith)

sliding_window_test :
    sliding_admitted two_a_minute arrivals [] ≡ 1000 ∷ 1000 ∷ 61000 ∷ 61500 ∷ 121000 ∷ []
unfolding sliding_admitted check_sliding_window window_millis window_limit
sliding_window_test = refl

sliding_window-admitted_bound_example :
    count_in
      (max (window_millis two_a_minute) 1)
      61500
      ([] ++ sliding_admitted two_a_minute arrivals [])
    ≤ 2
sliding_window-admitted_bound_example =
    sliding_window-admitted_bound two_a_minute two_a_minute-IsTyped 61500 arrivals 1000 []
      (omega arith) (omega arith)

slots_test :
    served two_a_minute 40000 (1000 ∷ 1000 ∷ 1000 ∷ 50000 ∷ []) 0
    ≡ (1000, 1000) ∷ (1000, 31000) ∷ (50000, 61000) ∷ []
unfolding served slot_step emission_interval_millis
slots_test = refl

served-Spaced_example :
    Spaced
      (emission_interval_millis two_a_minute)
      40000
      0
      (served two_a_minute 40000 (1000 ∷ 1000 ∷ 1000 ∷ 50000 ∷ []) 0)
served-Spaced_example =
    served-Spaced two_a_minute two_a_minute-IsTyped 40000 (omega arith)
      (1000 ∷ 1000 ∷ 1000 ∷ 50000 ∷ []) 0 (omega arith)

abbrev global : Bytes
global = codes "global"

cache_key_test : cache_key_for sample.md5 two_a_minute global ≡ codes "gcra:2:60:2:40000:global"
unfolding cache_key_for sanitize_user_key as_key_segment decimal window_seconds effective_burst
cache_key_test = refl

cache_key_for-injective_example :
    (two_a_minute.algorithm ≡ two_a_minute.algorithm)
    × (two_a_minute.rate ≡ two_a_minute.rate)
    × (window_seconds two_a_minute ≡ window_seconds two_a_minute)
    × (effective_burst two_a_minute ≡ effective_burst two_a_minute)
    × (two_a_minute.max_wait_ms ≡ two_a_minute.max_wait_ms)
    × (sanitize_user_key sample.md5 global ≡ sanitize_user_key sample.md5 global)
cache_key_for-injective_example =
    cache_key_for-injective sample.md5 two_a_minute two_a_minute global global refl

sanitize_user_key-bounded_example : length (sanitize_user_key sample.md5 global) ≤ user_key_max_len
sanitize_user_key-bounded_example = sanitize_user_key-bounded sample.md5 (λ key. refl) global

check_with_cost-Counts_example :
    (d : RateLimitDecision) × (e' : RateLimitEngine sample) × (check_with_cost sample global
        two_a_minute 1
        (at_time 1000)
        empty_engine
      ≡ some (d, e'))
    × Counts sample d empty_engine.stats e'.stats
check_with_cost-Counts_example =
    check_with_cost-Counts sample global two_a_minute 1 (at_time 1000) empty_engine

-- One unit for `global` at 1000 ms, in an empty engine.
abbrev after_one : RateLimitEngine sample
after_one = record empty_engine {
  gcra_states = (cache_key_for sample.md5 two_a_minute global, pos 31000) ∷ [];
}

one_unit_run :
    check_memory sample global two_a_minute 1 1000 empty_engine ≡ some (served_decision, after_one)
unfolding check_memory gcra_step emission_interval_millis effective_burst gcra_capacity gcra_cost
one_unit_run = refl

abbrev one_reserved : Reservation
one_reserved = record { key = global; config = two_a_minute; reserved_cost = 1 }

reserve-commit-release_example :
    let k = cache_key_for sample.md5 two_a_minute global in
    let before = max (pos_part (gcra_cell sample global two_a_minute 1000 empty_engine)) 1000 in
    (sample.get ℤ k (commit sample one_reserved 0 after_one).gcra_states
      ≡ some (pos (before + min 0 1 * emission_interval_millis two_a_minute)))
    × (sample.get ℤ k (release sample one_reserved after_one).gcra_states ≡ some (pos before))
unfolding uses_gcra
reserve-commit-release_example =
    reserve-commit-release sample sample-Retains global two_a_minute 1 1000 empty_engine after_one
      served_decision two_a_minute-IsTyped refl refl (omega arith) (omega arith) one_unit_run refl 0

reset_key-admits_example :
    (d : RateLimitDecision) × (e' : RateLimitEngine sample) × (check_memory sample global
        two_a_minute 2 1000
        (reset_key sample global two_a_minute after_one).0
      ≡ some (d, e'))
    × (is_admitted d ≡ true)
unfolding effective_burst
reset_key-admits_example =
    reset_key-admits sample sample-Retains global two_a_minute 2 1000 after_one two_a_minute-IsTyped
      (omega arith) (λ _. omega arith)

-- A configured server that answers nothing, with the fallback to the memory.
abbrev on_redis : RateLimitConfig
on_redis = record two_a_minute { backend = redis; failure_policy = fallback_memory }

abbrev asked_at : ℕ → Request
asked_at now = record { key = global; config = on_redis; cost = 1; moment = at_time now }

abbrev three_asked : List Request
three_asked = asked_at 1000 ∷ asked_at 1500 ∷ asked_at 2000 ∷ []

abbrev connected : RateLimitEngine sample
connected = record empty_engine { redis = true }

decisions-fallback_example :
    (ds : List RateLimitDecision) × (decisions sample three_asked connected ≡ some ds)
    × (decisions sample (map in_memory three_asked) connected ≡ some ds)
decisions-fallback_example =
    decisions-fallback sample three_asked connected
      ((refl, λ x y z. refl), ((refl, λ x y z. refl), ((refl, λ x y z. refl), tt)))

abbrev shared : Shared sample
shared = record { engine = empty_engine; holder = none }

abbrev busy : Bytes
busy = codes "busy"

-- Network 7 is on the allowlist and network 9 on the blocklist.
abbrev visit_by : ℕ → Visit sample
visit_by ip = record {
  ip = ip;
  key = global;
  config = two_a_minute;
  cost = 1;
  message = busy;
  moment = at_time 1000;
}

abbrev visits : List (Visit sample)
visits = visit_by 9 ∷ visit_by 8 ∷ visit_by 8 ∷ visit_by 8 ∷ visit_by 7 ∷ []

serve-shadow_example :
    (enforced : List (ApiResult RateLimitMetadata)) × (shadowed : List
      (ApiResult RateLimitMetadata))
    × (s' : Shared sample) × (passes : ℕ) × (serve sample enforce visits shared
        ≡ some (enforced, s'))
    × (serve sample shadow visits shared ≡ some (shadowed, raised sample passes s'))
    × Softened sample (9 ∷ []) visits enforced shadowed 0 passes
serve-shadow_example = serve-shadow sample visits shared

abbrev refusals : Option (List (ApiResult RateLimitMetadata) × Shared sample) → List Bool
refusals none = []
refusals (some (answers, s)) = map is_refusal answers

refusals_enforced :
    refusals (serve sample enforce visits shared) ≡ true ∷ false ∷ false ∷ true ∷ false ∷ []
unfolding serve checked check_with_cost check_memory check_gcra gcra_round gcra_capacity
    effective_burst emission_interval_millis gcra_cost cache_key_for as_key_segment decimal
    window_seconds sanitize_user_key
refusals_enforced = refl

refusals_shadowed :
    refusals (serve sample shadow visits shared) ≡ true ∷ false ∷ false ∷ false ∷ false ∷ []
unfolding serve checked check_with_cost check_memory check_gcra gcra_round gcra_capacity
    effective_burst emission_interval_millis gcra_cost cache_key_for as_key_segment decimal
    window_seconds sanitize_user_key
refusals_shadowed = refl
