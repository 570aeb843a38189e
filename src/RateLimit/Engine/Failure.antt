-- ===== src/RateLimit/Engine/Failure.antt =====
-- What the Redis backend does while the server cannot be asked: the fallback to the memory.
use mathlib.Core.Option
use summerrs_admin.Base.{
  ℕ, ◌≡◌, refl, max, Bool, true, false, Option, none, some, List, [], ◌∷◌, All, map, if◌then◌else◌,
}
use summerrs_admin.Base.Text.{Bytes}
use summerrs_admin.RateLimit.Config.{
  RateLimitConfig, RateLimitBackend, memory, redis, RateLimitFailurePolicy, fallback_memory,
  effective_burst, uses_gcra, uses_scheduled_slot, emission_interval_millis, window_millis,
  window_limit, window_seconds,
}
use summerrs_admin.RateLimit.Decision.{RateLimitDecision}
use summerrs_admin.RateLimit.Keys.{cache_key_for, redis_key_for}
use summerrs_admin.RateLimit.Algorithms.{
  gcra_capacity, gcra_cost, check_gcra, check_scheduled_slot, check_fixed_window,
  check_sliding_window,
}
use summerrs_admin.RateLimit.Platform.{Platform, Moment, Script, Arg}
use summerrs_admin.RateLimit.Scripts.{redis_call}
use summerrs_admin.RateLimit.Engine.{
  RateLimitEngine, Outcome, Dispatch, to_gcra, to_slot, to_fixed, to_sliding, unreachable, dispatch,
  run_dispatch, check_memory, apply_policy, handle_backend_failure, read_reply, check_redis,
  count_fallback, count_failure, on_backend, note_decision, check_with_cost,
}
use summerrs_admin.RateLimit.Engine.Accounting.{check_with_cost-Counts}

-- The server answers no script.
abbrev pub IsDown : Moment → Type 0
IsDown t = (script : Script) (key : Bytes) (args : List Arg) → t.reply script key args ≡ none

-- The arguments of one call of `check_with_cost`.
pub record Request : Type 0 where
  pub key : Bytes
  pub config : RateLimitConfig
  pub cost : ℕ
  pub moment : Moment

-- The same call with the memory for its backend.
abbrev pub in_memory : Request → Request
in_memory q = record q { config = record (q.config) { backend = memory } }

module _ (M : Platform) where
  abbrev decide_rest :
      Outcome M
      → (RateLimitEngine M → Option (List RateLimitDecision))
      → Option (List RateLimitDecision)
  decide_rest none rest = none
  decide_rest (some (d, e)) rest = Option.map (λ ds. d ∷ ds) (rest e)

  -- The decisions on requests that come one behind the other.
  unfoldable pub decisions : List Request → RateLimitEngine M → Option (List RateLimitDecision)
  decisions [] e = some []
  decisions (q ∷ qs) e =
      decide_rest (check_with_cost M q.key q.config q.cost q.moment e) (λ e'. decisions qs e')

  -- Two engines that differ in their counters, lists and connection alone.
  abbrev SameCells : RateLimitEngine M → RateLimitEngine M → Type 0
  SameCells e f =
      (e.gcra_states ≡ f.gcra_states)
      × (e.fixed_window_states ≡ f.fixed_window_states)
      × (e.sliding_window_states ≡ f.sliding_window_states)
      × (e.scheduled_states ≡ f.scheduled_states)

  abbrev Alike : Outcome M → Outcome M → Type 0
  Alike none none = Unit
  Alike none (some _) = ⊥
  Alike (some _) none = ⊥
  Alike (some (d, e)) (some (d', f)) = (d ≡ d') × SameCells e f

  run_dispatch-Alike :
      (key : Bytes) (c : RateLimitConfig) (cost now : ℕ) (to : Dispatch) (e f : RateLimitEngine M)
      → SameCells e f
      → Alike (run_dispatch M key c cost now to e) (run_dispatch M key c cost now to f)
  unfolding run_dispatch
  run_dispatch-Alike key c cost now to_gcra e f s = rw (s.0) (refl, (refl, s.1, s.2, s.3))
  run_dispatch-Alike key c cost now (to_slot w) e f s = rw (s.3) (refl, (s.0, s.1, s.2, refl))
  run_dispatch-Alike key c cost now to_fixed e f s = rw (s.1) (refl, (s.0, refl, s.2, s.3))
  run_dispatch-Alike key c cost now to_sliding e f s = rw (s.2) (refl, (s.0, s.1, refl, s.3))
  run_dispatch-Alike key c cost now unreachable e f s = tt

  -- The memory check does not read the backend of the configuration.
  check_memory-backend :
      (key : Bytes) (c : RateLimitConfig) (cost now : ℕ) (e : RateLimitEngine M)
      → check_memory M key (record c { backend = memory }) cost now e
        ≡ check_memory M key c cost now e
  unfolding check_memory run_dispatch dispatch cache_key_for uses_gcra uses_scheduled_slot
      effective_burst emission_interval_millis window_millis window_limit window_seconds check_gcra
      check_scheduled_slot check_fixed_window check_sliding_window gcra_capacity gcra_cost
  check_memory-backend key c cost now e = refl

  check_memory-Alike :
      (key : Bytes) (c : RateLimitConfig) (cost now : ℕ) (e f : RateLimitEngine M)
      → SameCells e f
      → Alike
          (check_memory M key c cost now e)
          (check_memory M key (record c { backend = memory }) cost now f)
  unfolding check_memory
  check_memory-Alike key c cost now e f s =
      rw (check_memory-backend key c cost now f)
        (run_dispatch-Alike key c cost now (dispatch c) e f s)

  failure-Alike :
      (p : RateLimitFailurePolicy) (key : Bytes) (c : RateLimitConfig) (cost now : ℕ)
      (e f : RateLimitEngine M)
      → p ≡ fallback_memory
      → SameCells e f
      → Alike
          (apply_policy M p key c cost now e)
          (check_memory M key (record c { backend = memory }) cost now f)
  unfolding apply_policy
  failure-Alike p key c cost now e f policy s =
      rw policy (check_memory-Alike key c cost now (count_fallback M e) f s)

  check_redis-Alike :
      (key : Bytes) (c : RateLimitConfig) (cost : ℕ) (t : Moment) (e f : RateLimitEngine M)
      → c.failure_policy ≡ fallback_memory
      → IsDown t
      → SameCells e f
      → Alike
          (check_redis M key c cost t e)
          (check_memory M key (record c { backend = memory }) cost t.now f)
  unfolding check_redis handle_backend_failure read_reply
  check_redis-Alike key c cost t e f policy down s = by_connection e.redis
    where
      by_connection :
          (b : Bool)
          → Alike
              (let (script, args, read) = redis_call c cost t c.algorithm in
                if b
                then read_reply M
                    (t.reply script (redis_key_for M.md5 key c) args)
                    read
                    key
                    c
                    cost
                    t.now
                    e
                else handle_backend_failure M key c cost t.now e)
              (check_memory M key (record c { backend = memory }) cost t.now f)
      by_connection true =
          rw (down _ _ _)
            (failure-Alike c.failure_policy key c cost t.now (count_failure M e) f policy s)
      by_connection false = failure-Alike c.failure_policy key c cost t.now e f policy s

  on_backend-Alike :
      (b : RateLimitBackend) (key : Bytes) (c : RateLimitConfig) (cost : ℕ) (t : Moment)
      (e f : RateLimitEngine M)
      → c.failure_policy ≡ fallback_memory
      → IsDown t
      → SameCells e f
      → Alike
          (on_backend M b key c cost t e)
          (on_backend M memory key (record c { backend = memory }) cost t f)
  on_backend-Alike memory key c cost t e f policy down s = check_memory-Alike key c cost t.now e f s
  on_backend-Alike redis key c cost t e f policy down s =
      check_redis-Alike key c cost t e f policy down s

  note-Alike :
      (o p : Outcome M)
      → Alike o p
      → Alike (Option.map (note_decision M) o) (Option.map (note_decision M) p)
  note-Alike none none a = tt
  note-Alike none (some y) a = absurd a
  note-Alike (some x) none a = absurd a
  note-Alike (some (d, e)) (some (d', f)) a = a

  check_with_cost-Alike :
      (q : Request) (e f : RateLimitEngine M)
      → q.config.failure_policy ≡ fallback_memory
      → IsDown q.moment
      → SameCells e f
      → Alike
          (check_with_cost M q.key q.config q.cost q.moment e)
          (check_with_cost M q.key (in_memory q).config q.cost q.moment f)
  unfolding check_with_cost
  check_with_cost-Alike q e f policy down s =
      note-Alike _ _
        (on_backend-Alike q.config.backend q.key q.config (max q.cost 1) q.moment e f policy down s)

  abbrev SameDecisions : Option (List RateLimitDecision) → Option (List RateLimitDecision) → Type 0
  SameDecisions o p = (ds : List RateLimitDecision) × (o ≡ some ds) × (p ≡ some ds)

  decide_rest-same :
      (o p : Outcome M) (rest rest' : RateLimitEngine M → Option (List RateLimitDecision))
      → Alike o p
      → ((d : RateLimitDecision) × (e : RateLimitEngine M) × (o ≡ some (d, e)))
      → ((e f : RateLimitEngine M) → SameCells e f → SameDecisions (rest e) (rest' f))
      → SameDecisions (decide_rest o rest) (decide_rest p rest')
  decide_rest-same none p rest rest' a (d, e, h) ih = absurd (cc h)
  decide_rest-same (some x) none rest rest' a h ih = absurd a
  decide_rest-same (some (d, e)) (some (d', f)) rest rest' (same, cells) h ih =
      let (ds, first, second) = ih e f cells in (d ∷ ds, rw first, rw (second, same))

  decisions-same :
      (qs : List Request) (e f : RateLimitEngine M)
      → All (λ q. (q.config.failure_policy ≡ fallback_memory) × IsDown q.moment) qs
      → SameCells e f
      → SameDecisions (decisions qs e) (decisions (map in_memory qs) f)
  unfolding decisions
  decisions-same [] e f h s = ([], refl, refl)
  decisions-same (q ∷ qs) e f ((policy, down), more) s =
      let (d, e', run, counted) = check_with_cost-Counts M q.key q.config q.cost q.moment e in
      decide_rest-same _ _ _ _ (check_with_cost-Alike q e f policy down s) (d, e', run)
        (λ e1 f1 s1. decisions-same qs e1 f1 more s1)

-- While the server answers no script, any sequence of requests whose failure policy is the
-- fallback to the memory gets decisions, and they are the very ones that the same sequence gets
-- from the same engine with the memory for the backend.
pub decisions-fallback :
    (M : Platform) (qs : List Request) (e : RateLimitEngine M)
    → All (λ q. (q.config.failure_policy ≡ fallback_memory) × IsDown q.moment) qs
    → (ds : List RateLimitDecision) × (decisions M qs e ≡ some ds)
      × (decisions M (map in_memory qs) e ≡ some ds)
decisions-fallback M qs e h = decisions-same M qs e e h (refl, refl, refl, refl)
