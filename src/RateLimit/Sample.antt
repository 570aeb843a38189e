-- ===== src/RateLimit/Sample.antt =====
-- Parameters at which the rate limiter's theorems are applied: an association list for a cache,
-- a constant digest, and addresses and networks that are numbers.
use summerrs_admin.Base.{
  ℕ, ◌≡◌, refl, ◌≢◌, false, Option, none, some, List, [], ◌∷◌, arith, ◌==◌, if◌then◌else◌, eq_bytes,
  eq_bytes_refl, eq_of_eq_bytes, Bool-cases, inl, inr,
}
use summerrs_admin.Base.Text.{Bytes}
use summerrs_admin.RateLimit.Config.{
  RateLimitConfig, IsTyped, minute, memory, gcra, fail_closed, enforce,
}
use summerrs_admin.RateLimit.Decision.{RateLimitStats}
use summerrs_admin.RateLimit.Platform.{Platform, Retains, Moment}
use summerrs_admin.RateLimit.Engine.{RateLimitEngine}

module _ (V : Type 0) where
  abbrev find : Bytes → List (Bytes × V) → Option V
  find k [] = none
  find k ((j, v) ∷ m) = if eq_bytes j k then some v else find k m

  abbrev forget : Bytes → List (Bytes × V) → List (Bytes × V)
  forget k [] = []
  forget k ((j, v) ∷ m) = if eq_bytes j k then forget k m else (j, v) ∷ forget k m

  find-write : (k : Bytes) (v : V) (m : List (Bytes × V)) → find k ((k, v) ∷ m) ≡ some v
  find-write k v m = rw (eq_bytes_refl k)

  find-write_ne :
      (k j : Bytes) (v : V) (m : List (Bytes × V)) → k ≢ j → find j ((k, v) ∷ m) ≡ find j m
  find-write_ne k j v m ne = elim (Bool-cases (eq_bytes k j)) [
    | inl same ↦ absurd (ne (eq_of_eq_bytes k j same))
    | inr other ↦ rw other
  ]

  find-forget : (k : Bytes) (m : List (Bytes × V)) → find k (forget k m) ≡ none
  find-forget k [] = refl
  find-forget k ((j, v) ∷ m) = elim (Bool-cases (eq_bytes j k)) [
    | inl same ↦ rw same (find-forget k m)
    | inr other ↦ rw (other, other) (find-forget k m)
  ]

  find-forget_ne : (k j : Bytes) (m : List (Bytes × V)) → k ≢ j → find j (forget k m) ≡ find j m
  find-forget_ne k j [] ne = refl
  find-forget_ne k j ((i, v) ∷ m) ne =
      ground (arith, find-forget_ne k j m ne, eq_of_eq_bytes i k, eq_of_eq_bytes i j)

abbrev pub sample : Platform
sample = record {
  Cache = λ V. List (Bytes × V);
  get = find;
  write = λ V k v m. (k, v) ∷ m;
  invalidate = forget;
  md5 = λ _. 0 ∷ 1 ∷ 2 ∷ 3 ∷ 4 ∷ 5 ∷ 6 ∷ 7 ∷ 8 ∷ 9 ∷ 10 ∷ 11 ∷ 12 ∷ 13 ∷ 14 ∷ 15 ∷ [];
  IpAddr = ℕ;
  IpNetwork = ℕ;
  in_network = λ net ip. net == ip;
}

pub sample-Retains : Retains sample
sample-Retains = record {
  get_write_self = find-write;
  get_write_ne = find-write_ne;
  get_invalidate_self = find-forget;
  get_invalidate_ne = find-forget_ne;
}

abbrev pub no_counts : RateLimitStats
no_counts = record {
  allowed = 0;
  delayed = 0;
  rejected = 0;
  backend_failures = 0;
  fallback_to_memory = 0;
  fail_open_passes = 0;
  fail_closed_blocks = 0;
  allowlist_passes = 0;
  blocklist_blocks = 0;
  shadow_passes = 0;
  cost_consumed = 0;
  cost_refunded = 0;
}

-- Two requests in a minute, with a burst of two: one every 30000 ms.
abbrev pub two_a_minute : RateLimitConfig
two_a_minute = record {
  rate = 2;
  per = minute;
  burst = 2;
  backend = memory;
  algorithm = gcra;
  failure_policy = fail_closed;
  max_wait_ms = 40000;
  mode = enforce;
}

pub two_a_minute-IsTyped : IsTyped two_a_minute
two_a_minute-IsTyped = omega arith

-- An engine with no cells, no Redis, and a network on each list.
abbrev pub empty_engine : RateLimitEngine sample
empty_engine = record {
  gcra_states = [];
  fixed_window_states = [];
  sliding_window_states = [];
  scheduled_states = [];
  redis = false;
  stats = no_counts;
  allowlist = 7 ∷ [];
  blocklist = 9 ∷ [];
}

abbrev pub at_time : ℕ → Moment
at_time now = record { now = now; uuid = []; reply = λ script key args. none }
