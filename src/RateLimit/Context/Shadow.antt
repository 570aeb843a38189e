-- ===== src/RateLimit/Context/Shadow.antt =====
-- The shadow mode of `RateLimitContext` against the enforce mode, over runs of requests.
use mathlib.Core.Option
use mathlib.Core.Path.{subst}
use summerrs_admin.Base.{ℕ, ◌≡◌, refl, true, false, Option, none, some, List, [], ◌∷◌}
use summerrs_admin.RateLimit.Config.{RateLimitMode, enforce, shadow}
use summerrs_admin.RateLimit.Decision.{RateLimitMetadata, fetch_add}
use summerrs_admin.RateLimit.Platform.{Platform}
use summerrs_admin.RateLimit.Engine.Unread.{in_mode}
use summerrs_admin.RateLimit.Context.{
  too_many_requests, ApiResult, ok, err, Shared, Answer, checked,
}
use summerrs_admin.RateLimit.Context.Softer.{
  is_refusal, Visit, raised, blocked_by, Softer, went_on, kept_out, let_through, Answers,
  checked-Answers,
}

module _ (M : Platform) where
  abbrev then_serve :
      Option (Answer M RateLimitMetadata)
      → (Shared M → Option (List (ApiResult RateLimitMetadata) × Shared M))
      → Option (List (ApiResult RateLimitMetadata) × Shared M)
  then_serve none rest = none
  then_serve (some (a, s)) rest = Option.map (λ r. (a ∷ r.0, r.1)) (rest s)

  -- The answers to visits that come one behind the other, each with its configuration in the mode.
  unfoldable pub serve :
      RateLimitMode
      → List (Visit M)
      → Shared M
      → Option (List (ApiResult RateLimitMetadata) × Shared M)
  serve mode [] s = some ([], s)
  serve mode (v ∷ vs) s =
      then_serve (checked M v.ip v.key (in_mode mode v.config) v.cost v.message v.moment s)
        (λ s'. serve mode vs s')

  -- The answers to the visits in the enforce mode, those in the shadow mode, and the counter of
  -- shadow passes before and behind them in the shadow mode, with the blocklist.
  pub data Softened (blocks : List M.IpNetwork)
      : List (Visit M)
        → (enforced shadowed : List (ApiResult RateLimitMetadata)) → (before behind : ℕ)
        → Type 0 where
    nothing : (p : ℕ) → Softened blocks [] [] [] p p
    unrefused :
        (v : Visit M) (a : ApiResult RateLimitMetadata) {vs : List (Visit M)}
        {xs ys : List (ApiResult RateLimitMetadata)} {p q : ℕ}
        → is_refusal a ≡ false
        → Softened blocks vs xs ys p q
        → Softened blocks (v ∷ vs) (a ∷ xs) (a ∷ ys) p q
    blocked :
        (v : Visit M) {vs : List (Visit M)} {xs ys : List (ApiResult RateLimitMetadata)} {p q : ℕ}
        → blocked_by M blocks v.ip ≡ true
        → Softened blocks vs xs ys p q
        → Softened blocks
            (v ∷ vs)
            (err (too_many_requests v.message) ∷ xs)
            (err (too_many_requests v.message) ∷ ys)
            p
            q
    passed :
        (v : Visit M) (meta : RateLimitMetadata) {vs : List (Visit M)}
        {xs ys : List (ApiResult RateLimitMetadata)} {p q : ℕ}
        → blocked_by M blocks v.ip ≡ false
        → Softened blocks vs xs ys (fetch_add p 1) q
        → Softened blocks (v ∷ vs) (err (too_many_requests v.message) ∷ xs) (ok meta ∷ ys) p q

  abbrev Served :
      List M.IpNetwork
      → List (Visit M)
      → ℕ
      → Option (List (ApiResult RateLimitMetadata) × Shared M)
      → Option (List (ApiResult RateLimitMetadata) × Shared M)
      → Type 0
  Served blocks vs p o o' =
      (xs : List (ApiResult RateLimitMetadata)) × (ys : List (ApiResult RateLimitMetadata))
      × (s' : Shared M) × (q : ℕ) × (o ≡ some (xs, s'))
      × (o' ≡ some (ys, raised M q s'))
      × Softened blocks vs xs ys p q

  then_serve-Served :
      (blocks : List M.IpNetwork) (v : Visit M) (vs : List (Visit M)) (p : ℕ)
      (o o' : Option (Answer M RateLimitMetadata))
      (rest rest' : Shared M → Option (List (ApiResult RateLimitMetadata) × Shared M))
      → Answers M blocks v p o o'
      → ((q : ℕ) (s : Shared M)
          → s.engine.blocklist ≡ blocks
          → Served blocks vs q (rest s) (rest' (raised M q s)))
      → Served blocks (v ∷ vs) p (then_serve o rest) (then_serve o' rest')
  then_serve-Served blocks v vs p o o' rest rest' (x, y, e, e', soft) ih =
      rw (e, e') (by_answer soft)
    where
      by_answer :
          {x y : Answer M RateLimitMetadata}
          → Softer M blocks v p x y
          → Served blocks (v ∷ vs) p (then_serve (some x) rest) (then_serve (some y) rest')
      by_answer (went_on a s fine kept) =
          let (xs, ys, s', q, first, second, more) = ih p s kept in
          (a ∷ xs, a ∷ ys, s', q, rw first, rw second, unrefused v a fine more)
      by_answer (kept_out s out kept) =
          let (xs, ys, s', q, first, second, more) = ih p s kept in
          (_ ∷ xs, _ ∷ ys, s', q, rw first, rw second, blocked v out more)
      by_answer (let_through meta s free kept) =
          let (xs, ys, s', q, first, second, more) = ih (fetch_add p 1) s kept in
          (_ ∷ xs, ok meta ∷ ys, s', q, rw first, rw second, passed v meta free more)

  serve-Served :
      (blocks : List M.IpNetwork) (vs : List (Visit M)) (p : ℕ) (s : Shared M)
      → s.engine.blocklist ≡ blocks
      → Served blocks vs p (serve enforce vs s) (serve shadow vs (raised M p s))
  unfolding serve
  serve-Served blocks [] p s kept = ([], [], s, p, refl, refl, nothing p)
  serve-Served blocks (v ∷ vs) p s kept =
      then_serve-Served blocks v vs p _ _ _ _
        (subst
          (λ b.
            Answers M b v p
              (checked M v.ip v.key (in_mode enforce v.config) v.cost v.message v.moment s)
              (checked M v.ip v.key (in_mode shadow v.config) v.cost v.message v.moment
                (raised M p s)))
          kept (checked-Answers M v p s))
        (λ q s' same. serve-Served blocks vs q s' same)

-- The shadow mode against the enforce mode, over any sequence of requests on one shared state: both
-- answer every request. An answer that is no 429 in the enforce mode is the same in the shadow
-- mode; a 429 is the same if the address is on the blocklist, and else the request passes in the
-- shadow mode. With each such pass the counter of shadow passes grows by one there (wrapping at
-- 2^64), and the states behind the run are the same otherwise: cells, other counters, metadata.
pub serve-shadow :
    (M : Platform) (vs : List (Visit M)) (s : Shared M)
    → (enforced : List (ApiResult RateLimitMetadata)) × (shadowed : List
        (ApiResult RateLimitMetadata))
      × (s' : Shared M) × (passes : ℕ) × (serve M enforce vs s ≡ some (enforced, s'))
      × (serve M shadow vs s ≡ some (shadowed, raised M passes s'))
      × Softened M s.engine.blocklist vs enforced shadowed s.engine.stats.shadow_passes passes
serve-shadow M vs s = serve-Served M s.engine.blocklist vs s.engine.stats.shadow_passes s refl
