-- ===== src/Auth/PathAuth/Required.antt =====
-- Which requests need authentication, without the cache.
use summerrs_admin.Base.{
  ◌≡◌, refl, ap, ◌∙◌, Bool, true, false, not, ◌&&◌, ◌||◌, List, [], ◌∷◌, any, ◌==◌, length,
  if◌then◌else◌, eq_bytes, eq_bytes_refl, Bool-cases, inl, inr, arith, All,
}
use summerrs_admin.Base.Text.{Bytes}
use summerrs_admin.Auth.PublicRoutes.{matches}
use summerrs_admin.Auth.PathAuth.{
  RouteRule, Matchit, PathAuthConfig, pattern_match, matches_pattern, rule_matches, some_rule,
  requires_auth,
}
use summerrs_admin.Auth.PathAuth.Cache.{mentioned, compiled, IsCached, Built, Built-IsCached}

test : (a b c : Bool) → b ≡ c → (if a then true else b) ≡ (a || c)
test true b c e = refl
test false b c e = e

or_true : (a b : Bool) → b ≡ true → (a || b) ≡ true
or_true true b e = refl
or_true false b e = e

-- The early return without include rules, and the two loops.
decide :
    (include : List RouteRule) (excluded : Bool) (p : RouteRule → Bool)
    → (if length include == 0
        then false
        else if excluded
        then false
        else if any p include
        then true
        else false)
      ≡ (any p include && not excluded)
decide [] excluded p = refl
decide (r ∷ include) true p = ground arith
decide (r ∷ include) false p = ground arith

module _ (M : Matchit) where
  -- A rule applies to a request: its method does, and its pattern, compiled afresh.
  abbrev pub applies : (method path : Bytes) → RouteRule → Bool
  applies method path rule =
      matches rule.method method && pattern_match M (compiled M true rule.pattern) rule.pattern path

  module _ (cfg : PathAuthConfig M) (cached : IsCached M cfg) (method path : Bytes) where
    Known : RouteRule → Type 0
    Known rule = (mentioned rule.pattern cfg.include || mentioned rule.pattern cfg.exclude) ≡ true

    rule_matches-applies :
        (rule : RouteRule)
        → Known rule
        → rule_matches M cfg rule method path ≡ applies method path rule
    unfolding rule_matches matches_pattern Known
    rule_matches-applies rule h = elim (Bool-cases (matches rule.method method)) [
      | inl same ↦ rw same (
          ap (λ router. pattern_match M router rule.pattern path)
            (cached rule.pattern ∙ ap (λ b. compiled M b rule.pattern) h))
      | inr other ↦ rw other refl
    ]

    some_rule-applies :
        (rules : List RouteRule)
        → All Known rules
        → some_rule M cfg rules method path ≡ any (applies method path) rules
    some_rule-applies [] h = refl
    some_rule-applies (r ∷ rules) h =
        rw (rule_matches-applies r h.0)
          (test (applies method path r) _ _ (some_rule-applies rules h.1))

    All-Known :
        (rules : List RouteRule)
        → ((k : Bytes)
            → mentioned k rules ≡ true
            → (mentioned k cfg.include || mentioned k cfg.exclude) ≡ true)
        → All Known rules
    unfolding Known
    All-Known [] h = tt
    All-Known (r ∷ rules) h = (
      h r.pattern (ap (λ b. b || mentioned r.pattern rules) (eq_bytes_refl r.pattern)),
      All-Known rules (λ k there. h k (or_true (eq_bytes r.pattern k) (mentioned k rules) there)),
    )

    cached_requires_auth :
        requires_auth M cfg method path
        ≡ (any (applies method path) cfg.include && not (any (applies method path) cfg.exclude))
    unfolding requires_auth
    cached_requires_auth =
        rw
          (
            some_rule-applies cfg.include
                (All-Known cfg.include (λ k there. ap (λ b. b || mentioned k cfg.exclude) there)),
            some_rule-applies cfg.exclude
                (All-Known cfg.exclude (λ k there. or_true (mentioned k cfg.include) _ there)),
          )
          (decide cfg.include (any (applies method path) cfg.exclude) (applies method path))

  -- A request needs authentication exactly if an include rule applies to it and no exclude rule
  -- does, where rules compile their patterns afresh: in every configuration that the public
  -- functions build, the cache changes no answer.
  pub requires_auth_iff :
      (cfg : PathAuthConfig M) (method path : Bytes)
      → Built M cfg
      → requires_auth M cfg method path
        ≡ (any (applies method path) cfg.include && not (any (applies method path) cfg.exclude))
  requires_auth_iff cfg method path b = cached_requires_auth cfg (Built-IsCached M b) method path
