-- ===== src/Auth/PathAuth/Cache.antt =====
-- The cache of compiled patterns follows the rules.
use summerrs_admin.Base.{
  or_regroup, any-append, ◌≡◌, refl, ap, sym, ◌∙◌, Bool, true, false, ◌&&◌, ◌||◌, Option, none,
  some, List, [], ◌∷◌, ◌++◌, any, if◌then◌else◌, eq_bytes, eq_of_eq_bytes, eq_bytes_refl,
  Bool-cases, inl, inr, arith,
}
use summerrs_admin.Base.Text.{Bytes}
use summerrs_admin.Auth.PublicRoutes.{PublicRoute, in_group}
use summerrs_admin.Auth.PathAuth.{
  RouteRule, eq_rule, is_param_pattern, Matchit, insert_new, insert_all, Routers, PathAuthConfig,
  lookup, insert_compiled, compile_all, build_param_routers, rebuild_cache, empty_config,
  from_rules, push_include, push_exclude, push_routes, extend_excludes_from_public_routes,
}

-- A rule with this pattern is among the rules.
abbrev pub mentioned : Bytes → List RouteRule → Bool
mentioned k rules = any (λ r. eq_bytes r.pattern k) rules

eq_bytes_sym : (p q : Bytes) → eq_bytes p q ≡ eq_bytes q p
eq_bytes_sym [] [] = refl
eq_bytes_sym [] (x ∷ q) = refl
eq_bytes_sym (x ∷ p) [] = refl
eq_bytes_sym (x ∷ p) (y ∷ q) = let e = eq_bytes_sym p q in ground (arith, e)

or_false : (a : Bool) → (a || false) ≡ a
or_false true = refl
or_false false = refl

collect : (exclude include : Bool) → (exclude || (include || false)) ≡ (include || exclude)
collect true true = refl
collect true false = refl
collect false true = refl
collect false false = refl

known : Bytes → List Bytes → Bool
known k uniq = any (eq_bytes k) uniq

known-insert_new :
    (k p : Bytes) (uniq : List Bytes) → known k (insert_new p uniq) ≡ (eq_bytes p k || known k uniq)
unfolding known
known-insert_new k p uniq = elim (Bool-cases (any (eq_bytes p) uniq)) [
  | inl there ↦ rw there (elim (Bool-cases (eq_bytes p k)) [
    | inl same ↦ rw (same, ← eq_of_eq_bytes p k same) there
    | inr other ↦ rw other refl
  ])
  | inr absent ↦ rw absent (ap (λ b. b || known k uniq) (eq_bytes_sym k p))
]

known-insert_all :
    (k : Bytes) (rules : List RouteRule) (uniq : List Bytes)
    → known k (insert_all rules uniq) ≡ (mentioned k rules || known k uniq)
known-insert_all k [] uniq = refl
known-insert_all k (r ∷ rules) uniq =
    let e = known-insert_all k rules (insert_new r.pattern uniq) in
    let now = known-insert_new k r.pattern uniq in
    e
    ∙ ap (λ b. mentioned k rules || b) now
    ∙ or_regroup (mentioned k rules) (eq_bytes r.pattern k) (known k uniq)

module _ (M : Matchit) where
  -- What the cache holds for a pattern that is wanted.
  abbrev pub compiled : Bool → Bytes → Option M.Router
  compiled wanted k = if wanted && is_param_pattern k then M.compile k else none

  -- The pattern that the loop is at.
  first :
      (p : Bytes) (rest : Routers M) (param again : Bool) (o : Option M.Router)
      → lookup M p rest ≡ (if again && param then o else none)
      → lookup M p (if param then insert_compiled M p o rest else rest)
        ≡ (if param then o else none)
  first p rest true again (some router) h = rw (eq_bytes_refl p) refl
  first p rest true true none h = h
  first p rest true false none h = h
  first p rest false true o h = h
  first p rest false false o h = h

  skip :
      (k p : Bytes) (rest : Routers M) (param : Bool) (o : Option M.Router)
      → eq_bytes p k ≡ false
      → lookup M k (if param then insert_compiled M p o rest else rest) ≡ lookup M k rest
  skip k p rest true (some router) h = rw h refl
  skip k p rest true none h = refl
  skip k p rest false o h = refl

  lookup-compile_all :
      (k : Bytes) (uniq : List Bytes) → lookup M k (compile_all M uniq) ≡ compiled (known k uniq) k
  unfolding known
  lookup-compile_all k [] = refl
  lookup-compile_all k (p ∷ uniq) = elim (Bool-cases (eq_bytes k p)) [
    | inl same ↦
        let k≡p = eq_of_eq_bytes k p same in
        rw (same, k≡p)
          (first p (compile_all M uniq) (is_param_pattern p) (known p uniq) (M.compile p) (
            ap (λ t. lookup M t (compile_all M uniq)) (sym k≡p)
            ∙ lookup-compile_all k uniq
            ∙ ap (λ t. compiled (known t uniq) t) k≡p))
    | inr other ↦ rw other (
        skip k p (compile_all M uniq) (is_param_pattern p) (M.compile p)
          (sym (eq_bytes_sym k p) ∙ other)
        ∙ lookup-compile_all k uniq)
  ]

  -- The cache holds a router for a pattern exactly if a rule has that pattern, the pattern has
  -- parameters, and it compiles.
  abbrev pub IsCached : PathAuthConfig M → Type 0
  IsCached cfg =
      (k : Bytes)
      → lookup M k cfg.param_route_cache
        ≡ compiled (mentioned k cfg.include || mentioned k cfg.exclude) k

  rebuild_cache-IsCached : (cfg : PathAuthConfig M) → IsCached (rebuild_cache M cfg)
  unfolding rebuild_cache build_param_routers known
  rebuild_cache-IsCached cfg k =
      let uniq = insert_all cfg.exclude (insert_all cfg.include []) in
      lookup-compile_all k uniq
      ∙ ap (λ b. compiled b k)
          (known-insert_all k cfg.exclude (insert_all cfg.include [])
            ∙ ap (λ b. mentioned k cfg.exclude || b) (known-insert_all k cfg.include [])
            ∙ collect (mentioned k cfg.exclude) (mentioned k cfg.include))

  drop_test :
      (before after : Bool) (o : Option M.Router)
      → (if before && false then o else none) ≡ (if after && false then o else none)
  drop_test true true o = refl
  drop_test true false o = refl
  drop_test false true o = refl
  drop_test false false o = refl

  -- A pattern without parameters is in no cache.
  plain_rule :
      (rule : RouteRule) (k : Bytes) (before after : Bool)
      → is_param_pattern rule.pattern ≡ false
      → (eq_bytes rule.pattern k ≡ false → before ≡ after)
      → compiled before k ≡ compiled after k
  plain_rule rule k before after plain same = elim (Bool-cases (eq_bytes rule.pattern k)) [
    | inl is ↦
        let none_there : is_param_pattern k ≡ false =
          ap is_param_pattern (sym (eq_of_eq_bytes rule.pattern k is)) ∙ plain in
        rw none_there (drop_test before after (M.compile k))
    | inr other ↦ ap (λ b. compiled b k) (same other)
  ]

  added :
      (rule : RouteRule) (k : Bytes) (rules : List RouteRule)
      → eq_bytes rule.pattern k ≡ false
      → mentioned k (rules ++ rule ∷ []) ≡ mentioned k rules
  added rule k rules other =
      any-append (λ r. eq_bytes r.pattern k) rules (rule ∷ [])
      ∙ ap (λ b. mentioned k rules || (b || false)) other
      ∙ or_false (mentioned k rules)

  push_include-IsCached :
      (rule : RouteRule) (cfg : PathAuthConfig M)
      → IsCached cfg
      → IsCached (push_include M rule cfg)
  unfolding push_include
  push_include-IsCached rule cfg ok = elim (Bool-cases (is_param_pattern rule.pattern)) [
    | inl param ↦
        rw param (rebuild_cache-IsCached (record cfg { include = cfg.include ++ rule ∷ [] }))
    | inr plain ↦ rw plain (λ k.
        ok k
        ∙ plain_rule rule k _ _ plain (λ other.
          ap (λ b. b || mentioned k cfg.exclude) (sym (added rule k cfg.include other))))
  ]

  push_exclude-IsCached :
      (rule : RouteRule) (cfg : PathAuthConfig M)
      → IsCached cfg
      → IsCached (push_exclude M rule cfg)
  unfolding push_exclude
  push_exclude-IsCached rule cfg ok = elim (Bool-cases (any (eq_rule rule) cfg.exclude)) [
    | inl there ↦ rw there ok
    | inr fresh ↦ rw fresh (elim (Bool-cases (is_param_pattern rule.pattern)) [
      | inl param ↦
          rw param (rebuild_cache-IsCached (record cfg { exclude = cfg.exclude ++ rule ∷ [] }))
      | inr plain ↦ rw plain (λ k.
          ok k
          ∙ plain_rule rule k _ _ plain (λ other.
            ap (λ b. mentioned k cfg.include || b) (sym (added rule k cfg.exclude other))))
    ])
  ]

  push_routes-IsCached :
      (routes : List PublicRoute) (cfg : PathAuthConfig M)
      → IsCached cfg
      → IsCached (push_routes M routes cfg)
  push_routes-IsCached [] cfg ok = ok
  push_routes-IsCached (r ∷ routes) cfg ok =
      let rule : RouteRule = record { method = r.method; pattern = r.pattern } in
      push_routes-IsCached routes (push_exclude M rule cfg) (push_exclude-IsCached rule cfg ok)

  -- The configurations that the public functions build.
  pub data Built : PathAuthConfig M → Type 0 where
    of_new : Built (empty_config M)
    of_rules : (include exclude : List RouteRule) → Built (from_rules M include exclude)
    including :
        (rule : RouteRule) {cfg : PathAuthConfig M} → Built cfg → Built (push_include M rule cfg)
    excluding :
        (rule : RouteRule) {cfg : PathAuthConfig M} → Built cfg → Built (push_exclude M rule cfg)
    public_routes :
        (registered : List PublicRoute) (group : Bytes) {cfg : PathAuthConfig M}
        → Built cfg
        → Built (extend_excludes_from_public_routes M registered group cfg)

  -- In every configuration that the public functions build, the cache holds a router for a
  -- pattern exactly if a rule has that pattern, the pattern has parameters and it compiles.
  pub Built-IsCached : {cfg : PathAuthConfig M} → Built cfg → IsCached cfg
  unfolding extend_excludes_from_public_routes from_rules
  Built-IsCached of_new = λ k. refl
  Built-IsCached (of_rules include exclude) =
      rebuild_cache-IsCached
        (record { include = include; exclude = exclude; param_route_cache = [] })
  Built-IsCached (including rule {cfg} b) = push_include-IsCached rule cfg (Built-IsCached b)
  Built-IsCached (excluding rule {cfg} b) = push_exclude-IsCached rule cfg (Built-IsCached b)
  Built-IsCached (public_routes registered group {cfg} b) =
      push_routes-IsCached (in_group group registered) cfg (Built-IsCached b)
