-- ===== src/Auth/PathAuth.antt =====
-- crates/summer-auth/src/path_auth.rs: which requests need authentication. The matchit crate is a
-- parameter.
pub mod Cache
pub mod Affixes
pub mod Patterns
pub mod Required
use summerrs_admin.Base.{
  ℕ, ◌≡◌, refl, Bool, true, false, not, ◌&&◌, ◌||◌, Option, none, some, List, [], ◌∷◌, ◌++◌, any,
  ◌==◌, ltb, length, if◌then◌else◌, eq_bytes,
}
use summerrs_admin.Base.Text.{Bytes, codes, starts_with, strip_prefix, strip_suffix}
use summerrs_admin.Auth.PublicRoutes.{MethodTag, display, matches, PublicRoute, in_group}

pub record RouteRule : Type 0 where
  pub method : MethodTag
  pub pattern : Bytes

-- The derived equality of rules: no two tags have the same text.
abbrev pub eq_rule : RouteRule → RouteRule → Bool
eq_rule r s = eq_bytes (display r.method) (display s.method) && eq_bytes r.pattern s.pattern

abbrev pub contains_byte : ℕ → Bytes → Bool
contains_byte c s = any (λ b. b == c) s

abbrev pub is_param_pattern : Bytes → Bool
is_param_pattern pattern = contains_byte b'{' pattern && contains_byte b'}' pattern

abbrev pub is_some {ℓ} : {A : Type ℓ} → Option A → Bool
is_some none = false
is_some (some a) = true

abbrev pub tail : Bytes → Bytes
tail [] = []
tail (c ∷ s) = s

-- What may follow the prefix of `prefix/**`, if the path has the prefix.
abbrev pub below : Option Bytes → Bool
below none = false
below (some rest) = length rest == 0 || starts_with rest (codes "/")

-- What may follow the prefix of `prefix/*`.
abbrev pub one_segment : Option Bytes → Bool
one_segment none = false
one_segment (some rest) =
    if ltb (length rest) 2 || not (starts_with rest (codes "/"))
    then false
    else not (contains_byte b'/' (tail rest))

-- The matchit crate: `compile` is `Router::new` and `insert`, which may refuse the pattern, and
-- `at_path` is `at(path).is_ok()`.
pub record Matchit : Type 1 where
  pub Router : Type 0
  pub compile : Bytes → Option Router
  pub at_path : Router → Bytes → Bool

abbrev insert_new : Bytes → List Bytes → List Bytes
insert_new p uniq = if any (eq_bytes p) uniq then uniq else p ∷ uniq

-- The loops that fill `uniq`.
abbrev pub insert_all : List RouteRule → List Bytes → List Bytes
insert_all [] uniq = uniq
insert_all (r ∷ rules) uniq = insert_all rules (insert_new r.pattern uniq)

module _ (M : Matchit) where
  abbrev pub Routers : Type 0
  Routers = List (Bytes × M.Router)

  pub record PathAuthConfig : Type 0 where
    pub include : List RouteRule
    pub exclude : List RouteRule
    pub param_route_cache : Routers

  abbrev pub lookup : Bytes → Routers → Option M.Router
  lookup k [] = none
  lookup k ((p, router) ∷ rest) = if eq_bytes p k then some router else lookup k rest

  abbrev pub insert_compiled : Bytes → Option M.Router → Routers → Routers
  insert_compiled pattern none routers = routers
  insert_compiled pattern (some router) routers = (pattern, router) ∷ routers

  -- The loop of `build_param_routers` over the set, in an order that no result depends on.
  abbrev pub compile_all : List Bytes → Routers
  compile_all [] = []
  compile_all (p ∷ uniq) =
      let rest = compile_all uniq in
      if is_param_pattern p then insert_compiled p (M.compile p) rest else rest

  unfoldable pub build_param_routers : (include exclude : List RouteRule) → Routers
  build_param_routers include exclude = compile_all (insert_all exclude (insert_all include []))

  unfoldable pub rebuild_cache : PathAuthConfig → PathAuthConfig
  unfolding build_param_routers
  rebuild_cache cfg = record cfg { param_route_cache = build_param_routers cfg.include cfg.exclude }

  -- `PathAuthConfig::new`
  abbrev pub empty_config : PathAuthConfig
  empty_config = record { include = []; exclude = []; param_route_cache = [] }

  unfoldable pub from_rules : (include exclude : List RouteRule) → PathAuthConfig
  unfolding rebuild_cache
  from_rules include exclude =
      rebuild_cache (record { include = include; exclude = exclude; param_route_cache = [] })

  unfoldable pub push_include : RouteRule → PathAuthConfig → PathAuthConfig
  unfolding rebuild_cache
  push_include rule cfg =
      let pushed = record cfg { include = cfg.include ++ rule ∷ [] } in
      if is_param_pattern rule.pattern then rebuild_cache pushed else pushed

  unfoldable pub push_exclude : RouteRule → PathAuthConfig → PathAuthConfig
  unfolding rebuild_cache
  push_exclude rule cfg =
      let pushed = record cfg { exclude = cfg.exclude ++ rule ∷ [] } in
      if any (eq_rule rule) cfg.exclude
      then cfg
      else if is_param_pattern rule.pattern
      then rebuild_cache pushed
      else pushed

  abbrev push_routes : List PublicRoute → PathAuthConfig → PathAuthConfig
  push_routes [] cfg = cfg
  push_routes (r ∷ routes) cfg =
      push_routes routes (push_exclude (record { method = r.method; pattern = r.pattern }) cfg)

  unfoldable pub extend_excludes_from_public_routes :
      (registered : List PublicRoute) → (group : Bytes) → PathAuthConfig → PathAuthConfig
  unfolding push_exclude
  extend_excludes_from_public_routes registered group cfg =
      push_routes (in_group group registered) cfg

  abbrev plain_match : Option M.Router → (pattern path : Bytes) → Bool
  plain_match none pattern path = eq_bytes pattern path
  plain_match (some router) pattern path = M.at_path router path

  -- The cases of `matches_pattern` by what is left of the pattern without `/**` and without `/*`.
  abbrev pub glob_match :
      (before_double before_single : Option Bytes) → Option M.Router → (pattern path : Bytes) → Bool
  glob_match (some p) single router pattern path = below (strip_prefix p path)
  glob_match none (some p) router pattern path = one_segment (strip_prefix p path)
  glob_match none none router pattern path =
      if starts_with pattern (codes "*.")
      then is_some (strip_suffix (tail pattern) path)
      else plain_match router pattern path

  -- `matches_pattern`, with the router that the cache has for the pattern.
  unfoldable pub pattern_match : Option M.Router → (pattern path : Bytes) → Bool
  unfolding strip_suffix
  pattern_match router pattern path =
      if eq_bytes pattern (codes "/**")
      then true
      else glob_match (strip_suffix (codes "/**") pattern) (strip_suffix (codes "/*") pattern)
          router pattern path

  unfoldable pub matches_pattern : PathAuthConfig → (pattern path : Bytes) → Bool
  unfolding pattern_match
  matches_pattern cfg pattern path =
      pattern_match (lookup pattern cfg.param_route_cache) pattern path

  unfoldable pub rule_matches : PathAuthConfig → RouteRule → (method path : Bytes) → Bool
  unfolding matches_pattern
  rule_matches cfg rule method path =
      if not (matches rule.method method) then false else matches_pattern cfg rule.pattern path

  -- One loop of `requires_auth`.
  abbrev pub some_rule : PathAuthConfig → List RouteRule → (method path : Bytes) → Bool
  some_rule cfg [] method path = false
  some_rule cfg (r ∷ rules) method path =
      if rule_matches cfg r method path then true else some_rule cfg rules method path

  unfoldable pub requires_auth : PathAuthConfig → (method path : Bytes) → Bool
  unfolding rule_matches
  requires_auth cfg method path =
      if length cfg.include == 0
      then false
      else if some_rule cfg cfg.exclude method path
      then false
      else if some_rule cfg cfg.include method path
      then true
      else false
