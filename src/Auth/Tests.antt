-- ===== src/Auth/Tests.antt =====
-- The theorems about authentication applied at concrete inputs.
use summerrs_admin.Base.{
  ℕ, ◌≡◌, refl, ◌↔◌, ◌⊎◌, ◌≢◌, eq_bytes, eq_of_eq_bytes, ==_iff, ◌==◌, ◌<◌, ap, if◌then◌else◌, ◌&&◌,
  ◌||◌, not, any, Bool, true, false, none, some, [], ◌∷◌, ◌++◌, arith,
}
use mathlib.Core.Path.{subst}
use summerrs_admin.Base.Word.{u32_mod}
use summerrs_admin.Base.Text.{Bytes, codes, starts_with, Without}
use summerrs_admin.Auth.Permission.{star, split, permission_matches}
use summerrs_admin.Auth.Permission.Grants.{
  Grants, permission_matches_iff, trailing_star-grants_parent,
}
use summerrs_admin.Auth.Bitmap.{PermissionMap, new_map, get_position, get_perm, encode, decode}
use summerrs_admin.Auth.Bitmap.Decoding.{contains, IsConsistent}
use summerrs_admin.Auth.Bitmap.Roundtrip.{is_known, encode-decode}
use summerrs_admin.Auth.PublicRoutes.{get, post, any_method}
use summerrs_admin.Auth.PathAuth.{
  RouteRule, Matchit, PathAuthConfig, lookup, matches_pattern, requires_auth, empty_config,
  push_include, push_exclude,
}
use summerrs_admin.Auth.PathAuth.Cache.{
  mentioned, compiled, Built, of_new, including, excluding, Built-IsCached,
}
use summerrs_admin.Auth.PathAuth.Required.{applies, requires_auth_iff}
use summerrs_admin.Auth.PathAuth.Patterns.{double_star_iff, single_star_iff}

permission_matches_iff_example :
    (permission_matches (codes "system:*:list") (codes "system:user:list") ≡ true)
    ↔ Grants (split b':' (codes "system:*:list")) (split b':' (codes "system:user:list"))
permission_matches_iff_example =
    permission_matches_iff (codes "system:*:list") (codes "system:user:list")

trailing_star-grants_parent_example :
    permission_matches (codes "system" ++ (b':' ∷ star)) (codes "system") ≡ true
trailing_star-grants_parent_example = trailing_star-grants_parent (codes "system")

-- A compiler of patterns for tests: it refuses nothing, and what it gives accepts all items.
abbrev lenient : Matchit
lenient = record {
  Router = Bytes;
  compile = λ p. some p;
  at_path = λ r path. starts_with path (codes "/item/");
}

abbrev api : RouteRule
api = record { method = any_method; pattern = codes "/api/**" }

abbrev login : RouteRule
login = record { method = post; pattern = codes "/api/login" }

abbrev item : RouteRule
item = record { method = get; pattern = codes "/item/{id}" }

abbrev site : PathAuthConfig lenient
site =
    push_exclude lenient login
      (push_include lenient item (push_include lenient api (empty_config lenient)))

site-Built : Built lenient site
site-Built = excluding login (including item (including api of_new))

test_login : requires_auth lenient site (codes "POST") (codes "/api/login") ≡ false
unfolding requires_auth push_exclude push_include
test_login = refl

test_other : requires_auth lenient site (codes "GET") (codes "/api/login") ≡ true
unfolding requires_auth push_exclude push_include
test_other = refl

test_boundary : requires_auth lenient site (codes "GET") (codes "/apiX") ≡ false
unfolding requires_auth push_exclude push_include
test_boundary = refl

requires_auth_iff_example : requires_auth lenient site (codes "POST") (codes "/api/login") ≡ (
    any (applies lenient (codes "POST") (codes "/api/login")) site.include
    && not (any (applies lenient (codes "POST") (codes "/api/login")) site.exclude))
requires_auth_iff_example =
    requires_auth_iff lenient site (codes "POST") (codes "/api/login") site-Built

Built-IsCached_example :
    lookup lenient (codes "/item/{id}") site.param_route_cache
    ≡ compiled lenient
        (mentioned (codes "/item/{id}") site.include || mentioned (codes "/item/{id}") site.exclude)
        (codes "/item/{id}")
Built-IsCached_example = Built-IsCached lenient site-Built (codes "/item/{id}")

double_star_iff_example :
    (matches_pattern lenient site ((b'/' ∷ codes "api") ++ codes "/**") (codes "/api/users") ≡ true)
    ↔ ((codes "/api/users" ≡ b'/' ∷ codes "api")
        ⊎ ((s : Bytes) × (codes "/api/users" ≡ (b'/' ∷ codes "api") ++ (b'/' ∷ s))))
double_star_iff_example = double_star_iff lenient site b'/' (codes "api") (codes "/api/users")

single_star_iff_example :
    (matches_pattern lenient site ((b'/' ∷ codes "api") ++ codes "/*") (codes "/api/users") ≡ true)
    ↔ ((s : Bytes) × (codes "/api/users" ≡ (b'/' ∷ codes "api") ++ (b'/' ∷ s))
        × (s ≢ [])
        × Without b'/' s)
single_star_iff_example = single_star_iff lenient site b'/' (codes "api") (codes "/api/users")

abbrev marks : PermissionMap
marks = new_map ((codes "user:list", 0) ∷ (codes "user:add", 9) ∷ [])

-- The two entries of the map.
marks-there :
    (p : Bytes) (n : ℕ) (is_add is_list : Bool)
    → eq_bytes (codes "user:add") p ≡ is_add
    → eq_bytes (codes "user:list") p ≡ is_list
    → (if is_add then some 9 else if is_list then some 0 else none) ≡ some n
    → get_perm marks n ≡ some p
unfolding get_perm new_map
marks-there p n true is_list e k h =
    let nine : 9 ≡ n = cc h in
    subst (λ m. get_perm marks m ≡ some p) nine (ap some (eq_of_eq_bytes (codes "user:add") p e))
marks-there p n false true e k h =
    let first : 0 ≡ n = cc h in
    subst (λ m. get_perm marks m ≡ some p) first (ap some (eq_of_eq_bytes (codes "user:list") p k))
marks-there p n false false e k h = absurd (cc h)

marks-back :
    (p : Bytes) (n : ℕ) (at_nine at_first : Bool)
    → (9 == n) ≡ at_nine
    → (0 == n) ≡ at_first
    → (if at_nine
        then some (codes "user:add")
        else if at_first
        then some (codes "user:list")
        else none)
      ≡ some p
    → get_position marks p ≡ some n
unfolding get_position new_map
marks-back p n true at_first e k h =
    let name : codes "user:add" ≡ p = cc h in
    subst (λ t. get_position marks t ≡ some n) name (ap some ((==_iff 9 n).0 e))
marks-back p n false true e k h =
    let name : codes "user:list" ≡ p = cc h in
    subst (λ t. get_position marks t ≡ some n) name (ap some ((==_iff 0 n).0 k))
marks-back p n false false e k h = absurd (cc h)

marks-u32 :
    (p : Bytes) (n : ℕ) (is_add is_list : Bool)
    → (if is_add then some 9 else if is_list then some 0 else none) ≡ some n
    → n < u32_mod
marks-u32 p n true is_list h = let nine : 9 ≡ n = cc h in omega (arith, nine)
marks-u32 p n false true h = let first : 0 ≡ n = cc h in omega (arith, first)
marks-u32 p n false false h = absurd (cc h)

marks-IsConsistent : IsConsistent marks
unfolding get_perm get_position new_map
marks-IsConsistent = record {
  there = λ p n h. marks-there p n _ _ refl refl h;
  back = λ p n h. marks-back p n _ _ refl refl h;
  u32 = λ p n h. marks-u32 p n _ _ h;
}

encode-decode_example : contains (codes "user:add") (decode (λ pb. some pb) (0 ∷ 2 ∷ []) marks) ≡ (
    contains (codes "user:add") (codes "unknown" ∷ codes "user:add" ∷ [])
    && is_known (get_position marks (codes "user:add")))
unfolding encode get_position new_map
encode-decode_example =
    encode-decode marks marks-IsConsistent (λ bytes. bytes) (λ pb. some pb) (λ bytes h. refl)
      (codes "unknown" ∷ codes "user:add" ∷ []) (0 ∷ 2 ∷ []) (codes "user:add") refl
