-- ===== src/Auth/PublicRoutes.antt =====
-- crates/summer-auth/src/public_routes.rs: method tags and the routes that are registered as
-- public. A path, a pattern and the token of an HTTP method are byte strings; the inventory crate
-- has collected the routes.
use summerrs_admin.Base.{Bool, true, List, [], ◌∷◌, if◌then◌else◌, eq_bytes}
use summerrs_admin.Base.Text.{Bytes, codes}

pub data MethodTag : Type 0 where
  any_method : MethodTag
  get : MethodTag
  post : MethodTag
  put : MethodTag
  delete : MethodTag
  patch : MethodTag
  head : MethodTag
  trace : MethodTag
  options : MethodTag

-- The `Display` of the tag.
abbrev pub display : MethodTag → Bytes
display any_method = codes "*"
display get = codes "GET"
display post = codes "POST"
display put = codes "PUT"
display delete = codes "DELETE"
display patch = codes "PATCH"
display head = codes "HEAD"
display trace = codes "TRACE"
display options = codes "OPTIONS"

-- `MethodTag::matches`; the constants of `http::Method` are these tokens.
abbrev pub matches : MethodTag → Bytes → Bool
matches any_method m = true
matches get m = eq_bytes m (codes "GET")
matches post m = eq_bytes m (codes "POST")
matches put m = eq_bytes m (codes "PUT")
matches delete m = eq_bytes m (codes "DELETE")
matches patch m = eq_bytes m (codes "PATCH")
matches head m = eq_bytes m (codes "HEAD")
matches trace m = eq_bytes m (codes "TRACE")
matches options m = eq_bytes m (codes "OPTIONS")

pub record PublicRoute : Type 0 where
  pub group : Bytes
  pub method : MethodTag
  pub pattern : Bytes

-- `public_routes_in_group`, over the routes that are registered.
abbrev pub in_group : Bytes → List PublicRoute → List PublicRoute
in_group group [] = []
in_group group (r ∷ routes) =
    let rest = in_group group routes in if eq_bytes r.group group then r ∷ rest else rest
