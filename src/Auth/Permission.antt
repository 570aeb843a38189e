-- ===== src/Auth/Permission.antt =====
-- `permission_matches` of crates/summer-auth/src/session/manager.rs. Permission codes are byte
-- strings.
pub mod Grants
use summerrs_admin.Base.{
  ℕ, ◌≡◌, refl, Bool, true, false, List, [], ◌∷◌, ◌++◌, ◌==◌, if◌then◌else◌, eq_bytes,
}
use summerrs_admin.Base.Text.{Bytes, codes}

abbrev pub star : Bytes
star = b'*' ∷ []

abbrev cons_head : ℕ → List Bytes → List Bytes
cons_head b [] = (b ∷ []) ∷ []
cons_head b (p ∷ ps) = (b ∷ p) ∷ ps

-- `str::split`
unfoldable pub split : ℕ → Bytes → List Bytes
split c [] = [] ∷ []
split c (b ∷ s) = let rest = split c s in if b == c then [] ∷ rest else cons_head b rest

-- The loop over `owned_parts`, with the rest of `required_parts` in place of the index.
unfoldable pub parts_match : (owned required : List Bytes) → Bool
parts_match [] [] = true
parts_match [] (r ∷ rs) = false
parts_match (o ∷ []) [] = eq_bytes o star
parts_match (o ∷ []) (r ∷ rs) =
    let more = parts_match [] rs in
    if eq_bytes o star then true else if eq_bytes o r then more else false
parts_match (o ∷ p ∷ os) [] = false
parts_match (o ∷ p ∷ os) (r ∷ rs) =
    let more = parts_match (p ∷ os) rs in
    if eq_bytes o star then more else if eq_bytes o r then more else false

unfoldable pub permission_matches : (owned required : Bytes) → Bool
permission_matches owned required =
    if eq_bytes owned required
    then true
    else if eq_bytes owned star
    then true
    else parts_match (split b':' owned) (split b':' required)
