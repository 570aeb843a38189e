-- ===== src/Auth/Permission/Grants.antt =====
-- The matcher decides a relation on segments.
use summerrs_admin.Base.{
  ℕ, ◌≡◌, refl, ◌↔◌, true, List, [], ◌∷◌, ◌++◌, arith, ◌==◌, eq_bytes, eq_bytes_refl,
  eq_of_eq_bytes, Bool-cases, inl, inr, false≢true,
}
use summerrs_admin.Base.Text.{Bytes}
use summerrs_admin.Auth.Permission.{star, split, parts_match, permission_matches}

-- What an owned code grants, segment by segment: a last `*` grants whatever is left, a `*` before
-- that any one segment, and any other segment itself.
pub data Grants : List Bytes → List Bytes → Type 0 where
  nothing : Grants [] []
  rest : (rs : List Bytes) → Grants (star ∷ []) rs
  any : (r : Bytes) {os rs : List Bytes} → Grants os rs → Grants (star ∷ os) (r ∷ rs)
  same : (s : Bytes) {os rs : List Bytes} → Grants os rs → Grants (s ∷ os) (s ∷ rs)

Grants-refl : (os : List Bytes) → Grants os os
Grants-refl [] = nothing
Grants-refl (o ∷ os) = same o (Grants-refl os)

sound : (os rs : List Bytes) → parts_match os rs ≡ true → Grants os rs
unfolding parts_match
sound [] [] h = nothing
sound [] (r ∷ rs) h = cc
sound (o ∷ []) [] h = rw (eq_of_eq_bytes o star h) (rest [])
sound (o ∷ []) (r ∷ rs) h = elim (Bool-cases (eq_bytes o star)) [
  | inl wild ↦ rw (eq_of_eq_bytes o star wild) (rest (r ∷ rs))
  | inr plain ↦ elim (Bool-cases (eq_bytes o r)) [
    | inl equal ↦ rw (eq_of_eq_bytes o r equal) (same r (sound [] rs (ground arith)))
    | inr other ↦ absurd (false≢true (ground arith))
  ]
]
sound (o ∷ p ∷ os) [] h = cc
sound (o ∷ p ∷ os) (r ∷ rs) h = elim (Bool-cases (eq_bytes o star)) [
  | inl wild ↦ rw (eq_of_eq_bytes o star wild) (any r (sound (p ∷ os) rs (ground arith)))
  | inr plain ↦ elim (Bool-cases (eq_bytes o r)) [
    | inl equal ↦ rw (eq_of_eq_bytes o r equal) (same r (sound (p ∷ os) rs (ground arith)))
    | inr other ↦ absurd (false≢true (ground arith))
  ]
]

rest_complete : (rs : List Bytes) → parts_match (star ∷ []) rs ≡ true
unfolding parts_match
rest_complete [] = refl
rest_complete (r ∷ rs) = refl

any_complete :
    (os rs : List Bytes) (r : Bytes)
    → parts_match os rs ≡ true
    → parts_match (star ∷ os) (r ∷ rs) ≡ true
unfolding parts_match
any_complete [] rs r h = refl
any_complete (p ∷ os) rs r h = h

same_complete :
    (os rs : List Bytes) (s : Bytes)
    → parts_match os rs ≡ true
    → parts_match (s ∷ os) (s ∷ rs) ≡ true
unfolding parts_match
same_complete [] rs s h = rw (eq_bytes_refl s) (ground arith)
same_complete (p ∷ os) rs s h = rw (eq_bytes_refl s) (ground arith)

complete : {os rs : List Bytes} → Grants os rs → parts_match os rs ≡ true
unfolding parts_match
complete nothing = refl
complete (rest rs) = rest_complete rs
complete (any r {os} {rs} g) = any_complete os rs r (complete g)
complete (same s {os} {rs} g) = same_complete os rs s (complete g)

-- The matcher accepts exactly what the relation grants on the segments between colons: its two
-- shortcuts, for equal codes and for a lone `*`, change nothing.
pub permission_matches_iff :
    (owned required : Bytes)
    → (permission_matches owned required ≡ true) ↔ Grants (split b':' owned) (split b':' required)
unfolding permission_matches split
permission_matches_iff owned required = (to, from)
  where
    to : permission_matches owned required ≡ true → Grants (split b':' owned) (split b':' required)
    to h = elim (Bool-cases (eq_bytes owned required)) [
      | inl equal ↦ rw (eq_of_eq_bytes owned required equal) (Grants-refl _)
      | inr other ↦ elim (Bool-cases (eq_bytes owned star)) [
        | inl wild ↦ rw (eq_of_eq_bytes owned star wild) (rest _)
        | inr plain ↦ sound _ _ (ground arith)
      ]
    ]

    from :
        Grants (split b':' owned) (split b':' required) → permission_matches owned required ≡ true
    from g = let c = complete g in ground arith

split-cons : (c : ℕ) (s : Bytes) → (p : Bytes) × (ps : List Bytes) × (split c s ≡ p ∷ ps)
unfolding split
split-cons c [] = ([], [], refl)
split-cons c (b ∷ s) =
    let (p, ps, e) = split-cons c s in
    elim (Bool-cases (b == c)) [
      | inl at ↦ ([], split c s, rw at)
      | inr off ↦ (b ∷ p, ps, rw (off, e))
    ]

-- A separator and a last segment behind a text are one more segment.
split-append :
    (c : ℕ) (s last : Bytes)
    → split c last ≡ last ∷ []
    → split c (s ++ (c ∷ last)) ≡ split c s ++ (last ∷ [])
unfolding split
split-append c [] last h = rw h (ground arith)
split-append c (b ∷ s) last h =
    let (p, ps, e) = split-cons c s in
    let ih = split-append c s last h in
    elim (Bool-cases (b == c)) [ inl at ↦ rw (at, ih) | inr off ↦ rw (off, ih, e) ]

Grants-trailing : (os : List Bytes) → Grants (os ++ (star ∷ [])) os
Grants-trailing [] = rest []
Grants-trailing (o ∷ os) = same o (Grants-trailing os)

-- A trailing `*` also stands for no segment at all: the owned code `p:*` grants `p` itself, for
-- every code p.
pub trailing_star-grants_parent : (p : Bytes) → permission_matches (p ++ (b':' ∷ star)) p ≡ true
unfolding split
trailing_star-grants_parent p =
    (permission_matches_iff (p ++ (b':' ∷ star)) p).1
      (rw (split-append b':' p star refl) (Grants-trailing (split b':' p)))
