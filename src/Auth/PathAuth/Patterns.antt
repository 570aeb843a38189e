-- ===== src/Auth/PathAuth/Patterns.antt =====
-- What the patterns with a star at the end accept.
use summerrs_admin.Base.{
  ℕ, ◌≡◌, refl, ap, sym, ◌∙◌, ◌≢◌, ◌↔◌, ◌⊎◌, Bool, true, false, not, ◌&&◌, Option, none, some, [],
  ◌∷◌, ◌++◌, ◌==◌, eq_bytes, eq_of_eq_bytes, Bool-cases, Option-cases, ==_iff, false≢true, inl, inr,
  arith,
}
use mathlib.Core.Path.{subst}
use summerrs_admin.Base.Text.{Bytes, codes, strip_prefix, strip_prefix-append, Without}
use summerrs_admin.Auth.PathAuth.{
  contains_byte, below, one_segment, Matchit, PathAuthConfig, pattern_match, matches_pattern,
}
use summerrs_admin.Base.Text.{strip_suffix}
use summerrs_admin.Auth.PathAuth.Affixes.{
  longer, strip_suffix-append, append_nil, not_double, strip_prefix_sound,
}

and_left : (a b : Bool) → (a && b) ≡ true → a ≡ true
and_left true b h = refl
and_left false b h = h

and_right : (a b : Bool) → (a && b) ≡ true → b ≡ true
and_right true b h = h
and_right false b h = absurd (false≢true h)

and_both : (a b : Bool) → a ≡ true → b ≡ true → (a && b) ≡ true
and_both true b h k = k
and_both false b h k = h

below-cons : (c : ℕ) (rest : Bytes) → below (some (c ∷ rest)) ≡ (c == b'/')
below-cons c rest = ground arith

below_iff :
    (rest : Bytes) → (below (some rest) ≡ true) ↔ ((rest ≡ []) ⊎ ((s : Bytes) × (rest ≡ b'/' ∷ s)))
below_iff [] = (λ h. inl refl, λ h. refl)
below_iff (c ∷ rest) = (
  λ h. inr (rest, ap (λ b. b ∷ rest) ((==_iff c b'/').0 (sym (below-cons c rest) ∙ h))),
  λ h. elim h [
    | inl gone ↦ absurd (cc gone)
    | inr (s, e) ↦ below-cons c rest ∙ (==_iff c b'/').1 (cc e)
  ],
)

Without-iff : (c : ℕ) (s : Bytes) → (not (contains_byte c s) ≡ true) ↔ Without c s
Without-iff c [] = (λ h. tt, λ h. refl)
Without-iff c (b ∷ s) = elim (Bool-cases (b == c)) [
  | inl same ↦ (λ h. absurd (false≢true (rw same at h)), λ w. absurd (w.0 ((==_iff b c).0 same)))
  | inr other ↦ (
    λ h. (
      λ e. absurd (false≢true (sym other ∙ (==_iff b c).1 e)),
      (Without-iff c s).0 (rw other at h),
    ),
    λ w. rw other ((Without-iff c s).1 w.1),
  )
]

one_segment-cons :
    (c d : ℕ) (rest : Bytes)
    → one_segment (some (c ∷ d ∷ rest)) ≡ (c == b'/' && not (contains_byte b'/' (d ∷ rest)))
one_segment-cons c d rest = ground arith

one_segment_iff :
    (rest : Bytes)
    → (one_segment (some rest) ≡ true)
      ↔ ((s : Bytes) × (rest ≡ b'/' ∷ s) × (s ≢ []) × Without b'/' s)
one_segment_iff [] = (λ h. absurd (false≢true h), λ h. absurd (cc h.1))
one_segment_iff (c ∷ []) = (λ h. absurd (false≢true h), λ h. absurd (h.2 (cc h.1)))
one_segment_iff (c ∷ d ∷ rest) = (
  λ h.
      let both : (c == b'/' && not (contains_byte b'/' (d ∷ rest))) ≡ true =
        sym (one_segment-cons c d rest) ∙ h in
      (
        d ∷ rest,
        ap (λ b. b ∷ d ∷ rest) ((==_iff c b'/').0 (and_left _ _ both)),
        (λ e. cc e),
        (Without-iff b'/' (d ∷ rest)).0 (and_right _ _ both),
      ),
  λ h.
      let s≡ : d ∷ rest ≡ h.0 = cc (h.1) in
      one_segment-cons c d rest
      ∙ and_both _ _ ((==_iff c b'/').1 (cc (h.1)))
          ((Without-iff b'/' (d ∷ rest)).1 (subst (Without b'/') (sym s≡) (h.3))),
)

-- What is behind the prefix, if the path has it.
behind :
    (p path : Bytes) (test : Option Bytes → Bool)
    → test none ≡ false
    → (test (strip_prefix p path) ≡ true)
      ↔ ((rest : Bytes) × (path ≡ p ++ rest) × (test (some rest) ≡ true))
behind p path test refused = (
  λ h. elim (Option-cases (strip_prefix p path)) [
    | inl absent ↦ absurd (false≢true (sym refused ∙ ap test (sym absent) ∙ h))
    | inr (rest, e) ↦ (rest, strip_prefix_sound p path rest e, ap test (sym e) ∙ h)
  ],
  λ (rest, e, h). ap (λ t. test (strip_prefix p t)) e ∙ ap test (strip_prefix-append p rest) ∙ h,
)

not_all : (p : Bytes) → eq_bytes (p ++ codes "/*") (codes "/**") ≡ false
not_all p = elim (Bool-cases (eq_bytes (p ++ codes "/*") (codes "/**"))) [
  | inl same ↦
      let e = eq_of_eq_bytes (p ++ codes "/*") (codes "/**") same in
      let all_of : strip_suffix (codes "/**") (p ++ codes "/*") ≡ some [] =
        ap (strip_suffix (codes "/**")) e ∙ strip_suffix-append [] (codes "/**") in
      absurd (cc (sym (not_double p) ∙ all_of))
  | inr other ↦ other
]

module _ (M : Matchit) (cfg : PathAuthConfig M) where
  double_match :
      (p pattern path : Bytes)
      → eq_bytes pattern (codes "/**") ≡ false
      → strip_suffix (codes "/**") pattern ≡ some p
      → matches_pattern M cfg pattern path ≡ below (strip_prefix p path)
  unfolding matches_pattern pattern_match
  double_match p pattern path h e = rw (h, e) refl

  single_match :
      (p pattern path : Bytes)
      → eq_bytes pattern (codes "/**") ≡ false
      → strip_suffix (codes "/**") pattern ≡ none
      → strip_suffix (codes "/*") pattern ≡ some p
      → matches_pattern M cfg pattern path ≡ one_segment (strip_prefix p path)
  unfolding matches_pattern pattern_match
  single_match p pattern path h e k = rw (h, e, k) refl

  module _ (c : ℕ) (p path : Bytes) where
    double : matches_pattern M cfg ((c ∷ p) ++ codes "/**") path ≡ below (strip_prefix (c ∷ p) path)
    double =
        double_match (c ∷ p) _ path (longer c p (codes "/**"))
          (strip_suffix-append (c ∷ p) (codes "/**"))

    single :
        matches_pattern M cfg ((c ∷ p) ++ codes "/*") path ≡ one_segment (strip_prefix (c ∷ p) path)
    single =
        single_match (c ∷ p) _ path (not_all (c ∷ p)) (not_double (c ∷ p))
          (strip_suffix-append (c ∷ p) (codes "/*"))

    -- A pattern `p/**` with p not empty accepts p itself and the paths below `p/`, and no other:
    -- it stops at the end of a segment.
    pub double_star_iff :
        (matches_pattern M cfg ((c ∷ p) ++ codes "/**") path ≡ true)
        ↔ ((path ≡ c ∷ p) ⊎ ((s : Bytes) × (path ≡ (c ∷ p) ++ (b'/' ∷ s))))
    double_star_iff =
        let (to, from) = behind (c ∷ p) path below refl in
        (
          λ h.
              (let (rest, e, ok) = to (sym double ∙ h) in
                elim ((below_iff rest).0 ok) [
                  | inl gone ↦ inl (e ∙ ap (λ t. (c ∷ p) ++ t) gone ∙ append_nil (c ∷ p))
                  | inr (s, k) ↦ inr (s, e ∙ ap (λ t. (c ∷ p) ++ t) k)
                ]),
          λ h.
              double
              ∙ from (elim h [
                | inl e ↦ ([], e ∙ sym (append_nil (c ∷ p)), refl)
                | inr (s, e) ↦ (b'/' ∷ s, e, (below_iff (b'/' ∷ s)).1 (inr (s, refl)))
              ]),
        )

    -- A pattern `p/*` with p not empty accepts exactly the paths `p/s` where s is one segment,
    -- not empty and without a slash.
    pub single_star_iff :
        (matches_pattern M cfg ((c ∷ p) ++ codes "/*") path ≡ true)
        ↔ ((s : Bytes) × (path ≡ (c ∷ p) ++ (b'/' ∷ s)) × (s ≢ []) × Without b'/' s)
    single_star_iff =
        let (to, from) = behind (c ∷ p) path one_segment refl in
        (
          λ h.
              (let (rest, e, ok) = to (sym single ∙ h) in
                let (s, k, full, bare) = (one_segment_iff rest).0 ok in
                (s, e ∙ ap (λ t. (c ∷ p) ++ t) k, full, bare)),
          λ (s, e, full, bare).
              single ∙ from (b'/' ∷ s, e, (one_segment_iff (b'/' ∷ s)).1 (s, refl, full, bare)),
        )
