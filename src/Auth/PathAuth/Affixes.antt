-- ===== src/Auth/PathAuth/Affixes.antt =====
-- Prefixes and suffixes of texts that are patterns or paths.
use summerrs_admin.Base.{
  ℕ, ◌≡◌, refl, ap, ◌∙◌, true, false, Option, none, some, [], ◌∷◌, ◌++◌, length, length-append,
  eq_bytes, eq_bytes_refl, eq_of_eq_bytes, Bool-cases, Option-cases, false≢true, inl, inr, arith,
}
use summerrs_admin.Base.Text.{Bytes, codes, strip_prefix}
use summerrs_admin.Base.Text.{cons_prefix, strip_suffix}

pub longer : (c : ℕ) (p s : Bytes) → eq_bytes ((c ∷ p) ++ s) s ≡ false
longer c p s = elim (Bool-cases (eq_bytes ((c ∷ p) ++ s) s)) [
  | inl same ↦
      let e = ap length (eq_of_eq_bytes ((c ∷ p) ++ s) s same) in
      let l = length-append (c ∷ p) s in absurd (omega (arith, e, l))
  | inr other ↦ other
]

pub strip_suffix-append : (p suffix : Bytes) → strip_suffix suffix (p ++ suffix) ≡ some p
unfolding strip_suffix
strip_suffix-append [] [] = refl
strip_suffix-append [] (c ∷ suffix) = rw (eq_bytes_refl (c ∷ suffix)) refl
strip_suffix-append (c ∷ p) suffix = rw (longer c p suffix, strip_suffix-append p suffix) refl

whole : (suffix s p : Bytes) → eq_bytes s suffix ≡ true → some [] ≡ some p → s ≡ p ++ suffix
whole suffix s [] same h = eq_of_eq_bytes s suffix same
whole suffix s (x ∷ p) same h = absurd (cc h)

shorter :
    (c : ℕ) (s suffix p : Bytes) (o : Option Bytes)
    → ((q : Bytes) → o ≡ some q → s ≡ q ++ suffix)
    → cons_prefix c o ≡ some p
    → c ∷ s ≡ p ++ suffix
shorter c s suffix p none sound h = absurd (cc h)
shorter c s suffix [] (some q) sound h = absurd (cc h)
shorter c s suffix (x ∷ p) (some q) sound h =
    let e = sound q refl in let c≡x : c ≡ x = cc h in let q≡p : q ≡ p = cc h in cc (e, c≡x, q≡p)

strip_suffix_sound : (suffix s p : Bytes) → strip_suffix suffix s ≡ some p → s ≡ p ++ suffix
unfolding strip_suffix
strip_suffix_sound suffix [] p h = elim (Bool-cases (eq_bytes [] suffix)) [
  | inl same ↦ whole suffix [] p same (rw same at h)
  | inr other ↦ absurd (false≢true (cc (rw other at h)))
]
strip_suffix_sound suffix (c ∷ s) p h = elim (Bool-cases (eq_bytes (c ∷ s) suffix)) [
  | inl same ↦ whole suffix (c ∷ s) p same (rw same at h)
  | inr other ↦
      shorter c s suffix p (strip_suffix suffix s) (λ q. strip_suffix_sound suffix s q)
        (rw other at h)
]

pub strip_prefix_sound : (p s rest : Bytes) → strip_prefix p s ≡ some rest → s ≡ p ++ rest
strip_prefix_sound [] s rest h = cc
strip_prefix_sound (c ∷ p) [] rest h = absurd (cc h)
strip_prefix_sound (c ∷ p) (d ∷ s) rest h = ground (arith, strip_prefix_sound p s rest)

-- The last byte but one.
before_last : Bytes → ℕ
before_last [] = 0
before_last (a ∷ []) = 0
before_last (a ∷ b ∷ []) = a
before_last (a ∷ b ∷ c ∷ s) = before_last (b ∷ c ∷ s)

before_last-append : (s : Bytes) (a b : ℕ) → before_last (s ++ a ∷ b ∷ []) ≡ a
unfolding before_last
before_last-append [] a b = refl
before_last-append (x ∷ []) a b = refl
before_last-append (x ∷ y ∷ []) a b = refl
before_last-append (x ∷ y ∷ z ∷ s) a b = before_last-append (y ∷ z ∷ s) a b

pub append_nil : (s : Bytes) → s ++ [] ≡ s
append_nil [] = refl
append_nil (x ∷ s) = ap (λ t. x ∷ t) (append_nil s)

append_three : (s : Bytes) (a b c : ℕ) → s ++ a ∷ b ∷ c ∷ [] ≡ (s ++ a ∷ []) ++ b ∷ c ∷ []
append_three [] a b c = refl
append_three (x ∷ s) a b c = ap (λ t. x ∷ t) (append_three s a b c)

-- A text that ends in `/*` does not end in `/**`.
pub not_double : (p : Bytes) → strip_suffix (codes "/**") (p ++ codes "/*") ≡ none
not_double p = elim (Option-cases (strip_suffix (codes "/**") (p ++ codes "/*"))) [
  | inl e ↦ e
  | inr (q, e) ↦
      let same = strip_suffix_sound (codes "/**") (p ++ codes "/*") q e in
      let star : before_last (p ++ codes "/*") ≡ b'*' =
        ap before_last (same ∙ append_three q b'/' b'*' b'*')
        ∙ before_last-append (q ++ b'/' ∷ []) b'*' b'*' in
      let slash = before_last-append p b'/' b'*' in absurd (omega (arith, star, slash))
]
