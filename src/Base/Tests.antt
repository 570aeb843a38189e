-- ===== src/Base/Tests.antt =====
-- Boolean tests on the native numbers, the conditional, and case lemmas on computed values.
use Prim.Native.Nat.{ℕ, ◌≤◌, ◌<◌, compare, Ordering}
use mathlib.Core.Path.{◌≡◌, refl}
use mathlib.Core.Logic.{◌↔◌, ◌⊎◌, inl, inr}
use mathlib.Core.Bool.{Bool, true, false, ◌&&◌, ◌||◌}
use mathlib.Core.Option.{Option, none, some}
use mathlib.Core.List.{List, [], ◌∷◌}
use native.Mathlib.Omega.{arith}

abbrev pub ltb : ℕ → ℕ → Bool
ltb a b = elim (compare a b) [ Ordering.lt ↦ true | _ ↦ false ]

abbrev pub leb : ℕ → ℕ → Bool
leb a b = elim (compare a b) [ Ordering.gt ↦ false | _ ↦ true ]

infix 50 ◌==◌
abbrev pub ◌==◌ : ℕ → ℕ → Bool
a == b = elim (compare a b) [ Ordering.eq ↦ true | _ ↦ false ]

infix 1 if◌then◌else◌
abbrev pub if◌then◌else◌ {ℓ} : {A : Type ℓ} → Bool → A → A → A
if true then x else y = x
if false then x else y = y

pub ltb→lt : (a b : ℕ) → ltb a b ≡ true → a < b
ltb→lt a b h = ground arith

pub lt→ltb : (a b : ℕ) → a < b → ltb a b ≡ true
lt→ltb a b h = ground arith

pub ltb-false→le : (a b : ℕ) → ltb a b ≡ false → b ≤ a
ltb-false→le a b h = ground arith

pub leb→le : (a b : ℕ) → leb a b ≡ true → a ≤ b
leb→le a b h = ground arith

pub leb-false→lt : (a b : ℕ) → leb a b ≡ false → b < a
leb-false→lt a b h = ground arith

pub ==_iff : (a b : ℕ) → ((a == b) ≡ true) ↔ (a ≡ b)
==_iff a b = ground arith

pub Bool-cases : (b : Bool) → (b ≡ true) ⊎ (b ≡ false)
Bool-cases true = inl refl
Bool-cases false = inr refl

pub or_regroup : (a b c : Bool) → (a || (b || c)) ≡ ((b || a) || c)
or_regroup true true c = refl
or_regroup true false c = refl
or_regroup false true c = refl
or_regroup false false c = refl

pub or_assoc : (a b c : Bool) → ((a || b) || c) ≡ (a || (b || c))
or_assoc true b c = refl
or_assoc false b c = refl

pub Option-cases {ℓ} : {A : Type ℓ} (o : Option A) → (o ≡ none) ⊎ ((a : A) × (o ≡ some a))
Option-cases none = inl refl
Option-cases (some a) = inr (a, refl)

-- Equality of byte strings, the test `==` on `str`.
abbrev pub eq_bytes : List ℕ → List ℕ → Bool
eq_bytes [] [] = true
eq_bytes [] (y ∷ ys) = false
eq_bytes (x ∷ xs) [] = false
eq_bytes (x ∷ xs) (y ∷ ys) = x == y && eq_bytes xs ys

pub eq_of_eq_bytes : (xs ys : List ℕ) → eq_bytes xs ys ≡ true → xs ≡ ys
eq_of_eq_bytes [] [] h = refl
eq_of_eq_bytes [] (y ∷ ys) h = cc
eq_of_eq_bytes (x ∷ xs) [] h = cc
eq_of_eq_bytes (x ∷ xs) (y ∷ ys) h = ground (arith, eq_of_eq_bytes xs ys)

pub eq_bytes_refl : (xs : List ℕ) → eq_bytes xs xs ≡ true
eq_bytes_refl [] = refl
eq_bytes_refl (x ∷ xs) = ground (arith, eq_bytes_refl xs)

pub eq_bytes_iff : (xs ys : List ℕ) → (eq_bytes xs ys ≡ true) ↔ (xs ≡ ys)
eq_bytes_iff xs ys = (eq_of_eq_bytes xs ys, λ e. rw e (eq_bytes_refl ys))
