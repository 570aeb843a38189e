-- ===== src/Base/Text.antt =====
-- Text as the program handles it: the bytes of a `str`, `format!` of numbers, and splitting at a
-- separator.
use Prim.Native.Nat.{ℕ, zero, suc, ◌+◌, ◌-◌, ◌*◌, ◌/◌, ◌%◌, ◌≤◌, ◌<◌}
use Prim.Native.Char.{code}
use Prim.Native.String.{String}
use mathlib.Core.Path.{◌≡◌, refl, ap, sym, ◌∙◌}
use mathlib.Core.Logic.{◌≢◌, inl, inr}
use mathlib.Core.Bool.{Bool, true, false, ◌&&◌}
use mathlib.Core.Option.{Option, none, some}
use mathlib.Core.List.{List, [], ◌∷◌, ◌++◌}
use native.Mathlib.Omega.{arith}
use summerrs_admin.Base.Tests.{eq_bytes, ltb, ◌==◌, if◌then◌else◌, Bool-cases}
use summerrs_admin.Base.Lists.{All}

abbrev pub Bytes : Type 0
Bytes = List ℕ

-- The bytes of an ASCII literal.
abbrev pub codes : String → Bytes
codes String.[] = []
codes (String.◌∷◌ c s) = code c ∷ codes s

-- `str::starts_with`
abbrev pub starts_with : Bytes → Bytes → Bool
starts_with s [] = true
starts_with [] (p ∷ ps) = false
starts_with (c ∷ s) (p ∷ ps) = c == p && starts_with s ps

-- `str::strip_prefix`
abbrev pub strip_prefix : Bytes → Bytes → Option Bytes
strip_prefix [] s = some s
strip_prefix (p ∷ ps) [] = none
strip_prefix (p ∷ ps) (c ∷ s) = let rest = strip_prefix ps s in if c == p then rest else none

abbrev pub cons_prefix : ℕ → Option Bytes → Option Bytes
cons_prefix c none = none
cons_prefix c (some s) = some (c ∷ s)

-- `str::strip_suffix`
unfoldable pub strip_suffix : (suffix s : Bytes) → Option Bytes
strip_suffix suffix [] = if eq_bytes [] suffix then some [] else none
strip_suffix suffix (c ∷ s) =
    let shorter = cons_prefix c (strip_suffix suffix s) in
    if eq_bytes (c ∷ s) suffix then some [] else shorter

pub strip_prefix-append : (p s : Bytes) → strip_prefix p (p ++ s) ≡ some s
strip_prefix-append [] s = refl
strip_prefix-append (c ∷ p) s = ground (arith, strip_prefix-append p s)

pub starts_with-append : (p s : Bytes) → starts_with (p ++ s) p ≡ true
starts_with-append [] s = refl
starts_with-append (c ∷ p) s = ground (arith, starts_with-append p s)

-- The decimal digits of a number, in front of `acc`; more fuel than the number is enough.
decimal_from : ℕ → ℕ → Bytes → Bytes
decimal_from zero n acc = acc
decimal_from (suc f) n acc =
    let more = decimal_from f (n / 10) ((b'0' + n % 10) ∷ acc) in
    if ltb n 10 then (b'0' + n) ∷ acc else more

-- `n.to_string()`
unfoldable pub decimal : ℕ → Bytes
unfolding decimal_from
decimal n = decimal_from (suc n) n []

-- The number that a run of digits stands for, after the digits read so far.
abbrev pub value_from : ℕ → Bytes → ℕ
value_from v [] = v
value_from v (d ∷ ds) = value_from (v * 10 + (d - b'0')) ds

abbrev pub IsDigit : ℕ → Type 0
IsDigit d = (b'0' ≤ d) × (d ≤ b'9')

decimal_from-digits : (f n : ℕ) (acc : Bytes) → All IsDigit acc → All IsDigit (decimal_from f n acc)
unfolding decimal_from
decimal_from-digits zero n acc h = h
decimal_from-digits (suc f) n acc h =
    ground (arith, decimal_from-digits f (n / 10) ((b'0' + n % 10) ∷ acc) (omega arith, h))

pub decimal-digits : (n : ℕ) → All IsDigit (decimal n)
unfolding decimal
decimal-digits n = decimal_from-digits (suc n) n [] tt

-- Reading the digits gives the number back: with enough fuel no digit is lost.
decimal_from-value :
    (f n : ℕ) (acc : Bytes) → n < f → value_from 0 (decimal_from f n acc) ≡ value_from n acc
unfolding decimal_from
decimal_from-value zero n acc h = absurd (omega arith)
decimal_from-value (suc f) n acc h = elim (Bool-cases (ltb n 10)) [
  | inl small ↦ rw small (ap (λ v. value_from v acc) (omega arith))
  | inr large ↦
      rw large
        (decimal_from-value f (n / 10) _ (ground arith) ∙ ap (λ v. value_from v acc) (omega arith))
]

pub decimal-value : (n : ℕ) → value_from 0 (decimal n) ≡ n
unfolding decimal
decimal-value n = decimal_from-value (suc n) n [] (omega arith)

pub decimal-injective : (n m : ℕ) → decimal n ≡ decimal m → n ≡ m
decimal-injective n m e = sym (decimal-value n) ∙ ap (value_from 0) e ∙ decimal-value m

-- A text without the byte `c`.
abbrev pub Without : ℕ → Bytes → Type 0
Without c = All (λ b. b ≢ c)

pub digits-Without : (c : ℕ) (s : Bytes) → b'9' < c → All IsDigit s → Without c s
digits-Without c [] h d = tt
digits-Without c (b ∷ s) h (d, ds) = (λ e. omega arith, digits-Without c s h ds)

-- The first separator is found again.
pub split_unique :
    (c : ℕ) (a a' b b' : Bytes)
    → Without c a
    → Without c a'
    → a ++ (c ∷ b) ≡ a' ++ (c ∷ b')
    → (a ≡ a') × (b ≡ b')
split_unique c [] [] b b' h h' e = (refl, cc)
split_unique c [] (x ∷ a') b b' h h' e = absurd (h'.0 (cc))
split_unique c (x ∷ a) [] b b' h h' e = absurd (h.0 (cc))
split_unique c (x ∷ a) (y ∷ a') b b' h h' e =
    let (p, q) = split_unique c a a' b b' h.1 h'.1 (cc) in (cc, q)
