-- ===== src/Auth/UserType/Roundtrips.antt =====
-- Texts of login ids and device types are read back.
use summerrs_admin.Base.{
  ℕ, suc, ◌+◌, ◌≤◌, ◌<◌, ◌≡◌, ◌≢◌, refl, ap, sym, ◌∙◌, true, false, some, [], ◌∷◌, any, ◌==◌, leb,
  length, if◌then◌else◌, eq_bytes, eq_of_eq_bytes, Bool-cases, inl, inr, All, arith,
}
use summerrs_admin.Base.Text.{Bytes, decimal, decimal-digits, decimal-value, value_from, IsDigit}
use summerrs_admin.Base.Word.{ℤ, pos, negsuc, i64_max}
use summerrs_admin.Auth.UserType.{
  encode_id, decode_id, all_digits, is_number, parse_pos, parse_neg, parse_i64, negated, DeviceType,
  as_str, device_from, web, android, ios, mini_program, tablet, desktop,
}

digits-All : (s : Bytes) → All IsDigit s → all_digits s ≡ true
digits-All [] h = refl
digits-All (b ∷ s) h = ground (arith, digits-All s h.1)

no_colon : (s : Bytes) → All IsDigit s → any (λ b. b == b':') s ≡ false
no_colon [] h = refl
no_colon (b ∷ s) h = ground (arith, no_colon s h.1)

chosen :
    (s t : Bytes) (d e : DeviceType)
    → as_str d ≡ t
    → (eq_bytes s t ≡ false → as_str e ≡ s)
    → as_str (if eq_bytes s t then d else e) ≡ s
chosen s t d e name other = elim (Bool-cases (eq_bytes s t)) [
  | inl same ↦ rw same (name ∙ sym (eq_of_eq_bytes s t same))
  | inr differs ↦ rw differs (other differs)
]

-- The text of the device type that a text stands for is that text.
pub as_str-device_from : (s : Bytes) → as_str (device_from s) ≡ s
unfolding device_from
as_str-device_from s = chosen s _ web _ refl (λ _. chosen s _ android _ refl (λ _.
    chosen s _ ios _ refl (λ _.
      chosen s _ mini_program _ refl
        (λ _. chosen s _ tablet _ refl (λ _. chosen s _ desktop _ refl (λ _. refl))))))

-- The ids that fit in an i64.
abbrev pub IsI64 : ℤ → Type 0
IsI64 (pos n) = n ≤ i64_max
IsI64 (negsuc n) = n ≤ i64_max

nonempty : (n : ℕ) (s : Bytes) → decimal n ≡ s → s ≢ []
unfolding decimal
nonempty n [] e =
    let value = decimal-value n in
    let zeroed : n ≡ 0 = sym value ∙ ap (value_from 0) e in
    let text : decimal 0 ≡ [] = ap decimal (sym zeroed) ∙ e in absurd (cc text)
nonempty n (b ∷ s) e = λ gone. cc gone

plus_one : (n : ℕ) → n + 1 ≡ suc n
plus_one n = omega arith

differs : (a b : ℕ) → b < a → (a == b) ≡ false
differs a b h = ground arith

in_range :
    (s : Bytes)
    → is_number s ≡ true
    → leb (value_from 0 s) i64_max ≡ true
    → parse_pos s ≡ some (pos (value_from 0 s))
in_range s ok fits = rw (ok, fits) refl

below_zero :
    (s : Bytes) (n : ℕ)
    → is_number s ≡ true
    → value_from 0 s ≡ n + 1
    → leb (n + 1) (i64_max + 1) ≡ true
    → parse_neg s ≡ some (negsuc n)
below_zero s n ok e fits = rw (ok, e, fits) (ap (λ m. some (negated m)) (plus_one n))

unsigned : (b : ℕ) (s : Bytes) → IsDigit b → parse_i64 (b ∷ s) ≡ parse_pos (b ∷ s)
unsigned b s digit =
    rw (differs b b'-' (omega (arith, digit)), differs b b'+' (omega (arith, digit))) refl

parse_digits :
    (s : Bytes)
    → All IsDigit s
    → s ≢ []
    → value_from 0 s ≤ i64_max
    → parse_i64 s ≡ some (pos (value_from 0 s))
parse_digits [] digits full h = absurd (full refl)
parse_digits (b ∷ s) digits full h =
    unsigned b s digits.0 ∙ in_range (b ∷ s) (digits-All (b ∷ s) digits) (ground arith)

parse_minus :
    (s : Bytes) (n : ℕ)
    → All IsDigit s
    → s ≢ []
    → value_from 0 s ≡ n + 1
    → n ≤ i64_max
    → parse_i64 (b'-' ∷ s) ≡ some (negsuc n)
parse_minus [] n digits full e h = absurd (full refl)
parse_minus (b ∷ s) n digits full e h =
    below_zero (b ∷ s) n (digits-All (b ∷ s) digits) e (ground arith)

positive : (n : ℕ) → (suc n == 0) ≡ false
positive n = ground arith

decode_parsed :
    (s : Bytes) (n : ℤ)
    → s ≢ []
    → any (λ b. b == b':') s ≡ false
    → parse_i64 s ≡ some n
    → decode_id s ≡ some (record { user_id = n })
unfolding decode_id
decode_parsed [] n full plain e = absurd (full refl)
decode_parsed (b ∷ s) n full plain e = rw (plain, e, positive (length s)) refl

pub parse-decimal : (n : ℕ) → n ≤ i64_max → parse_i64 (decimal n) ≡ some (pos n)
parse-decimal n h =
    let value = decimal-value n in
    parse_digits (decimal n) (decimal-digits n) (nonempty n (decimal n) refl) (omega (arith, value))
    ∙ ap (λ m. some (pos m)) value

-- A login id of an i64 is read back from its text.
pub decode_id-encode_id :
    (n : ℤ)
    → IsI64 n
    → decode_id (encode_id (record { user_id = n })) ≡ some (record { user_id = n })
unfolding encode_id
decode_id-encode_id (pos n) h =
    let digits = decimal-digits n in
    decode_parsed (decimal n) (pos n) (nonempty n (decimal n) refl) (no_colon (decimal n) digits)
      (parse-decimal n h)
decode_id-encode_id (negsuc n) h =
    let digits = decimal-digits (n + 1) in
    let full = nonempty (n + 1) (decimal (n + 1)) refl in
    decode_parsed (b'-' ∷ decimal (n + 1)) (negsuc n) (λ e. cc e)
      (no_colon (decimal (n + 1)) digits)
      (parse_minus (decimal (n + 1)) n digits full (decimal-value (n + 1)) h)
