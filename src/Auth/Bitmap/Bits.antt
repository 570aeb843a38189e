-- ===== src/Auth/Bitmap/Bits.antt =====
-- The bits of a byte string under `bytes[pos / 8] |= 1 << (pos % 8)`.
use Prim.Native.Nat.{bit_or}
use summerrs_admin.Base.{
  or_regroup, ℕ, suc, zero, ◌+◌, ◌/◌, ◌%◌, ◌^◌, ◌≤◌, ◌<◌, ◌≡◌, refl, Bool, true, false, ◌&&◌, ◌||◌,
  List, [], ◌∷◌, arith, ◌==◌, ltb, ltb→lt, ==_iff, Bool-cases, inl, inr, length, All, ap, sym, ◌∙◌,
}
use summerrs_admin.Auth.Bitmap.{maximum, zeros, or_bit, set_bits, test_bit}

front : (p q : Bool) → (p && q) ≡ true → p ≡ true
front true q h = refl
front false q h = h

second : (p q : Bool) → (p && q) ≡ true → q ≡ true
second true q h = h
second false q h = absurd (cc h)

-- The conjunction of a test over the numbers under a limit, which a table computes.
table : (ℕ → Bool) → ℕ → Bool
table test zero = true
table test (suc limit) = table test limit && test limit

table_entry : (test : ℕ → Bool) (limit x : ℕ) → x < limit → table test limit ≡ true → test x ≡ true
unfolding table
table_entry test zero x under full = absurd (omega arith)
table_entry test (suc limit) x under full = elim (Bool-cases (x == limit)) [
  | inl last ↦ ap test ((==_iff x limit).0 last) ∙ second (table test limit) (test limit) full
  | inr before ↦
      table_entry test limit x (ground (arith, before, under))
        (front (table test limit) (test limit) full)
]

-- Setting bit k of a byte: bit j afterwards, and whether it still is a byte.
abbrev after_set : ℕ → ℕ → ℕ → Bool
after_set b k j = test_bit (bit_or b (2 ^ k)) j

abbrev expected : ℕ → ℕ → ℕ → Bool
expected b k j = k == j || test_bit b j

abbrev agree : Bool → Bool → Bool
agree true q = q
agree false true = false
agree false false = true

agree→eq : (p q : Bool) → agree p q ≡ true → p ≡ q
agree→eq true q h = sym h
agree→eq false true h = h
agree→eq false false h = refl

bits_table :
    table (λ b. table (λ k. table (λ j. agree (after_set b k j) (expected b k j)) 8) 8) 256 ≡ true
unfolding table test_bit
bits_table = refl

bytes_table : table (λ b. table (λ k. ltb (bit_or b (2 ^ k)) 256) 8) 256 ≡ true
unfolding table
bytes_table = refl

set_bit_facts :
    (b k j : ℕ)
    → b < 256
    → k < 8
    → j < 8
    → (after_set b k j ≡ expected b k j) × (bit_or b (2 ^ k) < 256)
set_bit_facts b k j hb hk hj = (
  agree→eq _ _ (
      table_entry _ 8 j hj (
        table_entry _ 8 k hk (
          table_entry (λ b. table (λ k. table (λ j. agree (after_set b k j) (expected b k j)) 8) 8)
            256 b hb bits_table))),
  ltb→lt _ 256 (
      table_entry _ 8 k hk
        (table_entry (λ b. table (λ k. ltb (bit_or b (2 ^ k)) 256) 8) 256 b hb bytes_table)),
)

-- The bit at a position, as `decode` reads it; false past the end.
abbrev pub byte_at : List ℕ → ℕ → ℕ
byte_at [] i = 0
byte_at (b ∷ bs) zero = b
byte_at (b ∷ bs) (suc i) = byte_at bs i

abbrev pub has : List ℕ → ℕ → Bool
has bytes pos = test_bit (byte_at bytes (pos / 8)) (pos % 8)

abbrev pub IsByte : ℕ → Type 0
IsByte b = b < 256

abbrev pub elem : ℕ → List ℕ → Bool
elem n [] = false
elem n (m ∷ ms) = m == n || elem n ms

byte_at-or_bit :
    (bytes : List ℕ) (i k n j : ℕ)
    → All IsByte bytes
    → i < length bytes
    → k < 8
    → j < 8
    → test_bit (byte_at (or_bit bytes i k) n) j
      ≡ ((i == n && k == j) || test_bit (byte_at bytes n) j)
unfolding or_bit
byte_at-or_bit [] i k n j a hi hk hj = absurd (omega arith)
byte_at-or_bit (b ∷ bs) zero k zero j a hi hk hj = (set_bit_facts b k j a.0 hk hj).0
byte_at-or_bit (b ∷ bs) zero k (suc n) j a hi hk hj = ground arith
byte_at-or_bit (b ∷ bs) (suc i) k zero j a hi hk hj = ground arith
byte_at-or_bit (b ∷ bs) (suc i) k (suc n) j a hi hk hj =
    byte_at-or_bit bs i k n j a.1 (omega arith) hk hj
    ∙ ap (λ t. (t && k == j) || test_bit (byte_at bs n) j) (ground arith)

or_bit-IsByte :
    (bytes : List ℕ) (i k : ℕ) → All IsByte bytes → k < 8 → All IsByte (or_bit bytes i k)
unfolding or_bit
or_bit-IsByte [] i k a hk = tt
or_bit-IsByte (b ∷ bs) zero k a hk = ((set_bit_facts b k 0 a.0 hk (omega arith)).1, a.1)
or_bit-IsByte (b ∷ bs) (suc i) k a hk = (a.0, or_bit-IsByte bs i k a.1 hk)

pub length-or_bit : (bytes : List ℕ) (i k : ℕ) → length (or_bit bytes i k) ≡ length bytes
unfolding or_bit
length-or_bit [] i k = refl
length-or_bit (b ∷ bs) zero k = refl
length-or_bit (b ∷ bs) (suc i) k = ap suc (length-or_bit bs i k)

same_bit : (p q : ℕ) → (p / 8 == q / 8 && p % 8 == q % 8) ≡ (p == q)
same_bit p q = ground arith

has-or_bit :
    (bytes : List ℕ) (p q : ℕ)
    → All IsByte bytes
    → p / 8 < length bytes
    → has (or_bit bytes (p / 8) (p % 8)) q ≡ (p == q || has bytes q)
has-or_bit bytes p q a h =
    byte_at-or_bit bytes (p / 8) (p % 8) (q / 8) (q % 8) a h (omega arith) (omega arith)
    ∙ ap (λ t. t || has bytes q) (same_bit p q)

abbrev Fits : List ℕ → List ℕ → Type 0
Fits ps bytes = All (λ p. p / 8 < length bytes) ps

Fits-of : (ps bytes bytes' : List ℕ) → length bytes' ≡ length bytes → Fits ps bytes → Fits ps bytes'
Fits-of [] bytes bytes' e f = tt
Fits-of (p ∷ ps) bytes bytes' e f = (omega arith, Fits-of ps bytes bytes' e f.1)

-- Setting bits sets exactly those, keeps bytes bytes, and keeps the length.
set_bits-has :
    (ps bytes : List ℕ) (q : ℕ)
    → All IsByte bytes
    → Fits ps bytes
    → (has (set_bits ps bytes) q ≡ (elem q ps || has bytes q))
      × All IsByte (set_bits ps bytes)
      × (length (set_bits ps bytes) ≡ length bytes)
unfolding set_bits
set_bits-has [] bytes q a f = (refl, a, refl)
set_bits-has (p ∷ ps) bytes q a f =
    let bytes' = or_bit bytes (p / 8) (p % 8) in
    let same = length-or_bit bytes (p / 8) (p % 8) in
    let (now, ok, len) =
      set_bits-has ps bytes' q (or_bit-IsByte bytes (p / 8) (p % 8) a (omega arith))
        (Fits-of ps bytes bytes' same f.1) in
    (
      now
          ∙ ap (λ t. elem q ps || t) (has-or_bit bytes p q a f.0)
          ∙ or_regroup (elem q ps) (p == q) (has bytes q),
      ok,
      len ∙ same,
    )

length-zeros : (n : ℕ) → length (zeros n) ≡ n
length-zeros zero = refl
length-zeros (suc n) = ap suc (length-zeros n)

zeros-IsByte : (n : ℕ) → All IsByte (zeros n)
zeros-IsByte zero = tt
zeros-IsByte (suc n) = (omega arith, zeros-IsByte n)

byte_at-zeros : (n i : ℕ) → byte_at (zeros n) i ≡ 0
byte_at-zeros zero i = refl
byte_at-zeros (suc n) zero = refl
byte_at-zeros (suc n) (suc i) = byte_at-zeros n i

zero_byte : table (λ j. agree (test_bit 0 j) false) 8 ≡ true
unfolding table test_bit
zero_byte = refl

pub has-zeros : (n q : ℕ) → has (zeros n) q ≡ false
has-zeros n q = rw (byte_at-zeros n (q / 8)) (
    agree→eq _ false
      (table_entry (λ j. agree (test_bit 0 j) false) 8 (q % 8) (omega arith) zero_byte))

maximum-Fits :
    (all ps bytes : List ℕ)
    → maximum ps ≤ maximum all
    → maximum all / 8 + 1 ≤ length bytes
    → Fits ps bytes
maximum-Fits all [] bytes h k = tt
maximum-Fits all (p ∷ ps) bytes h k = (omega arith, maximum-Fits all ps bytes (omega arith) k)

or_false : (a : Bool) → (a || false) ≡ a
or_false true = refl
or_false false = refl

-- In the array that `encode` allocates, exactly the positions are set, and each of them is in
-- bounds.
pub encoded-has :
    (ps : List ℕ) (q : ℕ)
    → let bytes = set_bits ps (zeros (maximum ps / 8 + 1)) in
      (has bytes q ≡ elem q ps) × All IsByte bytes × (length bytes ≡ maximum ps / 8 + 1)
encoded-has ps q =
    let n = maximum ps / 8 + 1 in
    let len = length-zeros n in
    let (now, ok, same) =
      set_bits-has ps (zeros n) q (zeros-IsByte n)
        (maximum-Fits ps ps (zeros n) (omega arith) (omega arith)) in
    (now ∙ ap (λ t. elem q ps || t) (has-zeros n q) ∙ or_false (elem q ps), ok, same ∙ len)
