-- ===== src/Auth/Bitmap/Decoding.antt =====
-- The permissions that the decoding of a bitmap contains.
use summerrs_admin.Base.{
  ℕ, suc, zero, ◌+◌, ◌-◌, ◌*◌, ◌/◌, ◌%◌, ◌≤◌, ◌<◌, ◌≡◌, refl, Bool, false, ◌&&◌, ◌||◌, Option, none,
  some, List, [], ◌∷◌, arith, ◌==◌, ltb, leb, length, ap, sym, ◌∙◌, inl, inr, eq_bytes,
  eq_bytes_iff, eq_of_eq_bytes, Bool-cases, Option-cases, false≢true, ==_iff, leb→le, leb-false→lt,
}
use mathlib.Core.Path.{ap₂}
use summerrs_admin.Base.Text.{Bytes}
use summerrs_admin.Base.Word.{u32_mod}
use summerrs_admin.Auth.Bitmap.{
  PermissionMap, get_position, get_perm, test_bit, push_some, decode_byte, decode_bytes,
}
use summerrs_admin.Auth.Bitmap.Bits.{has, byte_at, has-zeros}

abbrev pub contains : Bytes → List Bytes → Bool
contains p [] = false
contains p (q ∷ qs) = eq_bytes q p || contains p qs

-- A position that is asked for.
abbrev is_at : Option ℕ → ℕ → Bool
is_at none n = false
is_at (some pos) n = pos == n

-- The two halves of the map agree: a name has a position exactly when the position has the name,
-- and positions are u32.
pub record IsConsistent (map : PermissionMap) : Type 0 where
  pub there : (p : Bytes) (n : ℕ) → get_position map p ≡ some n → get_perm map n ≡ some p
  pub back : (p : Bytes) (n : ℕ) → get_perm map n ≡ some p → get_position map p ≡ some n
  pub u32 : (p : Bytes) (n : ℕ) → get_position map p ≡ some n → n < u32_mod

module _ (map : PermissionMap) (ok : IsConsistent map) (p : Bytes) where
  -- Looking up a bit that is set finds `p` exactly at its position.
  found :
      (n : ℕ) (l : List Bytes)
      → contains p (push_some (get_perm map n) l) ≡ (is_at (get_position map p) n || contains p l)
  found n l = elim (Option-cases (get_perm map n)) [
    | inl unused ↦ elim (Option-cases (get_position map p)) [
      | inl unknown ↦ rw (unused, unknown)
      | inr (pos, e) ↦
          rw (unused, e)
            (elim (Bool-cases (pos == n)) [
              | inl at ↦ cc (ok.there p pos e, (==_iff pos n).0 at)
              | inr off ↦ rw off
            ])
    ]
    | inr (q, name) ↦ elim (Bool-cases (eq_bytes q p)) [
      | inl same ↦
          rw (name, same, ok.back p n (name ∙ ap some (eq_of_eq_bytes q p same))) (ground arith)
      | inr other ↦
          rw (name, other)
            (elim (Option-cases (get_position map p)) [
              | inl unknown ↦ rw unknown
              | inr (pos, e) ↦ rw e (elim (Bool-cases (pos == n)) [
                | inl at ↦ absurd (
                    false≢true (
                      sym other
                      ∙ (eq_bytes_iff q p).1 (cc (ok.there p pos e, (==_iff pos n).0 at, name))))
                | inr off ↦ rw off
              ])
            ])
    ]
  ]

  -- The bits of one byte that hold `p`.
  hit_bits : (i byte bit left : ℕ) → Bool
  hit_bits i byte bit zero = false
  hit_bits i byte bit (suc left) =
      (test_bit byte bit && is_at (get_position map p) (i * 8 + bit))
      || hit_bits i byte (bit + 1) left

  pub hit_bytes : ℕ → List ℕ → Bool
  hit_bytes i [] = false
  hit_bytes i (b ∷ bs) = hit_bits i b 0 8 || hit_bytes (i + 1) bs

  decode_byte-hit :
      (i byte bit left : ℕ) (after : List Bytes)
      → i * 8 + bit + left ≤ u32_mod
      → contains p (decode_byte map i byte bit left after)
        ≡ (hit_bits i byte bit left || contains p after)
  unfolding decode_byte hit_bits
  decode_byte-hit i byte bit zero after h = refl
  decode_byte-hit i byte bit (suc left) after h =
      let later = decode_byte map i byte (bit + 1) left after in
      let ih = decode_byte-hit i byte (bit + 1) left after (omega arith) in
      let n : (i * 8 + bit) % u32_mod ≡ i * 8 + bit = omega arith in
      elim (Bool-cases (test_bit byte bit)) [
        | inl on ↦ rw (on, n) (found (i * 8 + bit) later ∙ ground (arith, ih))
        | inr off ↦ rw off ih
      ]

  pub decode_bytes-hit :
      (i : ℕ) (bs : List ℕ)
      → (i + length bs) * 8 ≤ u32_mod
      → contains p (decode_bytes map i bs) ≡ hit_bytes i bs
  unfolding decode_bytes hit_bytes
  decode_bytes-hit i [] h = refl
  decode_bytes-hit i (b ∷ bs) h =
      decode_byte-hit i b 0 8 (decode_bytes map (i + 1) bs) (omega arith)
      ∙ ap (λ t. hit_bits i b 0 8 || t) (decode_bytes-hit (i + 1) bs (omega arith))

  hit_bits-unknown :
      (i byte bit left : ℕ) → get_position map p ≡ none → hit_bits i byte bit left ≡ false
  unfolding hit_bits
  hit_bits-unknown i byte bit zero e = refl
  hit_bits-unknown i byte bit (suc left) e =
      rw (e, hit_bits-unknown i byte (bit + 1) left e) (ground arith)

  pub hit_bytes-unknown : (i : ℕ) (bs : List ℕ) → get_position map p ≡ none → hit_bytes i bs ≡ false
  unfolding hit_bytes
  hit_bytes-unknown i [] e = refl
  hit_bytes-unknown i (b ∷ bs) e = rw (hit_bits-unknown i b 0 8 e, hit_bytes-unknown (i + 1) bs e)

  next_byte :
      (pos i : ℕ)
      → i * 8 + 8 ≤ pos
      → ((pos - i * 8) / 8 ≡ suc ((pos - (i + 1) * 8) / 8))
        × ((pos - i * 8) % 8 ≡ (pos - (i + 1) * 8) % 8)
  next_byte pos i h = omega arith

  low_byte : (pos i : ℕ) → pos < i * 8 + 8 → (pos - i * 8) / 8 ≡ 0
  low_byte pos i h = omega arith

  low_bit : (pos i : ℕ) → pos < i * 8 + 8 → (pos - i * 8) % 8 ≡ pos - i * 8
  low_bit pos i h = omega arith

  -- Of a byte, the bit of the position counts if it is among those still to be read.
  hit_bits-known :
      (pos i byte bit left : ℕ)
      → get_position map p ≡ some pos
      → hit_bits i byte bit left
        ≡ (leb (i * 8 + bit) pos && ltb pos (i * 8 + bit + left) && test_bit byte (pos - i * 8))
  unfolding hit_bits
  hit_bits-known pos i byte bit zero e = ground arith
  hit_bits-known pos i byte bit (suc left) e =
      rw (e, hit_bits-known pos i byte (bit + 1) left e)
        (elim (Bool-cases (pos == i * 8 + bit)) [
          | inl at ↦
              let here : test_bit byte (pos - i * 8) ≡ test_bit byte bit =
                ap (test_bit byte) (let q = (==_iff pos (i * 8 + bit)).0 at in omega arith) in
              ground arith
          | inr off ↦ ground arith
        ])

  pub hit_bytes-known :
      (pos i : ℕ) (bs : List ℕ)
      → get_position map p ≡ some pos
      → hit_bytes i bs ≡ (leb (i * 8) pos && has bs (pos - i * 8))
  unfolding hit_bytes
  hit_bytes-known pos i [] e = let z = has-zeros 0 (pos - i * 8) in ground arith
  hit_bytes-known pos i (b ∷ bs) e =
      let here = hit_bits-known pos i b 0 8 e in
      let later = hit_bytes-known pos (i + 1) bs e in
      elim (Bool-cases (leb (i * 8 + 8) pos)) [
        | inl beyond ↦
            let next : has (b ∷ bs) (pos - i * 8) ≡ has bs (pos - (i + 1) * 8) =
              ap₂ test_bit (ap (byte_at (b ∷ bs)) (next_byte pos i (leb→le _ _ beyond)).0)
                (next_byte pos i (leb→le _ _ beyond)).1 in
            ground (arith, here, later, next)
        | inr within ↦
            let first : pos < i * 8 + 8 = leb-false→lt (i * 8 + 8) pos within in
            let mine : has (b ∷ bs) (pos - i * 8) ≡ test_bit b (pos - i * 8) =
              ap₂ test_bit (ap (byte_at (b ∷ bs)) (low_byte pos i first)) (low_bit pos i first) in
            ground (arith, here, later, mine)
      ]
