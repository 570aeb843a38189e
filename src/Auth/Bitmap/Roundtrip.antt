-- ===== src/Auth/Bitmap/Roundtrip.antt =====
-- Decoding what was encoded gives back the permissions that the map knows.
use summerrs_admin.Base.{
  ℕ, ◌+◌, ◌-◌, ◌*◌, ◌/◌, ◌≤◌, ◌<◌, ◌≡◌, refl, ◌⊎◌, Bool, true, false, ◌&&◌, ◌||◌, Option, none,
  some, List, [], ◌∷◌, arith, ◌==◌, leb, length, All, ap, sym, ◌∙◌, inl, inr, eq_bytes,
  eq_bytes_iff, eq_of_eq_bytes, Bool-cases, Option-cases, false≢true, ==_iff,
}
use mathlib.Core.Path.{ap₂}
use summerrs_admin.Base.Text.{Bytes}
use summerrs_admin.Base.Word.{u32_mod}
use summerrs_admin.Auth.Bitmap.{
  PermissionMap, get_position, positions, maximum, zeros, set_bits, encode_positions, encode_bytes,
  decode_bytes, encode, decode,
}
use summerrs_admin.Auth.Bitmap.Bits.{has, elem, IsByte, encoded-has}
use summerrs_admin.Auth.Bitmap.Decoding.{
  contains, IsConsistent, decode_bytes-hit, hit_bytes-unknown, hit_bytes-known,
}

from_start :
    (bytes : List ℕ) (pos : ℕ) → (leb (0 * 8) pos && has bytes (pos - 0 * 8)) ≡ has bytes pos
from_start bytes pos =
    ap₂ (λ t n. t && has bytes n) (let t : leb (0 * 8) pos ≡ true = ground arith in t) (omega arith)

-- Only the permissions that the map knows have a position.
abbrev pub is_known : Option ℕ → Bool
is_known none = false
is_known (some pos) = true

module _ (map : PermissionMap) (ok : IsConsistent map) where
  same_name :
      (p q : Bytes) (pos n : ℕ)
      → get_position map p ≡ some pos
      → get_position map q ≡ some n
      → (n == pos) ≡ eq_bytes q p
  same_name p q pos n e known = elim (Bool-cases (eq_bytes q p)) [
    | inl same ↦
        let q≡p = eq_of_eq_bytes q p same in
        let s : some n ≡ some pos = cc (q≡p, e, known) in
        let t : n ≡ pos = cc s in rw same ((==_iff n pos).1 t)
    | inr other ↦ elim (Bool-cases (n == pos)) [
      | inl at ↦
          let names : some q ≡ some p =
            cc (ok.there q n known, ok.there p pos e, (==_iff n pos).0 at) in
          absurd (false≢true (sym other ∙ (eq_bytes_iff q p).1 (cc names)))
      | inr off ↦ off ∙ sym other
    ]
  ]

  -- The positions that `encode` sets.
  elem-positions :
      (p : Bytes) (pos : ℕ) (perms : List Bytes)
      → get_position map p ≡ some pos
      → elem pos (positions map perms) ≡ contains p perms
  unfolding positions
  elem-positions p pos [] e = refl
  elem-positions p pos (q ∷ perms) e = elim (Option-cases (get_position map q)) [
    | inl unknown ↦ elim (Bool-cases (eq_bytes q p)) [
      | inl same ↦
          let q≡p = eq_of_eq_bytes q p same in
          let no : none ≡ some pos = cc (q≡p, e, unknown) in absurd (cc no)
      | inr other ↦ rw (unknown, other) (elem-positions p pos perms e)
    ]
    | inr (n, known) ↦
        rw known (ap₂ (λ a b. a || b) (same_name p q pos n e known) (elem-positions p pos perms e))
  ]

  maximum-positions : (perms : List Bytes) → maximum (positions map perms) < u32_mod
  unfolding positions
  maximum-positions [] = omega arith
  maximum-positions (q ∷ perms) = elim (Option-cases (get_position map q)) [
    | inl unknown ↦ rw unknown (maximum-positions perms)
    | inr (n, known) ↦
        rw known (let a = ok.u32 q n known in let b = maximum-positions perms in omega arith)
  ]

  array : List ℕ → List ℕ
  array ps = set_bits ps (zeros (maximum ps / 8 + 1))

  array-IsByte : (ps : List ℕ) → All IsByte (array ps)
  unfolding array
  array-IsByte ps = (encoded-has ps 0).1

  and_true : (b : Bool) → (b && true) ≡ b
  and_true true = refl
  and_true false = refl

  and_false : (b : Bool) → (b && false) ≡ false
  and_false true = refl
  and_false false = refl

  decoded_array :
      (p : Bytes) (perms : List Bytes)
      → contains p (decode_bytes map 0 (array (positions map perms)))
        ≡ (contains p perms && is_known (get_position map p))
  unfolding array
  decoded_array p perms =
      let ps = positions map perms in
      let bytes = array ps in
      let short : (0 + length bytes) * 8 ≤ u32_mod =
        let e = (encoded-has ps 0).2 in let m = maximum-positions perms in omega arith in
      decode_bytes-hit map ok p 0 bytes short ∙ elim (Option-cases (get_position map p)) [
        | inl unknown ↦
            rw unknown
              (hit_bytes-unknown map ok p 0 bytes unknown ∙ sym (and_false (contains p perms)))
        | inr (pos, e) ↦ rw e (
            hit_bytes-known map ok p pos 0 bytes e
            ∙ from_start bytes pos
            ∙ (encoded-has ps pos).0
            ∙ elem-positions p pos perms e
            ∙ sym (and_true (contains p perms)))
      ]

  module _ (b64_encode : List ℕ → Bytes) (b64_decode : Bytes → Option (List ℕ))
      (b64_law : (bytes : List ℕ) → All IsByte bytes → b64_decode (b64_encode bytes) ≡ some bytes)
      (perms : List Bytes) where
    encode-array :
        (ps : List ℕ)
        → positions map perms ≡ ps
        → (encode b64_encode perms map ≡ none) × (ps ≡ [])
          ⊎ (encode b64_encode perms map ≡ some (b64_encode (array ps)))
    unfolding encode encode_bytes array
    encode-array [] e = inl (
      ap (λ ps. elim (encode_positions ps) [ none ↦ none | some bytes ↦ some (b64_encode bytes) ])
          e,
      refl,
    )
    encode-array (p ∷ ps) e = inr (
        ap (λ ps. elim (encode_positions ps) [ none ↦ none | some bytes ↦ some (b64_encode bytes) ])
          e)

    -- In a map whose two halves agree, if `encode` returns a text then decoding it gives exactly
    -- the permissions of the list that the map knows, where the base64 crate decodes what it
    -- encoded.
    pub encode-decode :
        (pb p : Bytes)
        → encode b64_encode perms map ≡ some pb
        → contains p (decode b64_decode pb map)
          ≡ (contains p perms && is_known (get_position map p))
    unfolding decode
    encode-decode pb p h = elim (encode-array (positions map perms) refl) [
      | inl (e, gone) ↦ let no : none ≡ some pb = sym e ∙ h in absurd (cc no)
      | inr e ↦
          let bytes = array (positions map perms) in
          let same : some (b64_encode bytes) ≡ some pb = sym e ∙ h in
          let text : b64_encode bytes ≡ pb = cc same in
          let law : b64_decode pb ≡ some bytes =
            ap b64_decode (sym text) ∙ b64_law bytes (array-IsByte (positions map perms)) in
          rw law (decoded_array p perms)
    ]
