-- ===== src/Auth/Bitmap.antt =====
-- crates/summer-auth/src/bitmap.rs: permissions as bits of a base64 text. A `HashMap` is an
-- association list with the latest insertion first. The base64 crate is a parameter.
pub mod Bits
pub mod Decoding
pub mod Roundtrip
use summerrs_admin.Base.{
  ℕ, suc, zero, ◌+◌, ◌*◌, ◌/◌, ◌%◌, ◌^◌, ◌≤◌, ◌<◌, ◌≡◌, refl, max, Bool, true, false, not, Option,
  none, some, List, [], ◌∷◌, ◌++◌, arith, ◌==◌, if◌then◌else◌, eq_bytes, length,
}
use Prim.Native.Nat.{bit_and, bit_or}
use summerrs_admin.Base.Text.{Bytes}
use summerrs_admin.Base.Word.{u32_mod}

pub record PermissionMap : Type 0 where
  pub forward : List (Bytes × ℕ)
  pub reverse : List (ℕ × Bytes)

-- `collect` of a `HashMap`: later pairs replace earlier ones.
abbrev collect {ℓ} : {A : Type ℓ} → List A → List A → List A
collect [] m = m
collect (x ∷ xs) m = collect xs (x ∷ m)

abbrev swapped : List (Bytes × ℕ) → List (ℕ × Bytes)
swapped [] = []
swapped ((perm, pos) ∷ xs) = (pos, perm) ∷ swapped xs

-- `PermissionMap::new`
unfoldable pub new_map : List (Bytes × ℕ) → PermissionMap
new_map mapping = record { forward = collect mapping []; reverse = collect (swapped mapping) [] }

abbrev pub lookup_name : Bytes → List (Bytes × ℕ) → Option ℕ
lookup_name perm [] = none
lookup_name perm ((p, pos) ∷ m) = if eq_bytes p perm then some pos else lookup_name perm m

abbrev pub lookup_bit : ℕ → List (ℕ × Bytes) → Option Bytes
lookup_bit pos [] = none
lookup_bit pos ((b, perm) ∷ m) = if b == pos then some perm else lookup_bit pos m

unfoldable pub get_position : PermissionMap → Bytes → Option ℕ
get_position map perm = lookup_name perm map.forward

unfoldable pub get_perm : PermissionMap → ℕ → Option Bytes
get_perm map pos = lookup_bit pos map.reverse

-- The positions of the permissions that the map knows.
abbrev cons_some : Option ℕ → List ℕ → List ℕ
cons_some none l = l
cons_some (some pos) l = pos ∷ l

unfoldable pub positions : PermissionMap → List Bytes → List ℕ
positions map [] = []
positions map (p ∷ perms) = cons_some (get_position map p) (positions map perms)

abbrev pub maximum : List ℕ → ℕ
maximum [] = 0
maximum (n ∷ ns) = max n (maximum ns)

abbrev pub zeros : ℕ → List ℕ
zeros zero = []
zeros (suc n) = 0 ∷ zeros n

-- `bytes[i] |= 1 << k`
unfoldable pub or_bit : List ℕ → ℕ → ℕ → List ℕ
or_bit [] i k = []
or_bit (b ∷ bs) zero k = bit_or b (2 ^ k) ∷ bs
or_bit (b ∷ bs) (suc i) k = b ∷ or_bit bs i k

unfoldable pub set_bits : List ℕ → List ℕ → List ℕ
unfolding or_bit
set_bits [] bytes = bytes
set_bits (pos ∷ ps) bytes = set_bits ps (or_bit bytes (pos / 8) (pos % 8))

abbrev encode_positions : List ℕ → Option (List ℕ)
encode_positions [] = none
encode_positions (p ∷ ps) = some (set_bits (p ∷ ps) (zeros (maximum (p ∷ ps) / 8 + 1)))

-- The bytes of `encode`, before base64.
unfoldable pub encode_bytes : PermissionMap → List Bytes → Option (List ℕ)
unfolding set_bits positions
encode_bytes map perms = encode_positions (positions map perms)

-- `byte & (1 << bit) != 0`
unfoldable pub test_bit : ℕ → ℕ → Bool
test_bit byte bit = not (bit_and byte (2 ^ bit) == 0)

abbrev push_some : Option Bytes → List Bytes → List Bytes
push_some none l = l
push_some (some p) l = p ∷ l

-- The inner loop of `decode`, from `bit` on, with `left` rounds to go.
unfoldable pub decode_byte : PermissionMap → (byte_idx byte bit left : ℕ) → List Bytes → List Bytes
decode_byte map i byte bit zero after = after
decode_byte map i byte bit (suc left) after =
    let later = decode_byte map i byte (bit + 1) left after in
    if test_bit byte bit then push_some (get_perm map ((i * 8 + bit) % u32_mod)) later else later

-- The outer loop, from the byte with index `i` on.
unfoldable pub decode_bytes : PermissionMap → ℕ → List ℕ → List Bytes
unfolding decode_byte
decode_bytes map i [] = []
decode_bytes map i (b ∷ bs) = decode_byte map i b 0 8 (decode_bytes map (i + 1) bs)

module _ (b64_encode : List ℕ → Bytes) where
  unfoldable pub encode : List Bytes → PermissionMap → Option Bytes
  unfolding encode_bytes
  encode permissions map = elim (encode_bytes map permissions) [
    | none ↦ none
    | some bytes ↦ some (b64_encode bytes)
  ]

abbrev or_default : Option (List ℕ) → List ℕ
or_default none = []
or_default (some bytes) = bytes

module _ (b64_decode : Bytes → Option (List ℕ)) where
  unfoldable pub decode : Bytes → PermissionMap → List Bytes
  unfolding decode_bytes
  decode pb map = decode_bytes map 0 (or_default (b64_decode pb))
