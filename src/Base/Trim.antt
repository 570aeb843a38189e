-- ===== src/Base/Trim.antt =====
-- `str::trim` on the bytes of a text: Unicode white space in its UTF-8 form, at both ends.
use Prim.Native.Nat.{ℕ, zero, suc}
use mathlib.Core.Bool.{Bool, ◌&&◌, ◌||◌}
use mathlib.Core.List.{[], ◌∷◌, reverse}
use summerrs_admin.Base.Tests.{leb, ◌==◌, if◌then◌else◌}
use summerrs_admin.Base.Text.{Bytes}

-- White space of one byte, of two, and of three.
abbrev pub space_one : ℕ → Bool
space_one a = (leb 9 a && leb a 13) || a == 32

abbrev space_two : ℕ → ℕ → Bool
space_two a b = a == 0xC2 && (b == 0x85 || b == 0xA0)

abbrev space_three : ℕ → ℕ → ℕ → Bool
space_three a b c =
    (a == 0xE1 && b == 0x9A && c == 0x80)
    || (a == 0xE2
        && b == 0x80
        && ((leb 0x80 c && leb c 0x8A) || c == 0xA8 || c == 0xA9 || c == 0xAF))
    || (a == 0xE2 && b == 0x81 && c == 0x9F)
    || (a == 0xE3 && b == 0x80 && c == 0x80)

-- How many bytes the white space at the front has; none if there is none.
abbrev pub front_space : Bytes → ℕ
front_space [] = 0
front_space (a ∷ []) = if space_one a then 1 else 0
front_space (a ∷ b ∷ []) = if space_one a then 1 else if space_two a b then 2 else 0
front_space (a ∷ b ∷ c ∷ s) =
    if space_one a then 1 else if space_two a b then 2 else if space_three a b c then 3 else 0

-- The same at the end of a text that is read backwards.
abbrev back_space : Bytes → ℕ
back_space [] = 0
back_space (a ∷ []) = if space_one a then 1 else 0
back_space (b ∷ a ∷ []) = if space_one b then 1 else if space_two a b then 2 else 0
back_space (c ∷ b ∷ a ∷ s) =
    if space_one c then 1 else if space_two b c then 2 else if space_three a b c then 3 else 0

-- Drops white space, `skip` bytes of which have been recognised.
drop_space : (Bytes → ℕ) → (skip : ℕ) → Bytes → Bytes
drop_space space skip [] = []
drop_space space (suc skip) (b ∷ s) = drop_space space skip s
drop_space space zero (b ∷ s) = elim (space (b ∷ s)) [
  | zero ↦ b ∷ s
  | suc skip ↦ drop_space space skip s
]

unfoldable pub trim_start : Bytes → Bytes
unfolding drop_space
trim_start s = drop_space front_space 0 s

unfoldable pub trim_end : Bytes → Bytes
unfolding drop_space
trim_end s = reverse (drop_space back_space 0 (reverse s))

unfoldable pub trim : Bytes → Bytes
unfolding trim_start trim_end
trim s = trim_end (trim_start s)
