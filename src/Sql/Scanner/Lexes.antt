-- ===== src/Sql/Scanner/Lexes.antt =====
-- What the bytes of one SQL statement are made of: words, strings, quoted identifiers, comments,
-- dollar quotes and other bytes. The relations read from the left; the last index is what is left.
-- `word` and `other` leave out the places where another piece opens.
use summerrs_admin.Base.{
  ℕ, ◌+◌, ◌-◌, ◌≤◌, ◌<◌, ◌≡◌, ◌≢◌, Bool, true, false, List, [], ◌∷◌, ◌++◌, any, All, eq_bytes,
}
use summerrs_admin.Base.Text.{Bytes, codes, starts_with, Without}
use summerrs_admin.Sql.Scanner.{starts_word, in_word, lowercase}

-- Behind an opening quote `q`, up to the closing one; `q` twice is a quote inside.
pub data Quoted (q : ℕ) : Bytes → Bytes → Type 0 where
  close : (b : ℕ) (r : Bytes) → b ≡ q → starts_with r (q ∷ []) ≡ false → Quoted q (b ∷ r) r
  twice : (b c : ℕ) {s r : Bytes} → b ≡ q → c ≡ q → Quoted q s r → Quoted q (b ∷ c ∷ s) r
  plain : (b : ℕ) {s r : Bytes} → b ≢ q → Quoted q s r → Quoted q (b ∷ s) r

-- Behind the opening of a comment, `depth` of which are open.
pub data Commented : (depth : ℕ) → Bytes → Bytes → Type 0 where
  nest :
      (depth : ℕ) (s t r : Bytes)
      → s ≡ codes "/*" ++ t
      → Commented (depth + 1) t r
      → Commented depth s r
  unnest :
      (depth : ℕ) (s t r : Bytes)
      → s ≡ codes "*/" ++ t
      → 1 < depth
      → Commented (depth - 1) t r
      → Commented depth s r
  last : (depth : ℕ) (s r : Bytes) → s ≡ codes "*/" ++ r → depth ≤ 1 → Commented depth s r
  inside :
      (depth b : ℕ) (s r : Bytes)
      → starts_with (b ∷ s) (codes "/*") ≡ false
      → starts_with (b ∷ s) (codes "*/") ≡ false
      → Commented depth s r
      → Commented depth (b ∷ s) r

-- Behind the opening tag of a dollar quote, up to the first time that the tag stands again.
pub data Tagged (tag : Bytes) : Bytes → Bytes → Type 0 where
  found : (s r : Bytes) → s ≡ tag ++ r → Tagged tag s r
  before :
      (b : ℕ) (s r : Bytes)
      → starts_with (b ∷ s) tag ≡ false
      → Tagged tag s r
      → Tagged tag (b ∷ s) r

-- What opens a string, and a quoted identifier.
abbrev pub opens_string : Bytes → Bool
opens_string p =
    any (eq_bytes p) (codes "'" ∷ codes "E'" ∷ codes "e'" ∷ codes "U&'" ∷ codes "u&'" ∷ [])

abbrev pub opens_identifier : Bytes → Bool
opens_identifier p = any (eq_bytes p) (codes "\"" ∷ codes "U&\"" ∷ codes "u&\"" ∷ [])

-- No prefix of a string or of a quoted identifier stands here, so a letter is one of a word.
abbrev pub NoPrefix : Bytes → Type 0
NoPrefix s =
    All (λ p. starts_with s p ≡ false)
      (codes "E'" ∷ codes "e'" ∷ codes "U&'" ∷ codes "u&'" ∷ codes "U&\"" ∷ codes "u&\"" ∷ [])

-- No tag of a dollar quote stands here.
abbrev pub NoTag : Bytes → Type 0
NoTag s = (name r : Bytes) → All (λ b. in_word b ≡ true) name → s ≢ b'$' ∷ (name ++ b'$' ∷ r)

-- A byte, with the text behind it, at which no other piece opens, and no semicolon.
abbrev pub IsOther : ℕ → Bytes → Type 0
IsOther b r =
    (starts_word b ≡ false)
    × (b ≢ b';')
    × (b ≢ b'\'')
    × (b ≢ b'"')
    × (starts_with (b ∷ r) (codes "--") ≡ false)
    × (starts_with (b ∷ r) (codes "/*") ≡ false)
    × NoTag (b ∷ r)

-- The first byte.
abbrev pub first : Bytes → Bytes
first [] = []
first (b ∷ s) = b ∷ []

-- A statement and its words in lower case.
pub data Lexes : Bytes → List Bytes → Type 0 where
  end : Lexes [] []
  last_line : (s c : Bytes) → s ≡ codes "--" ++ c → Without b'\n' c → Lexes s []
  line :
      (s c r : Bytes) {ts : List Bytes}
      → s ≡ codes "--" ++ (c ++ b'\n' ∷ r)
      → Without b'\n' c
      → Lexes r ts
      → Lexes s ts
  comment :
      (s c r : Bytes) {ts : List Bytes}
      → s ≡ codes "/*" ++ c
      → Commented 1 c r
      → Lexes r ts
      → Lexes s ts
  string :
      (s p c r : Bytes) {ts : List Bytes}
      → s ≡ p ++ c
      → opens_string p ≡ true
      → Quoted b'\'' c r
      → Lexes r ts
      → Lexes s ts
  identifier :
      (s p c r : Bytes) {ts : List Bytes}
      → s ≡ p ++ c
      → opens_identifier p ≡ true
      → Quoted b'"' c r
      → Lexes r ts
      → Lexes s ts
  dollar :
      (s name tag c r : Bytes) {ts : List Bytes}
      → tag ≡ b'$' ∷ (name ++ b'$' ∷ [])
      → All (λ b. in_word b ≡ true) name
      → s ≡ tag ++ c
      → Tagged tag c r
      → Lexes r ts
      → Lexes s ts
  word :
      (s : Bytes) (b : ℕ) (w r : Bytes) {ts : List Bytes}
      → s ≡ (b ∷ w) ++ r
      → starts_word b ≡ true
      → All (λ c. in_word c ≡ true) w
      → (any in_word (first r) ≡ false)
      → NoPrefix s
      → Lexes r ts
      → Lexes s (lowercase (b ∷ w) ∷ ts)
  other : (b : ℕ) (r : Bytes) {ts : List Bytes} → IsOther b r → Lexes r ts → Lexes (b ∷ r) ts
