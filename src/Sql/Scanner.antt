-- ===== src/Sql/Scanner.antt =====
-- `collect_sql_tokens` of crates/summer-mcp/src/table_tools/sql_scanner.rs. The index into the bytes
-- is the rest of the bytes.
pub mod Lexes
pub mod View
pub mod Total
pub mod Sound
pub mod Escapes
use summerrs_admin.Base.{
  ℕ, zero, suc, ◌+◌, ◌-◌, ◌≤◌, ◌≡◌, refl, Bool, true, false, not, ◌&&◌, ◌||◌, Option, none, some,
  List, [], ◌∷◌, ◌++◌, ◌==◌, leb, length, if◌then◌else◌,
}
use summerrs_admin.Base.Text.{Bytes, codes, starts_with}

pub data SqlError : Type 0 where
  several_statements : SqlError
  unterminated_string unterminated_identifier unterminated_comment unterminated_dollar : SqlError
  empty_sql no_statement : SqlError
  not_a_query no_select : SqlError
  forbidden_keyword : Bytes → SqlError
  select_in_exec read_only_with : SqlError

pub data SqlResult (A : Type 0) : Type 0 where
  ok : A → SqlResult A
  err : SqlError → SqlResult A

pub data ScanState : Type 0 where
  normal single_quoted double_quoted line_comment : ScanState
  block_comment : (depth : ℕ) → ScanState
  dollar_quoted : (tag : Bytes) → ScanState

abbrev pub is_alpha : ℕ → Bool
is_alpha b = (leb b'a' b && leb b b'z') || (leb b'A' b && leb b b'Z')

abbrev pub starts_word : ℕ → Bool
starts_word b = is_alpha b || b == b'_'

abbrev pub in_word : ℕ → Bool
in_word b = is_alpha b || (leb b'0' b && leb b b'9') || b == b'_'

abbrev pub lower : ℕ → ℕ
lower b = if leb b'A' b && leb b b'Z' then b + 32 else b

-- `to_ascii_lowercase`
abbrev pub lowercase : Bytes → Bytes
lowercase [] = []
lowercase (b ∷ s) = lower b ∷ lowercase s

-- The loops over `is_ascii_alphanumeric` and `_`: what they pass, and what is left.
abbrev pub word_part : Bytes → Bytes
word_part [] = []
word_part (b ∷ s) = let more = word_part s in if in_word b then b ∷ more else []

abbrev pub after_word : Bytes → Bytes
after_word [] = []
after_word (b ∷ s) = let rest = after_word s in if in_word b then rest else b ∷ s

abbrev pub drop : ℕ → Bytes → Bytes
drop zero s = s
drop (suc n) [] = []
drop (suc n) (b ∷ s) = drop n s

-- `bytes.get(index + n) == Some(&b)`
abbrev pub has_at : ℕ → ℕ → Bytes → Bool
has_at b n s = starts_with (drop n s) (b ∷ [])

-- `parse_dollar_quote_tag`
unfoldable pub parse_dollar_quote_tag : Bytes → Option Bytes
parse_dollar_quote_tag [] = none
parse_dollar_quote_tag (b ∷ s) =
    if b == b'$' && has_at b'$' 0 (after_word s)
    then some (b'$' ∷ word_part s ++ b'$' ∷ [])
    else none

-- One round of the loop: the state, the tokens that it pushes, and the bytes that are left.
pub record Round : Type 0 where
  pub state : ScanState
  pub pushed : List Bytes
  pub rest : Bytes

abbrev pub go : ScanState → Bytes → SqlResult Round
go state rest = ok (record { state = state; pushed = []; rest = rest })

-- The last tests of the normal state, from the semicolon on.
abbrev pub word_round : ℕ → Bytes → SqlResult Round
word_round b s =
    if b == b';'
    then err several_statements
    else if starts_word b
    then ok
        (record { state = normal; pushed = lowercase (b ∷ word_part s) ∷ []; rest = after_word s })
    else go normal s

abbrev pub dollar_round : Option Bytes → ℕ → Bytes → SqlResult Round
dollar_round (some tag) b s = go (dollar_quoted tag) (drop (length tag) (b ∷ s))
dollar_round none b s = word_round b s

unfoldable pub normal_round : ℕ → Bytes → SqlResult Round
unfolding parse_dollar_quote_tag
normal_round b s =
    if starts_with (b ∷ s) (codes "--")
    then go line_comment (drop 1 s)
    else if starts_with (b ∷ s) (codes "/*")
    then go (block_comment 1) (drop 1 s)
    else if (b == b'E' || b == b'e') && has_at b'\'' 0 s
    then go single_quoted (drop 1 s)
    else if (b == b'U' || b == b'u') && has_at b'&' 0 s && has_at b'\'' 1 s
    then go single_quoted (drop 2 s)
    else if (b == b'U' || b == b'u') && has_at b'&' 0 s && has_at b'"' 1 s
    then go double_quoted (drop 2 s)
    else if b == b'\''
    then go single_quoted s
    else if b == b'"'
    then go double_quoted s
    else dollar_round (parse_dollar_quote_tag (b ∷ s)) b s

-- Inside quotes: the quote twice is a quote, once is the end.
abbrev pub quoted_round : (inside : ScanState) → (quote b : ℕ) → Bytes → SqlResult Round
quoted_round inside quote b s =
    if b == quote
    then (if has_at quote 0 s then go inside (drop 1 s) else go normal s)
    else go inside s

abbrev pub close_comment : ℕ → ScanState
close_comment depth = if depth - 1 == 0 then normal else block_comment (depth - 1)

-- The match on the state.
unfoldable pub scan_round : ScanState → ℕ → Bytes → SqlResult Round
unfolding normal_round
scan_round normal b s = normal_round b s
scan_round single_quoted b s = quoted_round single_quoted b'\'' b s
scan_round double_quoted b s = quoted_round double_quoted b'"' b s
scan_round line_comment b s = go (if b == b'\n' then normal else line_comment) s
scan_round (block_comment depth) b s =
    if starts_with (b ∷ s) (codes "/*")
    then go (block_comment (depth + 1)) (drop 1 s)
    else if starts_with (b ∷ s) (codes "*/")
    then go (close_comment depth) (drop 1 s)
    else go (block_comment depth) s
scan_round (dollar_quoted tag) b s =
    if starts_with (b ∷ s) tag
    then go normal (drop (length tag) (b ∷ s))
    else go (dollar_quoted tag) s

-- The match on the state behind the loop.
abbrev pub at_end : ScanState → SqlResult (List Bytes)
at_end normal = ok []
at_end line_comment = ok []
at_end single_quoted = err unterminated_string
at_end double_quoted = err unterminated_identifier
at_end (block_comment _) = err unterminated_comment
at_end (dollar_quoted _) = err unterminated_dollar

abbrev pub prepend : List Bytes → Option (SqlResult (List Bytes)) → Option (SqlResult (List Bytes))
prepend pushed (some (ok tokens)) = some (ok (pushed ++ tokens))
prepend pushed (some (err e)) = some (err e)
prepend pushed none = none

-- Returns the error of a round, or goes on.
abbrev pub after_round :
    SqlResult Round
    → (ScanState → Bytes → Option (SqlResult (List Bytes)))
    → Option (SqlResult (List Bytes))
after_round (err e) loop = some (err e)
after_round (ok round) loop = prepend round.pushed (loop round.state round.rest)

-- The loop with fuel; none is out of fuel.
unfoldable pub scan : ℕ → ScanState → Bytes → Option (SqlResult (List Bytes))
unfolding scan_round
scan fuel state [] = some (at_end state)
scan zero state (b ∷ s) = none
scan (suc fuel) state (b ∷ s) =
    after_round (scan_round state b s) (λ state' rest. scan fuel state' rest)

unfoldable pub collect_sql_tokens : Bytes → Option (SqlResult (List Bytes))
unfolding scan
collect_sql_tokens sql = scan (length sql) normal sql
