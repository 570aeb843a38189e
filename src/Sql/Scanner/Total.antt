-- ===== src/Sql/Scanner/Total.antt =====
-- The scanner ends: each round uses up a byte at least.
use summerrs_admin.Base.{
  ℕ, zero, suc, ◌-◌, ◌≤◌, ◌<◌, ◌≡◌, refl, ap, Bool, true, false, Option, some, List, [], ◌∷◌, ◌++◌,
  ◌==◌, arith, length, length-append, if◌then◌else◌,
}
use summerrs_admin.Base.Text.{Bytes, codes, starts_with}
use summerrs_admin.Sql.Scanner.{
  SqlError, SqlResult, ok, err, ScanState, normal, single_quoted, double_quoted, line_comment,
  block_comment, dollar_quoted, drop, has_at, Round, quoted_round, scan_round, prepend, after_round,
  at_end, scan, collect_sql_tokens,
}
use summerrs_admin.Sql.Scanner.Lexes.{opens_string, opens_identifier}
use summerrs_admin.Sql.Scanner.View.{
  View, line_view, comment_view, string_view, identifier_view, dollar_view, stop_view, word_view,
  other_view, normal_round-View,
}

length-drop-le : (n : ℕ) (s : Bytes) → length (drop n s) ≤ length s
length-drop-le zero s = omega arith
length-drop-le (suc n) [] = omega arith
length-drop-le (suc n) (b ∷ s) = omega (arith, length-drop-le n s)

length-drop-lt : (n b : ℕ) (s : Bytes) → 0 < n → length (drop n (b ∷ s)) ≤ length s
length-drop-lt zero b s h = absurd (omega arith)
length-drop-lt (suc n) b s h = length-drop-le n s

-- The tag of a dollar quote is not empty.
abbrev pub HasTag : ScanState → Type 0
HasTag (dollar_quoted tag) = 0 < length tag
HasTag normal = Unit
HasTag single_quoted = Unit
HasTag double_quoted = Unit
HasTag line_comment = Unit
HasTag (block_comment _) = Unit

-- A round leaves fewer bytes than it was given, and a state with its tag.
data Shorter (n : ℕ) : SqlResult Round → Type 0 where
  failed : (e : SqlError) → Shorter n (err e)
  went :
      (state : ScanState) (pushed : List Bytes) (rest : Bytes)
      → length rest ≤ n
      → HasTag state
      → Shorter n (ok (record { state = state; pushed = pushed; rest = rest }))

choose :
    (n : ℕ) (test : Bool) {x y : SqlResult Round}
    → Shorter n x
    → Shorter n y
    → Shorter n (if test then x else y)
choose n true h k = h
choose n false h k = k

-- What an opening that is not empty leaves.
behind : (b : ℕ) (s p r : Bytes) → b ∷ s ≡ p ++ r → 0 < length p → length r ≤ length s
behind b s p r e h = omega (arith, ap length e, length-append p r)

opening_pos : (p : Bytes) → opens_string p ≡ true → 0 < length p
opening_pos [] h = cc
opening_pos (b ∷ p) h = omega arith

name_pos : (p : Bytes) → opens_identifier p ≡ true → 0 < length p
name_pos [] h = cc
name_pos (b ∷ p) h = omega arith

View-Shorter : (b : ℕ) (s : Bytes) {r : SqlResult Round} → View b s r → Shorter (length s) r
View-Shorter b s (line_view r e) = went _ _ r (behind b s (codes "--") r e (omega arith)) tt
View-Shorter b s (comment_view r e) = went _ _ r (behind b s (codes "/*") r e (omega arith)) tt
View-Shorter b s (string_view p r e opens) = went _ _ r (behind b s p r e (opening_pos p opens)) tt
View-Shorter b s (identifier_view p r e opens) = went _ _ r (behind b s p r e (name_pos p opens)) tt
View-Shorter b s (dollar_view name tag r tagged inside e) =
    let pos : 0 < length tag = omega (arith, ap length tagged) in
    went _ _ r (behind b s tag r e pos) pos
View-Shorter b s (stop_view e) = failed _
View-Shorter b s (word_view w r e start inside out prefixes) =
    went _ _ r (omega (arith, ap length e, length-append w r)) tt
View-Shorter b s (other_view plain) = went _ _ s (omega arith) tt

quoted_round-Shorter :
    (inside : ScanState) (quote b : ℕ) (s : Bytes)
    → HasTag inside
    → Shorter (length s) (quoted_round inside quote b s)
quoted_round-Shorter inside quote b s t =
    choose _ (b == quote)
      (choose _ (has_at quote 0 s) (went _ _ _ (length-drop-le 1 s) t)
        (went _ _ s (omega arith) tt))
      (went _ _ s (omega arith) t)

plain_state :
    (test : Bool) (state : ScanState) → HasTag state → HasTag (if test then normal else state)
plain_state true state t = tt
plain_state false state t = t

scan_round-Shorter :
    (state : ScanState) (b : ℕ) (s : Bytes)
    → HasTag state
    → Shorter (length s) (scan_round state b s)
unfolding scan_round
scan_round-Shorter normal b s t = View-Shorter b s (normal_round-View b s)
scan_round-Shorter single_quoted b s t = quoted_round-Shorter single_quoted b'\'' b s tt
scan_round-Shorter double_quoted b s t = quoted_round-Shorter double_quoted b'"' b s tt
scan_round-Shorter line_comment b s t =
    went _ _ s (omega arith) (plain_state (b == b'\n') line_comment tt)
scan_round-Shorter (block_comment depth) b s t =
    choose _ (starts_with (b ∷ s) (codes "/*")) (went _ _ _ (length-drop-le 1 s) tt) (
      choose _ (starts_with (b ∷ s) (codes "*/"))
        (went _ _ _ (length-drop-le 1 s)
          (plain_state (depth - 1 == 0) (block_comment (depth - 1)) tt))
        (went _ _ s (omega arith) tt))
scan_round-Shorter (dollar_quoted tag) b s t =
    choose _ (starts_with (b ∷ s) tag) (went _ _ _ (length-drop-lt (length tag) b s t) tt)
      (went _ _ s (omega arith) t)

prepend_total :
    (pushed : List Bytes) (o : Option (SqlResult (List Bytes)))
    → ((r : SqlResult (List Bytes)) × (o ≡ some r))
    → (r : SqlResult (List Bytes)) × (prepend pushed o ≡ some r)
prepend_total pushed o (ok tokens, e) = (ok (pushed ++ tokens), rw e)
prepend_total pushed o (err x, e) = (err x, rw e)

after_total :
    (n : ℕ) {r : SqlResult Round} (loop : ScanState → Bytes → Option (SqlResult (List Bytes)))
    → Shorter n r
    → ((state : ScanState) (s : Bytes)
        → HasTag state
        → length s ≤ n
        → (q : SqlResult (List Bytes)) × (loop state s ≡ some q))
    → (q : SqlResult (List Bytes)) × (after_round r loop ≡ some q)
after_total n loop (failed e) ih = (err e, refl)
after_total n loop (went state pushed rest less t) ih =
    prepend_total pushed (loop state rest) (ih state rest t less)

scan_total :
    (fuel : ℕ) (state : ScanState) (s : Bytes)
    → HasTag state
    → length s ≤ fuel
    → (r : SqlResult (List Bytes)) × (scan fuel state s ≡ some r)
unfolding scan
scan_total fuel state [] t h = (at_end state, refl)
scan_total zero state (b ∷ s) t h = absurd (omega arith)
scan_total (suc fuel) state (b ∷ s) t h =
    after_total (length s) (λ state' rest. scan fuel state' rest) (scan_round-Shorter state b s t)
      (λ state' rest t' less. scan_total fuel state' rest t' (omega arith))

-- The scanner ends on every input: as much fuel as the text has bytes is enough, so it returns
-- tokens or an error.
pub collect_sql_tokens_total :
    (sql : Bytes) → (r : SqlResult (List Bytes)) × (collect_sql_tokens sql ≡ some r)
unfolding collect_sql_tokens
collect_sql_tokens_total sql = scan_total (length sql) normal sql tt (omega arith)
