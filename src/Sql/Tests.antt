-- ===== src/Sql/Tests.antt =====
-- The SQL guards at concrete texts, and their theorems applied.
use summerrs_admin.Base.{◌≡◌, refl, true, some, List, [], ◌∷◌, ◌++◌, any, eq_bytes, arith}
use summerrs_admin.Base.Text.{Bytes, codes}
use summerrs_admin.Sql.Scanner.{
  SqlResult, ok, err, several_statements, unterminated_comment, not_a_query, forbidden_keyword,
  select_in_exec, read_only_with, empty_sql, collect_sql_tokens,
}
use summerrs_admin.Sql.Scanner.Lexes.{Lexes}
use summerrs_admin.Sql.Scanner.Sound.{collect_sql_tokens-Lexes}
use summerrs_admin.Sql.Scanner.Escapes.{escaped_quote, comment_quote, escape_quote-hides}
use summerrs_admin.Sql.Guards.{normalize_readonly_sql, normalize_exec_sql}
use summerrs_admin.Sql.Guards.Accepted.{IsReadOnly, guards_total, normalize_readonly_sql-IsReadOnly}
use summerrs_admin.Sql.Guards.Both.{analyze, accepted_by_both}

readonly_trimmed : normalize_readonly_sql (codes " SELECT 1; ") ≡ some (ok (codes "SELECT 1"))
unfolding normalize_readonly_sql
readonly_trimmed = refl

readonly_several :
    normalize_readonly_sql (codes "select 1; select 2") ≡ some (err several_statements)
unfolding normalize_readonly_sql
readonly_several = refl

readonly_hidden_word :
    normalize_readonly_sql (codes "select 'drop', \"set\" -- delete")
    ≡ some (ok (codes "select 'drop', \"set\" -- delete"))
unfolding normalize_readonly_sql
readonly_hidden_word = refl

readonly_cte :
    normalize_readonly_sql (codes "with x as (delete from t) select 1")
    ≡ some (err (forbidden_keyword (codes "delete")))
unfolding normalize_readonly_sql
readonly_cte = refl

readonly_comment :
    normalize_readonly_sql (codes "select /* /* */ 1") ≡ some (err unterminated_comment)
unfolding normalize_readonly_sql
readonly_comment = refl

readonly_update : normalize_readonly_sql (codes "update t") ≡ some (err not_a_query)
unfolding normalize_readonly_sql
readonly_update = refl

readonly_empty : normalize_readonly_sql (codes "  ") ≡ some (err empty_sql)
unfolding normalize_readonly_sql
readonly_empty = refl

exec_query : normalize_exec_sql (codes "select 1") ≡ some (err select_in_exec)
unfolding normalize_exec_sql
exec_query = refl

exec_with_query :
    normalize_exec_sql (codes "with a as (select 1) select 2") ≡ some (err read_only_with)
unfolding normalize_exec_sql
exec_with_query = refl

-- A `$` inside a name opens a dollar quote.
dollar_name :
    collect_sql_tokens (codes "select x$a$, lo_unlink(1), x$a$")
    ≡ some (ok (codes "select" ∷ codes "x" ∷ []))
unfolding collect_sql_tokens
dollar_name = refl

abbrev query : Bytes
query = codes "with a as (select 1) select 2 analyze"

query_read : normalize_readonly_sql query ≡ some (ok query)
unfolding normalize_readonly_sql
query_read = refl

query_exec : normalize_exec_sql query ≡ some (ok query)
unfolding normalize_exec_sql
query_exec = refl

abbrev query_words : List Bytes
query_words =
    codes "with" ∷ codes "a" ∷ codes "as" ∷ codes "select" ∷ codes "select" ∷ codes "analyze" ∷ []

query_scanned : collect_sql_tokens query ≡ some (ok query_words)
unfolding collect_sql_tokens
query_scanned = refl

collect_sql_tokens-Lexes_example : Lexes query query_words
collect_sql_tokens-Lexes_example = collect_sql_tokens-Lexes query query_words query_scanned

guards_total_example :
    ((r : SqlResult Bytes) × (normalize_readonly_sql (codes "select '") ≡ some r))
    × ((r : SqlResult Bytes) × (normalize_exec_sql (codes "select '") ≡ some r))
guards_total_example = guards_total (codes "select '")

normalize_readonly_sql-IsReadOnly_example : (ts : List Bytes) × Lexes query ts × IsReadOnly ts
normalize_readonly_sql-IsReadOnly_example = normalize_readonly_sql-IsReadOnly query query query_read

accepted_by_both_example :
    (query ≡ query)
    × ((others : List Bytes) × (collect_sql_tokens query ≡ some (ok (codes "with" ∷ others)))
        × (any (λ t. eq_bytes t analyze) others ≡ true))
accepted_by_both_example = accepted_by_both query query query query_read query_exec

escape_quote-hides_example :
    collect_sql_tokens (escaped_quote ++ codes "),f()" ++ comment_quote)
    ≡ some (ok (codes "select" ∷ []))
escape_quote-hides_example = escape_quote-hides (codes "),f()") (
  λ e. omega arith,
  (λ e. omega arith, (λ e. omega arith, (λ e. omega arith, (λ e. omega arith, tt)))),
)
