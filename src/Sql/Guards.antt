-- ===== src/Sql/Guards.antt =====
-- `normalize_readonly_sql` and `normalize_exec_sql` of
-- crates/summer-mcp/src/table_tools/sql_scanner.rs. none is out of fuel, which `Guards/Accepted`
-- excludes.
pub mod Accepted
pub mod Both
use summerrs_admin.Base.{
  ℕ, ◌≡◌, refl, Bool, true, false, not, ◌&&◌, ◌||◌, Option, none, some, List, [], ◌∷◌, any,
  if◌then◌else◌, eq_bytes,
}
use summerrs_admin.Base.Text.{Bytes, codes, strip_suffix}
use summerrs_admin.Base.Trim.{trim, trim_end}
use summerrs_admin.Sql.Scanner.{
  SqlError, SqlResult, ok, err, empty_sql, no_statement, not_a_query, no_select, forbidden_keyword,
  select_in_exec, read_only_with, collect_sql_tokens,
}

abbrev pub forbidden_readonly_sql_keywords : List Bytes
forbidden_readonly_sql_keywords =
    codes "alter"
    ∷ codes "begin"
    ∷ codes "call"
    ∷ codes "cluster"
    ∷ codes "comment"
    ∷ codes "commit"
    ∷ codes "copy"
    ∷ codes "create"
    ∷ codes "deallocate"
    ∷ codes "delete"
    ∷ codes "discard"
    ∷ codes "do"
    ∷ codes "drop"
    ∷ codes "execute"
    ∷ codes "grant"
    ∷ codes "insert"
    ∷ codes "listen"
    ∷ codes "lock"
    ∷ codes "merge"
    ∷ codes "notify"
    ∷ codes "prepare"
    ∷ codes "refresh"
    ∷ codes "reindex"
    ∷ codes "release"
    ∷ codes "reset"
    ∷ codes "revoke"
    ∷ codes "rollback"
    ∷ codes "savepoint"
    ∷ codes "set"
    ∷ codes "start"
    ∷ codes "truncate"
    ∷ codes "unlisten"
    ∷ codes "update"
    ∷ codes "vacuum"
    ∷ []

abbrev pub exec_sql_keywords : List Bytes
exec_sql_keywords =
    codes "alter"
    ∷ codes "analyze"
    ∷ codes "call"
    ∷ codes "cluster"
    ∷ codes "comment"
    ∷ codes "copy"
    ∷ codes "create"
    ∷ codes "deallocate"
    ∷ codes "delete"
    ∷ codes "discard"
    ∷ codes "do"
    ∷ codes "drop"
    ∷ codes "execute"
    ∷ codes "grant"
    ∷ codes "insert"
    ∷ codes "listen"
    ∷ codes "lock"
    ∷ codes "merge"
    ∷ codes "notify"
    ∷ codes "prepare"
    ∷ codes "refresh"
    ∷ codes "reindex"
    ∷ codes "reset"
    ∷ codes "revoke"
    ∷ codes "set"
    ∷ codes "truncate"
    ∷ codes "unlisten"
    ∷ codes "update"
    ∷ codes "vacuum"
    ∷ []

-- `contains` of a list of texts.
pub member : Bytes → List Bytes → Bool
member t words = any (eq_bytes t) words

pub forbidden : Bytes → Bool
unfolding member
forbidden t = member t forbidden_readonly_sql_keywords

pub executes : Bytes → Bool
unfolding member
executes t = member t exec_sql_keywords

abbrev without_semicolon : Option Bytes → Bytes → Bytes
without_semicolon none trimmed = trimmed
without_semicolon (some s) trimmed = trim_end s

abbrev not_empty : Bytes → SqlResult Bytes
not_empty [] = err empty_sql
not_empty (b ∷ s) = ok (without_semicolon (strip_suffix (codes ";") (b ∷ s)) (b ∷ s))

unfoldable pub normalize_single_statement_sql : Bytes → SqlResult Bytes
unfolding trim strip_suffix trim_end
normalize_single_statement_sql sql = not_empty (trim sql)

-- The first token for which the test holds.
abbrev pub find : (Bytes → Bool) → List Bytes → Option Bytes
find p [] = none
find p (t ∷ ts) = let rest = find p ts in if p t then some t else rest

abbrev pub refuse_forbidden : Option Bytes → Bytes → SqlResult Bytes
refuse_forbidden none sql = ok sql
refuse_forbidden (some keyword) sql = err (forbidden_keyword keyword)

-- What `normalize_readonly_sql` does with the tokens.
unfoldable pub check_readonly : List Bytes → (normalized : Bytes) → SqlResult Bytes
unfolding member forbidden
check_readonly [] sql = err no_statement
check_readonly (t ∷ ts) sql =
    if not (eq_bytes t (codes "select") || eq_bytes t (codes "with"))
    then err not_a_query
    else if eq_bytes t (codes "with") && not (any (λ w. eq_bytes w (codes "select")) (t ∷ ts))
    then err no_select
    else refuse_forbidden (find forbidden (t ∷ ts)) sql

-- What `normalize_exec_sql` does with the tokens.
unfoldable pub check_exec : List Bytes → (normalized : Bytes) → SqlResult Bytes
unfolding member executes
check_exec [] sql = err no_statement
check_exec (t ∷ ts) sql =
    if eq_bytes t (codes "select")
    then err select_in_exec
    else if eq_bytes t (codes "with") && not (any executes (t ∷ ts))
    then err read_only_with
    else ok sql

abbrev pub with_tokens :
    (List Bytes → Bytes → SqlResult Bytes)
    → Option (SqlResult (List Bytes))
    → (normalized : Bytes) → Option (SqlResult Bytes)
with_tokens check none sql = none
with_tokens check (some (err e)) sql = some (err e)
with_tokens check (some (ok ts)) sql = some (check ts sql)

abbrev pub scan_and :
    (List Bytes → Bytes → SqlResult Bytes) → SqlResult Bytes → Option (SqlResult Bytes)
scan_and check (err e) = some (err e)
scan_and check (ok sql) = with_tokens check (collect_sql_tokens sql) sql

unfoldable pub normalize_readonly_sql : Bytes → Option (SqlResult Bytes)
unfolding normalize_single_statement_sql collect_sql_tokens check_readonly
normalize_readonly_sql sql = scan_and check_readonly (normalize_single_statement_sql sql)

unfoldable pub normalize_exec_sql : Bytes → Option (SqlResult Bytes)
unfolding normalize_single_statement_sql collect_sql_tokens check_exec
normalize_exec_sql sql = scan_and check_exec (normalize_single_statement_sql sql)
