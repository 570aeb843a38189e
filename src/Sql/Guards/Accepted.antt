-- ===== src/Sql/Guards/Accepted.antt =====
-- What the two guards accept.
use mathlib.Core.Path.{subst}
use summerrs_admin.Base.{
  ◌≡◌, ◌⊎◌, refl, sym, Bool, true, false, Option, none, some, List, [], ◌∷◌, any, All, eq_bytes,
  eq_of_eq_bytes, Bool-cases, inl, inr,
}
use summerrs_admin.Base.Text.{Bytes, codes}
use summerrs_admin.Sql.Scanner.{SqlResult, ok, err, collect_sql_tokens}
use summerrs_admin.Sql.Scanner.Lexes.{Lexes}
use summerrs_admin.Sql.Scanner.Total.{collect_sql_tokens_total}
use summerrs_admin.Sql.Scanner.Sound.{collect_sql_tokens-Lexes}
use summerrs_admin.Sql.Guards.{
  forbidden, find, refuse_forbidden, normalize_single_statement_sql, check_readonly, check_exec,
  with_tokens, scan_and, normalize_readonly_sql, normalize_exec_sql,
}

with_tokens_total :
    (check : List Bytes → Bytes → SqlResult Bytes) (o : Option (SqlResult (List Bytes)))
    (sql : Bytes)
    → ((r : SqlResult (List Bytes)) × (o ≡ some r))
    → (r : SqlResult Bytes) × (with_tokens check o sql ≡ some r)
with_tokens_total check o sql (ok ts, e) = (check ts sql, rw e)
with_tokens_total check o sql (err x, e) = (err x, rw e)

scan_and_total :
    (check : List Bytes → Bytes → SqlResult Bytes) (s : SqlResult Bytes)
    → (r : SqlResult Bytes) × (scan_and check s ≡ some r)
scan_and_total check (err e) = (err e, refl)
scan_and_total check (ok sql) =
    with_tokens_total check (collect_sql_tokens sql) sql (collect_sql_tokens_total sql)

-- Both guards answer every text: the scanner has enough fuel.
pub guards_total :
    (sql : Bytes)
    → ((r : SqlResult Bytes) × (normalize_readonly_sql sql ≡ some r))
      × ((r : SqlResult Bytes) × (normalize_exec_sql sql ≡ some r))
unfolding normalize_readonly_sql normalize_exec_sql
guards_total sql = (
  scan_and_total check_readonly (normalize_single_statement_sql sql),
  scan_and_total check_exec (normalize_single_statement_sql sql),
)

-- An accepted text went through the scanner, and the check accepted its tokens.
with_tokens_inv :
    (check : List Bytes → Bytes → SqlResult Bytes) (o : Option (SqlResult (List Bytes)))
    (sql out : Bytes)
    → with_tokens check o sql ≡ some (ok out)
    → (ts : List Bytes) × (o ≡ some (ok ts)) × (check ts sql ≡ ok out)
with_tokens_inv check none sql out h = cc
with_tokens_inv check (some (err e)) sql out h = cc
with_tokens_inv check (some (ok ts)) sql out h = (ts, refl, cc)

pub scan_and_inv :
    (check : List Bytes → Bytes → SqlResult Bytes) (s : SqlResult Bytes) (out : Bytes)
    → scan_and check s ≡ some (ok out)
    → (sql : Bytes) × (ts : List Bytes) × (s ≡ ok sql)
      × (collect_sql_tokens sql ≡ some (ok ts))
      × (check ts sql ≡ ok out)
scan_and_inv check (err e) out h = cc
scan_and_inv check (ok sql) out h =
    let (ts, scanned, checked) = with_tokens_inv check (collect_sql_tokens sql) sql out h in
    (sql, ts, refl, scanned, checked)

-- The tokens of a query that is only read.
pub record IsReadOnly (ts : List Bytes) : Type 0 where
  pub keyword : Bytes
  pub others : List Bytes
  pub starts : ts ≡ keyword ∷ others
  pub query :
      (keyword ≡ codes "select")
      ⊎ ((keyword ≡ codes "with") × (any (λ w. eq_bytes w (codes "select")) ts ≡ true))
  pub harmless : All (λ t. forbidden t ≡ false) ts

find-All : (p : Bytes → Bool) (ts : List Bytes) → find p ts ≡ none → All (λ t. p t ≡ false) ts
find-All p [] h = tt
find-All p (t ∷ ts) h = elim (Bool-cases (p t)) [
  | inl hit ↦ absurd (cc (rw hit at h))
  | inr miss ↦ (miss, find-All p ts (rw miss at h))
]

refuse_forbidden_inv :
    (o : Option Bytes) (sql out : Bytes)
    → refuse_forbidden o sql ≡ ok out
    → (o ≡ none) × (sql ≡ out)
refuse_forbidden_inv none sql out h = (refl, cc)
refuse_forbidden_inv (some keyword) sql out h = cc

-- The check at each first keyword.
abbrev Checked : Bytes → List Bytes → Bytes → Bytes → Type 0
Checked t ts sql out = check_readonly (t ∷ ts) sql ≡ ok out → IsReadOnly (t ∷ ts) × (sql ≡ out)

Checked-select : (ts : List Bytes) (sql out : Bytes) → Checked (codes "select") ts sql out
unfolding check_readonly
Checked-select ts sql out h =
    let words = codes "select" ∷ ts in
    let (none_found, same) = refuse_forbidden_inv (find forbidden words) sql out h in
    (
      record {
        keyword = codes "select";
        others = ts;
        starts = refl;
        query = inl refl;
        harmless = find-All forbidden words none_found;
      },
      same,
    )

Checked-with : (ts : List Bytes) (sql out : Bytes) → Checked (codes "with") ts sql out
unfolding check_readonly
Checked-with ts sql out h =
    let words = codes "with" ∷ ts in
    elim (Bool-cases (any (λ w. eq_bytes w (codes "select")) ts)) [
      | inl selects ↦
          let (none_found, same) =
            refuse_forbidden_inv (find forbidden words) sql out (rw selects at h) in
          (
            record {
              keyword = codes "with";
              others = ts;
              starts = refl;
              query = inr (refl, selects);
              harmless = find-All forbidden words none_found;
            },
            same,
          )
      | inr no_select ↦ absurd (cc (rw no_select at h))
    ]

pub check_readonly-IsReadOnly :
    (ts : List Bytes) (sql out : Bytes)
    → check_readonly ts sql ≡ ok out
    → IsReadOnly ts × (sql ≡ out)
unfolding check_readonly
check_readonly-IsReadOnly [] sql out h = cc
check_readonly-IsReadOnly (t ∷ ts) sql out h = elim (Bool-cases (eq_bytes t (codes "select"))) [
  | inl selects ↦
      subst (λ k. Checked k ts sql out) (sym (eq_of_eq_bytes t _ selects))
        (Checked-select ts sql out) h
  | inr no_select ↦ elim (Bool-cases (eq_bytes t (codes "with"))) [
    | inl withs ↦
        subst (λ k. Checked k ts sql out) (sym (eq_of_eq_bytes t _ withs)) (Checked-with ts sql out)
          h
    | inr other ↦ absurd (cc (rw (no_select, other) at h))
  ]
]

-- A text that `normalize_readonly_sql` accepts is one statement, made of the pieces of `Lexes`:
-- it begins with SELECT, or with WITH and has a SELECT, and outside of strings, quoted
-- identifiers, comments and dollar quotes no word of it is forbidden.
pub normalize_readonly_sql-IsReadOnly :
    (sql out : Bytes)
    → normalize_readonly_sql sql ≡ some (ok out)
    → (ts : List Bytes) × Lexes out ts × IsReadOnly ts
unfolding normalize_readonly_sql
normalize_readonly_sql-IsReadOnly sql out h =
    let (text, ts, single, scanned, checked) =
      scan_and_inv check_readonly (normalize_single_statement_sql sql) out h in
    let (safe, same) = check_readonly-IsReadOnly ts text out checked in
    (ts, subst (λ s. Lexes s ts) same (collect_sql_tokens-Lexes text ts scanned), safe)
