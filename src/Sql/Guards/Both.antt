-- ===== src/Sql/Guards/Both.antt =====
-- Where the two guards meet.
use mathlib.Core.Path.{subst}
use summerrs_admin.Base.{
  ◌≡◌, refl, ap, sym, ◌∙◌, Bool, true, false, ◌&&◌, ◌||◌, some, List, [], ◌∷◌, any, All, eq_bytes,
  eq_of_eq_bytes, Bool-cases, inl, inr,
}
use summerrs_admin.Base.Text.{Bytes, codes}
use summerrs_admin.Sql.Scanner.{ok, collect_sql_tokens}
use summerrs_admin.Sql.Guards.{
  exec_sql_keywords, member, forbidden, executes, normalize_single_statement_sql, check_readonly,
  check_exec, normalize_readonly_sql, normalize_exec_sql,
}
use summerrs_admin.Sql.Guards.Accepted.{scan_and_inv, IsReadOnly, check_readonly-IsReadOnly}

abbrev pub analyze : Bytes
analyze = codes "analyze"

abbrev known : Bytes → Bool
known k = forbidden k || eq_bytes k analyze

every : (Bytes → Bool) → List Bytes → Bool
every p [] = true
every p (t ∷ ts) = p t && every p ts

overlap : every known exec_sql_keywords ≡ true
unfolding every forbidden
overlap = refl

member-every :
    (p : Bytes → Bool) (t : Bytes) (ts : List Bytes)
    → every p ts ≡ true
    → member t ts ≡ true
    → p t ≡ true
unfolding every member
member-every p t [] h m = cc
member-every p t (u ∷ ts) h m = elim (Bool-cases (eq_bytes t u)) [
  | inl same ↦ subst (λ k. p k ≡ true) (sym (eq_of_eq_bytes t u same)) (front (p u) (every p ts) h)
  | inr other ↦ member-every p t ts (back (p u) (every p ts) h) (rw other at m)
]
  where
    front : (a b : Bool) → (a && b) ≡ true → a ≡ true
    front true b h = refl
    front false b h = h

    back : (a b : Bool) → (a && b) ≡ true → b ≡ true
    back true b h = h
    back false b h = cc

-- A word that executes and is not forbidden is `analyze`.
only_analyze : (t : Bytes) → executes t ≡ true → forbidden t ≡ false → eq_bytes t analyze ≡ true
unfolding executes
only_analyze t e f = let k = member-every known t exec_sql_keywords overlap e in rw f at k

some_analyze :
    (ts : List Bytes)
    → any executes ts ≡ true
    → All (λ t. forbidden t ≡ false) ts
    → any (λ t. eq_bytes t analyze) ts ≡ true
some_analyze [] e f = cc
some_analyze (t ∷ ts) e (f, fs) = elim (Bool-cases (executes t)) [
  | inl now ↦ rw (only_analyze t now f)
  | inr later ↦ or_true (eq_bytes t analyze) _ (some_analyze ts (rw later at e) fs)
]
  where
    or_true : (a b : Bool) → b ≡ true → (a || b) ≡ true
    or_true true b h = refl
    or_true false b h = h

exec_select :
    (ts : List Bytes) (sql out : Bytes) → check_exec (codes "select" ∷ ts) sql ≡ ok out → ⊥
unfolding check_exec
exec_select ts sql out h = cc

exec_with :
    (ts : List Bytes) (sql out : Bytes)
    → check_exec (codes "with" ∷ ts) sql ≡ ok out
    → (sql ≡ out) × (any executes ts ≡ true)
unfolding check_exec
exec_with ts sql out h = elim (Bool-cases (any executes ts)) [
  | inl hit ↦ (cc (rw hit at h), hit)
  | inr miss ↦ absurd (cc (rw miss at h))
]

-- Tokens that both checks accept.
both_checks :
    (ts : List Bytes) (sql out' : Bytes)
    → IsReadOnly ts
    → check_exec ts sql ≡ ok out'
    → (sql ≡ out')
      × ((others : List Bytes) × (ts ≡ codes "with" ∷ others)
          × (any (λ t. eq_bytes t analyze) others ≡ true))
both_checks ts sql out' safe h = elim (safe.query) [
  | inl select ↦
      let e : ts ≡ codes "select" ∷ safe.others = cc (safe.starts, select) in
      absurd (exec_select safe.others sql out' (subst (λ l. check_exec l sql ≡ ok out') e h))
  | inr (with, _) ↦
      let e : ts ≡ codes "with" ∷ safe.others = cc (safe.starts, with) in
      let (same, hit) =
        exec_with safe.others sql out' (subst (λ l. check_exec l sql ≡ ok out') e h) in
      let clean = subst (All (λ t. forbidden t ≡ false)) e safe.harmless in
      (same, (safe.others, e, some_analyze safe.others hit clean.1))
]

-- A text that both `sql_query_readonly` and `sql_exec` accept is the same for both, begins with
-- WITH, and has the word ANALYZE: the only keyword of `sql_exec` that a query may have.
pub accepted_by_both :
    (sql out out' : Bytes)
    → normalize_readonly_sql sql ≡ some (ok out)
    → normalize_exec_sql sql ≡ some (ok out')
    → (out ≡ out')
      × ((others : List Bytes) × (collect_sql_tokens out ≡ some (ok (codes "with" ∷ others)))
          × (any (λ t. eq_bytes t analyze) others ≡ true))
unfolding normalize_readonly_sql normalize_exec_sql
accepted_by_both sql out out' h k =
    let (text, ts, single, scanned, checked) =
      scan_and_inv check_readonly (normalize_single_statement_sql sql) out h in
    let (text', ts', single', scanned', checked') =
      scan_and_inv check_exec (normalize_single_statement_sql sql) out' k in
    let same_text : text' ≡ text = cc (single, single') in
    let same_tokens : ts' ≡ ts = cc (scanned, scanned', same_text) in
    let (safe, out_eq) = check_readonly-IsReadOnly ts text out checked in
    let exec : check_exec ts text ≡ ok out' = cc (checked', same_text, same_tokens) in
    let (out'_eq, (others, begins, hit)) = both_checks ts text out' safe exec in
    (
      sym out_eq ∙ out'_eq,
      (others, ap collect_sql_tokens (sym out_eq) ∙ scanned ∙ ap (λ l. some (ok l)) begins, hit),
    )
