-- ===== src/Sql/Assignments/Keys.antt =====
-- The WHERE text of one row.
use mathlib.Core.Path.{subst}
use summerrs_admin.Base.{
  ℕ, ◌+◌, ◌≤◌, ◌==◌, ◌≡◌, refl, sym, ◌∙◌, ap, Bool, true, false, not, Option, none, some, List, [],
  ◌∷◌, arith, length, if◌then◌else◌, Bool-cases, inl, inr,
}
use summerrs_admin.Base.Text.{Bytes, codes}
use summerrs_admin.Sql.Schema.{
  JsonValue, Serde, TableColumnSchema, TableSchema, ok, err, null_key, quote_identifier, cast_text,
  bind_cast_value,
}
use summerrs_admin.Sql.Filters.{join_with, is_json_null}
use summerrs_admin.Sql.Filters.Bound.{and_then_inv, ok_injective, bind_cast_value-Counts}
use summerrs_admin.Sql.Assignments.{
  JsonMap, get, primary_keys, assignment_text, not_null_key, key_clauses, key_text,
  build_key_clause,
}

-- Each column equals the next parameter.
abbrev pub key_texts : List TableColumnSchema → (before : ℕ) → List Bytes
key_texts [] before = []
key_texts (c ∷ columns) before =
    assignment_text (quote_identifier c.name, cast_text (before + 1) c)
    ∷ key_texts columns (before + 1)

not_null_key_inv :
    (o : Option JsonValue) (v : JsonValue) → not_null_key o ≡ ok v → is_json_null v ≡ false
not_null_key_inv none v e = cc e
not_null_key_inv (some w) v e = by_cases (is_json_null w) refl e
  where
    by_cases :
        (b : Bool)
        → is_json_null w ≡ b
        → (if b then err null_key else ok w) ≡ ok v
        → is_json_null v ≡ false
    by_cases true m k = cc k
    by_cases false m k = ap is_json_null (sym (ok_injective w v k)) ∙ m

abbrev Keyed : List TableColumnSchema → (params : List Bytes) → List Bytes × List Bytes → Type 0
Keyed columns params built =
    (built.0 ≡ key_texts columns (length params))
    × (length built.1 ≡ length params + length columns)

next_column :
    (c : TableColumnSchema) (columns : List TableColumnSchema) (params : List Bytes)
    (bound : Bytes × List Bytes) (rest : List Bytes × List Bytes)
    → bound.0 ≡ cast_text (length params + 1) c
    → length bound.1 ≡ length params + 1
    → rest.0 ≡ key_texts columns (length bound.1)
    → length rest.1 ≡ length bound.1 + length columns
    → Keyed
        (c ∷ columns)
        params
        (assignment_text (quote_identifier c.name, bound.0) ∷ rest.0, rest.1)
next_column c columns params bound rest shown longer texts long = (
  ap (λ z. assignment_text (quote_identifier c.name, z) ∷ rest.0) shown
      ∙ ap (λ z. assignment_text (quote_identifier c.name, cast_text (length params + 1) c) ∷ z)
          (texts ∙ ap (key_texts columns) longer),
  omega (arith, long, longer),
)

module _ (J : Serde) (schema : TableSchema) where
  key_clauses-key_texts :
      (columns : List TableColumnSchema) (key : JsonMap) (params : List Bytes)
      (built : List Bytes × List Bytes)
      → key_clauses J schema columns key params ≡ ok built
      → Keyed columns params built
  unfolding key_clauses
  key_clauses-key_texts [] key params built e =
      let same = ok_injective _ built e in
      (ap (λ z. z.0) (sym same), ap (λ z. length z.1) (sym same) ∙ omega arith)
  key_clauses-key_texts (c ∷ columns) key params built e =
      let (v, e1, e2) = and_then_inv (not_null_key (get c.name key)) _ built e in
      let (bound, e3, e4) = and_then_inv (bind_cast_value J c v params) _ built e2 in
      let (rest, e5, e6) = and_then_inv (key_clauses J schema columns key bound.1) _ built e4 in
      let same = ok_injective _ built e6 in
      let (shown, longer) =
        bind_cast_value-Counts J c v params bound (not_null_key_inv _ v e1) e3 in
      let (texts, long) = key_clauses-key_texts columns key bound.1 rest e5 in
      subst (Keyed (c ∷ columns) params) same
        (next_column c columns params bound rest shown longer texts long)

  -- The text of a row's key pins each primary key column of the table, in their order, to the next
  -- parameter, and there is at least one such column.
  pub build_key_clause-key_texts :
      (key : JsonMap) (params : List Bytes) (text : Bytes) (params' : List Bytes)
      → build_key_clause J schema key params ≡ ok (text, params')
      → (text ≡ join_with (codes " AND ") (key_texts (primary_keys schema.columns) (length params)))
        × (length params' ≡ length params + length (primary_keys schema.columns))
        × (1 ≤ length (primary_keys schema.columns))
  unfolding build_key_clause
  build_key_clause-key_texts key params text params' e = by_cases (primary_keys schema.columns) e
    where
      by_cases :
          (columns : List TableColumnSchema)
          → key_text J schema columns key params ≡ ok (text, params')
          → (text ≡ join_with (codes " AND ") (key_texts columns (length params)))
            × (length params' ≡ length params + length columns)
            × (1 ≤ length columns)
      by_cases [] k = absurd (cc k)
      by_cases (c ∷ columns) k = elim (Bool-cases (not (length key == length (c ∷ columns)))) [
        | inl wrong ↦ absurd (cc (rw wrong at k))
        | inr right ↦
            let (built, e1, e2) =
              and_then_inv (key_clauses J schema (c ∷ columns) key params) _ _ (rw right at k) in
            let same = ok_injective _ _ e2 in
            let (texts, long) = key_clauses-key_texts (c ∷ columns) key params built e1 in
            (
              ap (λ z. z.0) (sym same) ∙ ap (join_with (codes " AND ")) texts,
              ap (λ z. length z.1) (sym same) ∙ long,
              omega arith,
            )
      ]
