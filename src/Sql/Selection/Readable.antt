-- ===== src/Sql/Selection/Readable.antt =====
-- What a select list names.
use mathlib.Core.Path.{subst}
use summerrs_admin.Base.{
  ◌≤◌, ◌≡◌, refl, sym, ◌∙◌, ap, Bool, true, false, Option, none, some, List, [], ◌∷◌, arith, length,
  map, All, eq_bytes, eq_of_eq_bytes, Bool-cases, inl, inr, if◌then◌else◌,
}
use summerrs_admin.Base.Text.{Bytes, codes}
use summerrs_admin.Sql.Schema.{TableColumnSchema, TableSchema, ok, find_column}
use summerrs_admin.Sql.Filters.{join_with, visible_column}
use summerrs_admin.Sql.Filters.Bound.{and_then_inv, ok_injective}
use summerrs_admin.Sql.Filters.Sound.{visible_column_inv}
use summerrs_admin.Sql.Selection.{
  readable_columns, resolve_names, requested_columns, not_empty_columns, resolve_readable_columns,
  quoted_name, readable_select_list,
}

abbrev pub IsOpen : TableColumnSchema → Type 0
IsOpen c = c.hidden_on_read ≡ false

kept-IsOpen :
    (b : Bool) (c : TableColumnSchema) (rest : List TableColumnSchema)
    → c.hidden_on_read ≡ b
    → All IsOpen rest
    → All IsOpen (if b then rest else c ∷ rest)
kept-IsOpen true c rest h all = all
kept-IsOpen false c rest h all = (h, all)

readable_columns-IsOpen : (columns : List TableColumnSchema) → All IsOpen (readable_columns columns)
readable_columns-IsOpen [] = tt
readable_columns-IsOpen (c ∷ columns) =
    kept-IsOpen c.hidden_on_read c (readable_columns columns) refl (readable_columns-IsOpen columns)

find_column-name :
    (name : Bytes) (columns : List TableColumnSchema) (c : TableColumnSchema)
    → find_column name columns ≡ some c
    → c.name ≡ name
find_column-name name [] c e = cc e
find_column-name name (d ∷ columns) c e = elim (Bool-cases (eq_bytes d.name name)) [
  | inl hit ↦
      let same : d ≡ c = cc (rw hit at e) in
      ap TableColumnSchema.name (sym same) ∙ eq_of_eq_bytes _ _ hit
  | inr miss ↦ find_column-name name columns c (rw miss at e)
]

-- The columns that were asked for: those of the names, in their order, or all that are not hidden.
abbrev pub Answers : TableSchema → Option (List Bytes) → List TableColumnSchema → Type 0
Answers schema none columns = columns ≡ readable_columns schema.columns
Answers schema (some names) columns = map TableColumnSchema.name columns ≡ names

resolve_names-Answers :
    (schema : TableSchema) (names : List Bytes) (columns : List TableColumnSchema)
    → resolve_names schema names ≡ ok columns
    → All IsOpen columns × (map TableColumnSchema.name columns ≡ names)
unfolding resolve_names
resolve_names-Answers schema [] columns e =
    let same = ok_injective _ columns e in
    subst (λ z. All IsOpen z × (map TableColumnSchema.name z ≡ [])) same (tt, refl)
resolve_names-Answers schema (name ∷ names) columns e =
    let (c, e1, e2) = and_then_inv (visible_column (find_column name schema.columns)) _ columns e in
    let (rest, e3, e4) = and_then_inv (resolve_names schema names) _ columns e2 in
    let (found, open_column) = visible_column_inv _ c e1 in
    let (all, named) = resolve_names-Answers schema names rest e3 in
    subst (λ z. All IsOpen z × (map TableColumnSchema.name z ≡ name ∷ names))
      (ok_injective _ columns e4)
      (
        (open_column, all),
        ap (λ z. z ∷ map TableColumnSchema.name rest) (find_column-name name _ c found)
            ∙ ap (λ z. name ∷ z) named,
      )

requested_columns-Answers :
    (schema : TableSchema) (requested : Option (List Bytes)) (columns : List TableColumnSchema)
    → requested_columns schema requested ≡ ok columns
    → All IsOpen columns × Answers schema requested columns
requested_columns-Answers schema none columns e =
    let same = ok_injective _ columns e in
    (subst (All IsOpen) same (readable_columns-IsOpen schema.columns), sym same)
requested_columns-Answers schema (some []) columns e = cc e
requested_columns-Answers schema (some (name ∷ names)) columns e =
    resolve_names-Answers schema (name ∷ names) columns e

not_empty_columns_inv :
    (found columns : List TableColumnSchema)
    → not_empty_columns found ≡ ok columns
    → (found ≡ columns) × (1 ≤ length columns)
not_empty_columns_inv [] columns e = cc e
not_empty_columns_inv (c ∷ found) columns e =
    let same = ok_injective _ columns e in (same, subst (λ z. 1 ≤ length z) same (omega arith))

-- A select list that was built names one column or more, none of them hidden: the requested ones in
-- their order, or without a request all that are not hidden.
pub readable_select_list-Answers :
    (schema : TableSchema) (requested : Option (List Bytes)) (text : Bytes)
    → readable_select_list schema requested ≡ ok text
    → (columns : List TableColumnSchema) × (text ≡ join_with (codes ", ") (map quoted_name columns))
      × All IsOpen columns
      × Answers schema requested columns
      × (1 ≤ length columns)
unfolding readable_select_list resolve_readable_columns
readable_select_list-Answers schema requested text e =
    let (columns, e1, e2) = and_then_inv (resolve_readable_columns schema requested) _ text e in
    let (found, e3, e4) = and_then_inv (requested_columns schema requested) _ columns e1 in
    let (same, some_column) = not_empty_columns_inv found columns e4 in
    let (all, answers) = requested_columns-Answers schema requested found e3 in
    (
      columns,
      sym (ok_injective _ text e2),
      subst (All IsOpen) same all,
      subst (Answers schema requested) same answers,
      some_column,
    )
