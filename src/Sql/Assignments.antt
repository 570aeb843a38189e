-- ===== src/Sql/Assignments.antt =====
-- Columns and values of INSERT and UPDATE, and the key of a row:
-- crates/summer-mcp/src/table_tools/query_builder.rs. A `BTreeMap` is the list of its entries in the
-- order of their keys.
pub mod Written
pub mod Keys
mod Tests
use summerrs_admin.Base.{
  ℕ, ◌+◌, ◌==◌, Bool, true, false, not, Option, none, some, List, [], ◌∷◌, ◌++◌, length, map,
  eq_bytes, if◌then◌else◌,
}
use summerrs_admin.Base.Text.{Bytes, codes}
use summerrs_admin.Sql.Schema.{
  JsonValue, Serde, TableColumnSchema, TableSchema, FilterError, FilterResult, ok, err, and_then,
  unknown_column, empty_values, not_writable, no_primary_key, wrong_key_fields, missing_key,
  null_key, find_column, ensure_valid_identifier, quote_identifier, bind_cast_value,
}
use summerrs_admin.Sql.Filters.{join_with, is_json_null}

abbrev pub JsonMap : Type 0
JsonMap = List (Bytes × JsonValue)

abbrev pub get : Bytes → JsonMap → Option JsonValue
get name [] = none
get name ((key, value) ∷ entries) =
    let rest = get name entries in if eq_bytes key name then some value else rest

abbrev pub writable_column :
    (writable : TableColumnSchema → Bool)
    → Option TableColumnSchema
    → FilterResult TableColumnSchema
writable_column writable none = err unknown_column
writable_column writable (some c) = if writable c then ok c else err not_writable

abbrev pub primary_keys : List TableColumnSchema → List TableColumnSchema
primary_keys [] = []
primary_keys (c ∷ columns) =
    let rest = primary_keys columns in if c.primary_key then c ∷ rest else rest

abbrev pub assignment_text : Bytes × Bytes → Bytes
assignment_text (name, placeholder) = name ++ codes " = " ++ placeholder

abbrev pub first_of : Bytes × Bytes → Bytes
first_of (name, placeholder) = name

abbrev pub second_of : Bytes × Bytes → Bytes
second_of (name, placeholder) = placeholder

abbrev pub not_null_key : Option JsonValue → FilterResult JsonValue
not_null_key none = err missing_key
not_null_key (some value) = if is_json_null value then err null_key else ok value

module _ (J : Serde) (schema : TableSchema) where
  -- The loop of both builders: quoted names with their placeholders, and the parameters.
  unfoldable pub assignments :
      (writable : TableColumnSchema → Bool)
      → JsonMap
      → (params : List Bytes) → FilterResult (List (Bytes × Bytes) × List Bytes)
  unfolding bind_cast_value
  assignments writable [] params = ok ([], params)
  assignments writable ((name, value) ∷ values) params =
      and_then (ensure_valid_identifier name) (λ valid.
        and_then (writable_column writable (find_column name schema.columns)) (λ column.
          and_then (bind_cast_value J column value params) (λ bound.
            and_then (assignments writable values bound.1)
              (λ rest. ok ((quote_identifier column.name, bound.0) ∷ rest.0, rest.1)))))

  abbrev insert_texts : List (Bytes × Bytes) × List Bytes → Bytes × Bytes × List Bytes
  insert_texts (pairs, params) = (
    join_with (codes ", ") (map first_of pairs),
    join_with (codes ", ") (map second_of pairs),
    params,
  )

  -- The columns, the expressions, and the parameters.
  unfoldable pub build_insert_assignments : JsonMap → FilterResult (Bytes × Bytes × List Bytes)
  unfolding assignments
  build_insert_assignments [] = err empty_values
  build_insert_assignments (value ∷ values) =
      and_then (assignments TableColumnSchema.writable_on_create (value ∷ values) [])
        (λ built. ok (insert_texts built))

  unfoldable pub build_update_assignments : JsonMap → FilterResult (Bytes × List Bytes)
  unfolding assignments
  build_update_assignments [] = err empty_values
  build_update_assignments (value ∷ values) =
      and_then (assignments TableColumnSchema.writable_on_update (value ∷ values) [])
        (λ built. ok (join_with (codes ", ") (map assignment_text built.0), built.1))

  -- The loop over the columns of the key.
  unfoldable pub key_clauses :
      List TableColumnSchema
      → JsonMap
      → (params : List Bytes) → FilterResult (List Bytes × List Bytes)
  unfolding bind_cast_value
  key_clauses [] key params = ok ([], params)
  key_clauses (column ∷ columns) key params =
      and_then (not_null_key (get column.name key)) (λ value.
        and_then (bind_cast_value J column value params) (λ bound.
          and_then (key_clauses columns key bound.1) (λ rest.
            ok (assignment_text (quote_identifier column.name, bound.0) ∷ rest.0, rest.1))))

  abbrev pub key_text :
      (columns : List TableColumnSchema)
      → JsonMap
      → (params : List Bytes) → FilterResult (Bytes × List Bytes)
  key_text [] key params = err no_primary_key
  key_text (column ∷ columns) key params =
      if not (length key == length (column ∷ columns))
      then err wrong_key_fields
      else and_then (key_clauses (column ∷ columns) key params)
          (λ built. ok (join_with (codes " AND ") built.0, built.1))

  unfoldable pub build_key_clause :
      JsonMap → (params : List Bytes) → FilterResult (Bytes × List Bytes)
  unfolding key_clauses
  build_key_clause key params = key_text (primary_keys schema.columns) key params
