-- ===== src/Sql/Selection.antt =====
-- The columns that a query reads: `readable_select_list` and `resolve_readable_columns` of
-- crates/summer-mcp/src/table_tools/schema.rs.
pub mod Readable
mod Tests
use summerrs_admin.Base.{Bool, true, false, Option, none, some, List, [], ◌∷◌, map, if◌then◌else◌}
use summerrs_admin.Base.Text.{Bytes, codes}
use summerrs_admin.Sql.Schema.{
  TableColumnSchema, TableSchema, FilterResult, ok, err, and_then, unknown_column, hidden_column,
  empty_columns, no_readable_columns, find_column, quote_identifier,
}
use summerrs_admin.Sql.Filters.{join_with, visible_column}

abbrev pub readable_columns : List TableColumnSchema → List TableColumnSchema
readable_columns [] = []
readable_columns (c ∷ columns) =
    let rest = readable_columns columns in if c.hidden_on_read then rest else c ∷ rest

-- The loop over the requested names.
unfoldable pub resolve_names : TableSchema → List Bytes → FilterResult (List TableColumnSchema)
resolve_names schema [] = ok []
resolve_names schema (name ∷ names) =
    and_then (visible_column (find_column name schema.columns))
      (λ column. and_then (resolve_names schema names) (λ rest. ok (column ∷ rest)))

abbrev pub requested_columns :
    TableSchema → Option (List Bytes) → FilterResult (List TableColumnSchema)
requested_columns schema none = ok (readable_columns schema.columns)
requested_columns schema (some []) = err empty_columns
requested_columns schema (some (name ∷ names)) = resolve_names schema (name ∷ names)

abbrev pub not_empty_columns : List TableColumnSchema → FilterResult (List TableColumnSchema)
not_empty_columns [] = err no_readable_columns
not_empty_columns (c ∷ columns) = ok (c ∷ columns)

unfoldable pub resolve_readable_columns :
    TableSchema → Option (List Bytes) → FilterResult (List TableColumnSchema)
unfolding resolve_names
resolve_readable_columns schema requested =
    and_then (requested_columns schema requested) not_empty_columns

abbrev pub quoted_name : TableColumnSchema → Bytes
quoted_name c = quote_identifier c.name

unfoldable pub readable_select_list : TableSchema → Option (List Bytes) → FilterResult Bytes
unfolding resolve_readable_columns
readable_select_list schema requested =
    and_then (resolve_readable_columns schema requested)
      (λ columns. ok (join_with (codes ", ") (map quoted_name columns)))
