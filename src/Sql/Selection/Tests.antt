-- ===== src/Sql/Selection/Tests.antt =====
-- Select lists of concrete requests, and the theorem about them applied.
use summerrs_admin.Base.{
  ◌≤◌, ◌≡◌, refl, Bool, true, false, Option, none, some, List, [], ◌∷◌, map, length, All,
}
use summerrs_admin.Base.Text.{Bytes, codes}
use summerrs_admin.Sql.Schema.{
  TableColumnSchema, TableSchema, ok, err, unknown_column, hidden_column, empty_columns,
  no_readable_columns,
}
use summerrs_admin.Sql.Filters.{join_with}
use summerrs_admin.Sql.Selection.{quoted_name, readable_select_list}
use summerrs_admin.Sql.Selection.Readable.{IsOpen, Answers, readable_select_list-Answers}

abbrev column : (name : Bytes) → (hidden : Bool) → TableColumnSchema
column name hidden = record {
  name = name;
  pg_type = codes "text";
  nullable = true;
  primary_key = false;
  hidden_on_read = hidden;
  writable_on_create = true;
  writable_on_update = true;
  default_value = none;
  comment = none;
  is_identity = false;
  is_generated = false;
  enum_values = none;
}

abbrev user_table : List TableColumnSchema → TableSchema
user_table columns = record {
  schema = codes "public";
  table = codes "sys_user";
  comment = none;
  primary_key = [];
  columns = columns;
}

abbrev sys_user : TableSchema
sys_user =
    user_table (
      column (codes "id") false ∷ column (codes "password") true ∷ column (codes "name") false ∷ [])

all_read : readable_select_list sys_user none ≡ ok (codes "\"id\", \"name\"")
unfolding readable_select_list
all_read = refl

abbrev asked : Option (List Bytes)
asked = some (codes "name" ∷ codes "id" ∷ [])

two_read : readable_select_list sys_user asked ≡ ok (codes "\"name\", \"id\"")
unfolding readable_select_list
two_read = refl

password_refused : readable_select_list sys_user (some (codes "password" ∷ [])) ≡ err hidden_column
unfolding readable_select_list
password_refused = refl

unknown_refused : readable_select_list sys_user (some (codes "*" ∷ [])) ≡ err unknown_column
unfolding readable_select_list
unknown_refused = refl

nothing_asked : readable_select_list sys_user (some []) ≡ err empty_columns
unfolding readable_select_list
nothing_asked = refl

all_hidden :
    readable_select_list (user_table (column (codes "password") true ∷ [])) none
    ≡ err no_readable_columns
unfolding readable_select_list
all_hidden = refl

readable_select_list-Answers_example :
    (columns : List TableColumnSchema) × (codes "\"name\", \"id\""
      ≡ join_with (codes ", ") (map quoted_name columns))
    × All IsOpen columns
    × Answers sys_user asked columns
    × (1 ≤ length columns)
readable_select_list-Answers_example =
    readable_select_list-Answers sys_user asked (codes "\"name\", \"id\"") two_read
