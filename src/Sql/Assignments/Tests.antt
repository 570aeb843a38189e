-- ===== src/Sql/Assignments/Tests.antt =====
-- Assignments and keys of concrete requests, and the theorems about them applied.
use summerrs_admin.Base.{
  ◌+◌, ◌≤◌, ◌≡◌, refl, Bool, true, false, none, List, [], ◌∷◌, map, length, All,
}
use summerrs_admin.Base.Text.{Bytes, codes, decimal}
use summerrs_admin.Sql.Schema.{
  null, number, string, Serde, TableColumnSchema, TableSchema, ok, err, not_writable,
  wrong_key_fields, null_key, missing_key, empty_values,
}
use summerrs_admin.Sql.Filters.{join_with}
use summerrs_admin.Sql.Filters.Clause.{Counts}
use summerrs_admin.Sql.Assignments.{
  JsonMap, assignment_text, primary_keys, build_insert_assignments, build_update_assignments,
  build_key_clause,
}
use summerrs_admin.Sql.Assignments.Written.{
  Target, target_pair, target_numbers, IsWritable, build_update_assignments-AreWritten,
}
use summerrs_admin.Sql.Assignments.Keys.{key_texts, build_key_clause-key_texts}

abbrev no_json : Serde
no_json = record { from_str = λ s. none; to_string = λ v. none }

-- The key of the table, or a column beside it.
abbrev column : (name pg_type : Bytes) → (key : Bool) → (updated : Bool) → TableColumnSchema
column name pg_type key updated = record {
  name = name;
  pg_type = pg_type;
  nullable = true;
  primary_key = key;
  hidden_on_read = false;
  writable_on_create = true;
  writable_on_update = updated;
  default_value = none;
  comment = none;
  is_identity = false;
  is_generated = false;
  enum_values = none;
}

abbrev sys_role : TableSchema
sys_role = record {
  schema = codes "public";
  table = codes "sys_role";
  comment = none;
  primary_key = codes "id" ∷ [];
  columns =
      column (codes "id") (codes "bigint") true false
      ∷ column (codes "name") (codes "text") false true
      ∷ column (codes "remark") (codes "text") false true
      ∷ [];
}

abbrev values : JsonMap
values = (codes "name", string (codes "x'; drop")) ∷ (codes "remark", null) ∷ []

abbrev assigned : Bytes
assigned = codes "\"name\" = CAST($1 AS text), \"remark\" = NULL"

updated : build_update_assignments no_json sys_role values ≡ ok (assigned, codes "x'; drop" ∷ [])
unfolding build_update_assignments decimal
updated = refl

inserted :
    build_insert_assignments no_json sys_role values
    ≡ ok (codes "\"name\", \"remark\"", codes "CAST($1 AS text), NULL", codes "x'; drop" ∷ [])
unfolding build_insert_assignments decimal
inserted = refl

key_not_updated :
    build_update_assignments no_json sys_role ((codes "id", number (codes "7")) ∷ [])
    ≡ err not_writable
unfolding build_update_assignments
key_not_updated = refl

nothing_updated : build_update_assignments no_json sys_role [] ≡ err empty_values
unfolding build_update_assignments
nothing_updated = refl

abbrev key : JsonMap
key = (codes "id", number (codes "7")) ∷ []

keyed :
    build_key_clause no_json sys_role key (codes "x" ∷ [])
    ≡ ok (codes "\"id\" = CAST($2 AS bigint)", codes "x" ∷ codes "7" ∷ [])
unfolding build_key_clause decimal
keyed = refl

key_too_long : build_key_clause no_json sys_role values [] ≡ err wrong_key_fields
unfolding build_key_clause
key_too_long = refl

key_other : build_key_clause no_json sys_role ((codes "name", null) ∷ []) [] ≡ err missing_key
unfolding build_key_clause
key_other = refl

key_is_null : build_key_clause no_json sys_role ((codes "id", null) ∷ []) [] ≡ err null_key
unfolding build_key_clause
key_is_null = refl

build_update_assignments-AreWritten_example :
    (ts : List Target) × (assigned
      ≡ join_with (codes ", ") (map assignment_text (map target_pair ts)))
    × Counts 0 (target_numbers ts) 1
    × All (IsWritable sys_role TableColumnSchema.writable_on_update) ts
    × (length ts ≡ 2)
build_update_assignments-AreWritten_example =
    build_update_assignments-AreWritten no_json sys_role values assigned (codes "x'; drop" ∷ [])
      updated

build_key_clause-key_texts_example :
    (codes "\"id\" = CAST($2 AS bigint)"
      ≡ join_with (codes " AND ") (key_texts (primary_keys sys_role.columns) 1))
    × (2 ≡ 1 + length (primary_keys sys_role.columns))
    × (1 ≤ length (primary_keys sys_role.columns))
build_key_clause-key_texts_example =
    build_key_clause-key_texts no_json sys_role key (codes "x" ∷ []) _ _ keyed
