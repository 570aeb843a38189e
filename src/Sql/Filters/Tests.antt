-- ===== src/Sql/Filters/Tests.antt =====
-- WHERE clauses of concrete filters, and the theorem about them applied.
use summerrs_admin.Base.{◌≡◌, refl, Bool, true, false, Option, none, some, List, [], ◌∷◌, length}
use summerrs_admin.Base.Text.{Bytes, codes, decimal}
use summerrs_admin.Sql.Schema.{
  JsonValue, null, number, string, JsonValues, nil, cons, Serde, TableColumnSchema, TableSchema, ok,
  err, unknown_column, hidden_column, null_value, no_operator, unsupported_operator,
}
use summerrs_admin.Sql.Shorthand.{
  FilterOp, eq, gt, ilike, between, is_not_null, parse_filter_shorthand,
}
use summerrs_admin.Sql.Filters.{
  TableFilterInput, structured, group, absent, given, InputList, nothing, item, join_with,
  build_filters_clause,
}
use summerrs_admin.Sql.Filters.Clause.{Clauses, texts, all_numbers, AllRead, Counts}
use summerrs_admin.Sql.Filters.Sound.{build_filters_clause-AreShown}

-- A serde_json that takes no text for JSON.
abbrev no_json : Serde
no_json = record { from_str = λ s. none; to_string = λ v. none }

abbrev column : (name pg_type : Bytes) → (hidden : Bool) → TableColumnSchema
column name pg_type hidden = record {
  name = name;
  pg_type = pg_type;
  nullable = false;
  primary_key = false;
  hidden_on_read = hidden;
  writable_on_create = true;
  writable_on_update = true;
  default_value = none;
  comment = none;
  is_identity = false;
  is_generated = false;
  enum_values = none;
}

abbrev sys_role : TableSchema
sys_role = record {
  schema = codes "public";
  table = codes "sys_role";
  comment = none;
  primary_key = [];
  columns =
      column (codes "status") (codes "smallint") false
      ∷ column (codes "create_time") (codes "timestamp") false
      ∷ column (codes "password") (codes "text") true
      ∷ [];
}

abbrev filter : Bytes → FilterOp → Option JsonValue → Option JsonValues → TableFilterInput
filter name op value values =
    structured (record { column = name; op = op; value = value; values = values })

abbrev status_is : Bytes → TableFilterInput
status_is n = filter (codes "status") eq (some (number n)) none

abbrev inputs : InputList
inputs =
    item
      (group absent (given (item (status_is (codes "1")) (item (status_is (codes "2")) nothing))))
      (item
        (filter (codes "create_time") between none
          (some (cons (string (codes "a")) (cons (string (codes "b")) nil))))
        nothing)

abbrev clause : Bytes
clause =
    codes
      "(\"status\" = CAST($1 AS smallint) OR \"status\" = CAST($2 AS smallint)) AND \"create_time\" BETWEEN CAST($3 AS timestamp) AND CAST($4 AS timestamp)"

abbrev values : List Bytes
values = codes "1" ∷ codes "2" ∷ codes "a" ∷ codes "b" ∷ []

built : build_filters_clause no_json sys_role (given inputs) ≡ ok (some clause, values)
unfolding build_filters_clause decimal
built = refl

hidden_refused :
    build_filters_clause no_json sys_role
      (given (item (filter (codes "password") is_not_null none none) nothing))
    ≡ err hidden_column
unfolding build_filters_clause
hidden_refused = refl

injection_refused :
    build_filters_clause no_json sys_role
      (given (item (filter (codes "stat") is_not_null none none) nothing))
    ≡ err unknown_column
unfolding build_filters_clause
injection_refused = refl

null_refused :
    build_filters_clause no_json sys_role
      (given (item (filter (codes "status") gt (some null) none) nothing))
    ≡ err null_value
unfolding build_filters_clause
null_refused = refl

shorthand_ilike :
    parse_filter_shorthand no_json (codes " role_name ILIKE  admin ")
    ≡ ok (record {
      column = codes "role_name";
      op = ilike;
      value = some (string (codes "admin"));
      values = none;
    })
unfolding parse_filter_shorthand
shorthand_ilike = refl

shorthand_not_null :
    parse_filter_shorthand no_json (codes "deleted_at is NOT NULL")
    ≡ ok (record { column = codes "deleted_at"; op = is_not_null; value = none; values = none })
unfolding parse_filter_shorthand
shorthand_not_null = refl

shorthand_column : parse_filter_shorthand no_json (codes "id") ≡ err no_operator
unfolding parse_filter_shorthand
shorthand_column = refl

shorthand_spaces : parse_filter_shorthand no_json (codes "id  = 1") ≡ err unsupported_operator
unfolding parse_filter_shorthand
shorthand_spaces = refl

build_filters_clause-AreShown_example :
    (cs : Clauses) × (clause ≡ join_with (codes " AND ") (texts cs))
    × Counts 0 (all_numbers cs) (length values)
    × AllRead sys_role cs
build_filters_clause-AreShown_example =
    build_filters_clause-AreShown no_json sys_role (given inputs) clause values built
