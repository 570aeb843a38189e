-- ===== src/Sql/Filters.antt =====
-- The WHERE clause of the table tools: crates/summer-mcp/src/table_tools/query_builder.rs. The vector
-- of parameters is passed along.
pub mod Clause
pub mod Bound
pub mod Leaves
pub mod Sound
mod Tests
use summerrs_admin.Base.{
  ℕ, ◌+◌, ◌==◌, Bool, true, false, Option, none, some, List, [], ◌∷◌, ◌++◌, length, if◌then◌else◌,
}
use summerrs_admin.Base.Text.{Bytes, codes, decimal}
use summerrs_admin.Sql.Schema.{
  JsonValue, null, boolean, number, string, array, object, JsonValues, nil, cons, Serde,
  TableColumnSchema, TableSchema, FilterError, FilterResult, ok, err, and_then, unknown_column,
  hidden_column, value_required, values_required, values_empty, null_value, two_values,
  string_required, both_groups, no_group, empty_group, find_column, ensure_valid_identifier,
  quote_identifier, bind_cast_value,
}
use summerrs_admin.Sql.Shorthand.{
  FilterOp, eq, ne, gt, gte, lt, lte, like, ilike, in_values, not_in, between, is_null, is_not_null,
  TableFilter, parse_filter_shorthand,
}

-- `TableFilterInput` and `TableFilterGroup`
mutual
  pub data TableFilterInput : Type 0 where
    structured : TableFilter → TableFilterInput
    group : (and or : Inputs) → TableFilterInput
    shorthand : Bytes → TableFilterInput

  pub data Inputs : Type 0 where
    absent : Inputs
    given : InputList → Inputs

  pub data InputList : Type 0 where
    nothing : InputList
    item : TableFilterInput → InputList → InputList

-- What a builder returns: its text, and the parameters behind it.
abbrev pub Built : Type 0
Built = FilterResult (Bytes × List Bytes)

-- `join`
abbrev pub join_with : (separator : Bytes) → List Bytes → Bytes
join_with separator [] = []
join_with separator (t ∷ []) = t
join_with separator (t ∷ u ∷ ts) = t ++ separator ++ join_with separator (u ∷ ts)

abbrev pub is_json_null : JsonValue → Bool
is_json_null null = true
is_json_null (boolean _) = false
is_json_null (number _) = false
is_json_null (string _) = false
is_json_null (array _) = false
is_json_null (object _) = false

abbrev pub string_value : JsonValue → FilterResult Bytes
string_value (string s) = ok s
string_value null = err string_required
string_value (boolean _) = err string_required
string_value (number _) = err string_required
string_value (array _) = err string_required
string_value (object _) = err string_required

abbrev pub require_single_filter_value : Option JsonValue → FilterResult JsonValue
require_single_filter_value none = err value_required
require_single_filter_value (some v) = ok v

abbrev pub require_filter_values : Option JsonValues → FilterResult JsonValues
require_filter_values none = err values_required
require_filter_values (some nil) = err values_empty
require_filter_values (some (cons v vs)) = ok (cons v vs)

abbrev pub visible_column : Option TableColumnSchema → FilterResult TableColumnSchema
visible_column none = err unknown_column
visible_column (some c) = if c.hidden_on_read then err hidden_column else ok c

-- Behind the loop of `build_filter_group_items`: one clause stays as it is.
abbrev pub grouped : (joiner : Bytes) → List Bytes × List Bytes → Built
grouped joiner ([], params) = err empty_group
grouped joiner (t ∷ [], params) = ok (t, params)
grouped joiner (t ∷ u ∷ ts, params) =
    ok (codes "(" ++ join_with joiner (t ∷ u ∷ ts) ++ codes ")", params)

abbrev pub all_filters : List Bytes × List Bytes → Option Bytes × List Bytes
all_filters ([], params) = (none, params)
all_filters (t ∷ ts, params) = (some (join_with (codes " AND ") (t ∷ ts)), params)

module _ (J : Serde) where
  -- A text around one bound value.
  abbrev pub bound_text : (before : Bytes) → TableColumnSchema → JsonValue → List Bytes → Built
  bound_text before column value params =
      and_then (bind_cast_value J column value params) (λ bound. ok (before ++ bound.0, bound.1))

  -- `=` and `<>`, with what they say of null.
  unfoldable pub equality_clause :
      (operator null_text : Bytes) → TableColumnSchema → Option JsonValue → List Bytes → Built
  unfolding bind_cast_value
  equality_clause operator null_text column value params =
      and_then (require_single_filter_value value) (λ v.
        if is_json_null v
        then ok (quote_identifier column.name ++ null_text, params)
        else bound_text (quote_identifier column.name ++ operator) column v params)

  unfoldable pub compare_clause :
      (operator : Bytes) → TableColumnSchema → Option JsonValue → List Bytes → Built
  unfolding bind_cast_value
  compare_clause operator column value params = and_then (require_single_filter_value value) (λ v.
      if is_json_null v
      then err null_value
      else bound_text (quote_identifier column.name ++ operator) column v params)

  unfoldable pub pattern_clause :
      (operator : Bytes) → TableColumnSchema → Option JsonValue → List Bytes → Built
  pattern_clause operator column value params = and_then (require_single_filter_value value) (λ v.
      and_then (string_value v) (λ pattern. ok (
        codes "CAST("
            ++ quote_identifier column.name
            ++ codes " AS text)"
            ++ operator
            ++ b'$' ∷ decimal (length params + 1),
        params ++ pattern ∷ [],
      )))

  -- The loop of `build_multi_value_expressions`.
  unfoldable pub value_expressions :
      TableColumnSchema → JsonValues → List Bytes → FilterResult (List Bytes × List Bytes)
  unfolding bind_cast_value
  value_expressions column nil params = ok ([], params)
  value_expressions column (cons v vs) params =
      if is_json_null v
      then err null_value
      else and_then (bind_cast_value J column v params) (λ first.
        and_then (value_expressions column vs first.1) (λ rest. ok (first.0 ∷ rest.0, rest.1)))

  unfoldable pub membership_clause :
      (operator : Bytes) → TableColumnSchema → Option JsonValues → List Bytes → Built
  unfolding value_expressions
  membership_clause operator column values params = and_then (require_filter_values values) (λ vs.
      and_then (value_expressions column vs params) (λ expressions. ok (
        quote_identifier column.name
            ++ operator
            ++ join_with (codes ", ") expressions.0
            ++ codes ")",
        expressions.1,
      )))

  abbrev pub range_clause : TableColumnSchema → JsonValues → List Bytes → Built
  range_clause column nil params = err two_values
  range_clause column (cons a nil) params = err two_values
  range_clause column (cons a (cons b (cons c vs))) params = err two_values
  range_clause column (cons a (cons b nil)) params =
      if is_json_null a
      then err null_value
      else if is_json_null b
      then err null_value
      else and_then (bind_cast_value J column a params) (λ start.
        and_then (bind_cast_value J column b start.1) (λ end. ok (
          quote_identifier column.name ++ codes " BETWEEN " ++ start.0 ++ codes " AND " ++ end.0,
          end.1,
        )))

  unfoldable pub build_filter_clause :
      FilterOp → TableColumnSchema → Option JsonValue → Option JsonValues → List Bytes → Built
  unfolding equality_clause compare_clause pattern_clause membership_clause bind_cast_value
  build_filter_clause eq c value values params =
      equality_clause (codes " = ") (codes " IS NULL") c value params
  build_filter_clause ne c value values params =
      equality_clause (codes " <> ") (codes " IS NOT NULL") c value params
  build_filter_clause gt c value values params = compare_clause (codes " > ") c value params
  build_filter_clause gte c value values params = compare_clause (codes " >= ") c value params
  build_filter_clause lt c value values params = compare_clause (codes " < ") c value params
  build_filter_clause lte c value values params = compare_clause (codes " <= ") c value params
  build_filter_clause like c value values params = pattern_clause (codes " LIKE ") c value params
  build_filter_clause ilike c value values params = pattern_clause (codes " ILIKE ") c value params
  build_filter_clause in_values c value values params =
      membership_clause (codes " IN (") c values params
  build_filter_clause not_in c value values params =
      membership_clause (codes " NOT IN (") c values params
  build_filter_clause between c value values params =
      and_then (require_filter_values values) (λ vs. range_clause c vs params)
  build_filter_clause is_null c value values params =
      ok (quote_identifier c.name ++ codes " IS NULL", params)
  build_filter_clause is_not_null c value values params =
      ok (quote_identifier c.name ++ codes " IS NOT NULL", params)

  unfoldable pub build_single_filter_clause : TableSchema → TableFilter → List Bytes → Built
  unfolding build_filter_clause
  build_single_filter_clause schema filter params =
      and_then (ensure_valid_identifier filter.column) (λ valid.
        and_then (visible_column (find_column filter.column schema.columns))
          (λ column. build_filter_clause filter.op column filter.value filter.values params))

  unfoldable mutual
    unfolding build_single_filter_clause parse_filter_shorthand

    pub build_filter_input_clause : TableSchema → TableFilterInput → List Bytes → Built
    build_filter_input_clause schema (structured filter) params =
        build_single_filter_clause schema filter params
    build_filter_input_clause schema (group (given items) (given others)) params = err both_groups
    build_filter_input_clause schema (group absent absent) params = err no_group
    build_filter_input_clause schema (group (given items) absent) params =
        and_then (build_input_clauses schema items params) (λ built. grouped (codes " AND ") built)
    build_filter_input_clause schema (group absent (given items)) params =
        and_then (build_input_clauses schema items params) (λ built. grouped (codes " OR ") built)
    build_filter_input_clause schema (shorthand text) params =
        and_then (parse_filter_shorthand J text)
          (λ filter. build_single_filter_clause schema filter params)

    -- The loops over inputs.
    pub build_input_clauses :
        TableSchema → InputList → List Bytes → FilterResult (List Bytes × List Bytes)
    build_input_clauses schema nothing params = ok ([], params)
    build_input_clauses schema (item input items) params =
        and_then (build_filter_input_clause schema input params) (λ first.
          and_then (build_input_clauses schema items first.1)
            (λ rest. ok (first.0 ∷ rest.0, rest.1)))

  unfoldable pub build_filters_clause :
      TableSchema → Inputs → FilterResult (Option Bytes × List Bytes)
  unfolding build_input_clauses
  build_filters_clause schema absent = ok (none, [])
  build_filters_clause schema (given items) =
      and_then (build_input_clauses schema items []) (λ built. ok (all_filters built))
