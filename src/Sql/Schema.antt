-- ===== src/Sql/Schema.antt =====
-- The description of a table, and what goes into SQL text from it:
-- crates/summer-mcp/src/table_tools/schema.rs. Indexes, keys and constraints of a table are left out:
-- the clauses do not read them. JSON numbers and objects are the texts that serde_json prints.
use summerrs_admin.Base.{
  ℕ, ◌+◌, Bool, true, Option, none, some, List, [], ◌∷◌, ◌++◌, ◌==◌, ◌&&◌, length, eq_bytes,
  if◌then◌else◌,
}
use summerrs_admin.Base.Text.{Bytes, codes, decimal}
use summerrs_admin.Sql.Scanner.{starts_word, in_word}

mutual
  pub data JsonValue : Type 0 where
    null : JsonValue
    boolean : Bool → JsonValue
    number : Bytes → JsonValue
    string : Bytes → JsonValue
    array : JsonValues → JsonValue
    object : Bytes → JsonValue

  pub data JsonValues : Type 0 where
    nil : JsonValues
    cons : JsonValue → JsonValues → JsonValues

-- What the code uses of serde_json.
pub record Serde : Type 0 where
  pub from_str : Bytes → Option JsonValue
  pub to_string : JsonValue → Option Bytes

pub record TableColumnSchema : Type 0 where
  pub name : Bytes
  pub pg_type : Bytes
  pub nullable : Bool
  pub primary_key : Bool
  pub hidden_on_read : Bool
  pub writable_on_create : Bool
  pub writable_on_update : Bool
  pub default_value : Option Bytes
  pub comment : Option Bytes
  pub is_identity : Bool
  pub is_generated : Bool
  pub enum_values : Option (List Bytes)

pub record TableSchema : Type 0 where
  pub schema : Bytes
  pub table : Bytes
  pub comment : Option Bytes
  pub primary_key : List Bytes
  pub columns : List TableColumnSchema

-- The errors, named by their messages.
pub data FilterError : Type 0 where
  empty_identifier invalid_identifier : FilterError
  unknown_column hidden_column : FilterError
  value_required values_required values_empty null_value two_values string_required : FilterError
  both_groups no_group empty_group : FilterError
  empty_shorthand no_operator unsupported_operator no_value no_array empty_array : FilterError
  serialization_failed empty_columns no_readable_columns : FilterError
  empty_values not_writable no_primary_key wrong_key_fields missing_key null_key : FilterError

pub data FilterResult (A : Type 0) : Type 0 where
  ok : A → FilterResult A
  err : FilterError → FilterResult A

-- The operator `?`.
abbrev pub and_then : {A B : Type 0} → FilterResult A → (A → FilterResult B) → FilterResult B
and_then (ok a) f = f a
and_then (err e) f = err e

-- `schema.column`
abbrev pub find_column : Bytes → List TableColumnSchema → Option TableColumnSchema
find_column name [] = none
find_column name (c ∷ columns) =
    let rest = find_column name columns in if eq_bytes c.name name then some c else rest

abbrev pub all_in_word : Bytes → Bool
all_in_word [] = true
all_in_word (b ∷ s) = in_word b && all_in_word s

abbrev pub ensure_valid_identifier : Bytes → FilterResult Unit
ensure_valid_identifier [] = err empty_identifier
ensure_valid_identifier (b ∷ s) =
    if starts_word b
    then if all_in_word s then ok tt else err invalid_identifier
    else err invalid_identifier

abbrev pub double_quotes : Bytes → Bytes
double_quotes [] = []
double_quotes (b ∷ s) =
    let rest = double_quotes s in if b == b'"' then b'"' ∷ b'"' ∷ rest else b ∷ rest

abbrev pub quote_identifier : Bytes → Bytes
quote_identifier identifier = b'"' ∷ double_quotes identifier ++ b'"' ∷ []

abbrev pub or_failed : Option Bytes → FilterResult (Option Bytes)
or_failed none = err serialization_failed
or_failed (some s) = ok (some s)

abbrev pub json_value_to_bound_string : Serde → JsonValue → FilterResult (Option Bytes)
json_value_to_bound_string J null = ok none
json_value_to_bound_string J (boolean b) = ok (some (if b then codes "true" else codes "false"))
json_value_to_bound_string J (number n) = ok (some n)
json_value_to_bound_string J (string s) = ok (some s)
json_value_to_bound_string J (array vs) = or_failed (J.to_string (array vs))
json_value_to_bound_string J (object s) = or_failed (J.to_string (object s))

abbrev pub cast_text : (placeholder_index : ℕ) → TableColumnSchema → Bytes
cast_text placeholder_index column =
    codes "CAST($" ++ decimal placeholder_index ++ codes " AS " ++ column.pg_type ++ codes ")"

abbrev pub bind_bound :
    (placeholder_index : ℕ)
    → TableColumnSchema
    → Option Bytes
    → (params : List Bytes) → Bytes × List Bytes
bind_bound placeholder_index column none params = (codes "NULL", params)
bind_bound placeholder_index column (some bound) params =
    (cast_text placeholder_index column, params ++ bound ∷ [])

-- The text and the parameters behind it; the parameters are texts.
unfoldable pub bind_cast_value :
    Serde
    → TableColumnSchema
    → JsonValue
    → (params : List Bytes) → FilterResult (Bytes × List Bytes)
bind_cast_value J column value params =
    and_then (json_value_to_bound_string J value)
      (λ bound. ok (bind_bound (length params + 1) column bound params))
