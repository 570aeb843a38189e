-- ===== src/Sql/Shorthand.antt =====
-- Filters and their shorthand: crates/summer-mcp/src/table_tools/query_builder.rs.
use summerrs_admin.Base.{
  ℕ, zero, suc, Bool, ◌||◌, ◌&&◌, Option, none, some, [], ◌∷◌, eq_bytes, if◌then◌else◌,
}
use summerrs_admin.Base.Text.{Bytes, codes}
use summerrs_admin.Base.Trim.{trim, front_space}
use summerrs_admin.Sql.Scanner.{lowercase, drop}
use summerrs_admin.Sql.Schema.{
  JsonValue, string, array, JsonValues, nil, cons, Serde, FilterResult, ok, err, and_then,
  empty_shorthand, no_operator, unsupported_operator, no_value, no_array, empty_array,
}

pub data FilterOp : Type 0 where
  eq ne gt gte lt lte like ilike in_values not_in between is_null is_not_null : FilterOp

pub record TableFilter : Type 0 where
  pub column : Bytes
  pub op : FilterOp
  pub value : Option JsonValue
  pub values : Option JsonValues

-- The part up to the first white space, and the part behind it.
abbrev pub cons_split : ℕ → Option (Bytes × Bytes) → Option (Bytes × Bytes)
cons_split b none = none
cons_split b (some (before, after)) = some (b ∷ before, after)

unfoldable pub split_space : Bytes → Option (Bytes × Bytes)
split_space [] = none
split_space (b ∷ s) = elim (front_space (b ∷ s)) [
  | zero ↦ cons_split b (split_space s)
  | suc more ↦ some ([], drop more s)
]

-- The shapes of the arms of the match on the operator.
pub data Arm : Type 0 where
  single several bare : FilterOp → Arm
  refused : Arm

abbrev is_one_of : Bytes → Bytes → Bytes → Bool
is_one_of word a b = eq_bytes word a || eq_bytes word b

abbrev pub arm_of : (operator remainder : Bytes) → Arm
arm_of word remainder =
    if is_one_of word (codes "=") (codes "eq")
    then single eq
    else if is_one_of word (codes "!=") (codes "<>") || eq_bytes word (codes "ne")
    then single ne
    else if is_one_of word (codes ">") (codes "gt")
    then single gt
    else if is_one_of word (codes ">=") (codes "gte")
    then single gte
    else if is_one_of word (codes "<") (codes "lt")
    then single lt
    else if is_one_of word (codes "<=") (codes "lte")
    then single lte
    else if eq_bytes word (codes "like")
    then single like
    else if eq_bytes word (codes "ilike")
    then single ilike
    else if eq_bytes word (codes "in")
    then several in_values
    else if eq_bytes word (codes "not_in")
    then several not_in
    else if eq_bytes word (codes "between")
    then several between
    else if eq_bytes word (codes "is_null")
    then bare is_null
    else if eq_bytes word (codes "is_not_null")
    then bare is_not_null
    else if eq_bytes word (codes "is") && eq_bytes (lowercase remainder) (codes "null")
    then bare is_null
    else if eq_bytes word (codes "is") && eq_bytes (lowercase remainder) (codes "not null")
    then bare is_not_null
    else refused

abbrev pub or_text : Bytes → Option JsonValue → JsonValue
or_text s none = string s
or_text s (some v) = v

abbrev pub value_literal : Serde → (trimmed : Bytes) → FilterResult JsonValue
value_literal J [] = err no_value
value_literal J (b ∷ s) = ok (or_text (b ∷ s) (J.from_str (b ∷ s)))

-- `parse_filter_value_literal`, with `parse_jsonish_literal`
unfoldable pub parse_filter_value_literal : Serde → Bytes → FilterResult JsonValue
unfolding trim
parse_filter_value_literal J input = value_literal J (trim input)

abbrev pub array_items : Option JsonValue → FilterResult JsonValues
array_items (some (array nil)) = err empty_array
array_items (some (array (cons v vs))) = ok (cons v vs)
array_items (some JsonValue.null) = err no_array
array_items (some (JsonValue.boolean _)) = err no_array
array_items (some (JsonValue.number _)) = err no_array
array_items (some (string _)) = err no_array
array_items (some (JsonValue.object _)) = err no_array
array_items none = err no_array

abbrev pub values_literal : Serde → (trimmed : Bytes) → FilterResult JsonValues
values_literal J [] = err no_array
values_literal J (b ∷ s) = array_items (J.from_str (b ∷ s))

unfoldable pub parse_filter_values_literal : Serde → Bytes → FilterResult JsonValues
unfolding trim
parse_filter_values_literal J input = values_literal J (trim input)

abbrev pub shorthand_filter : Serde → (column remainder : Bytes) → Arm → FilterResult TableFilter
shorthand_filter J column remainder (single op) =
    and_then (parse_filter_value_literal J remainder)
      (λ v. ok (record { column = column; op = op; value = some v; values = none }))
shorthand_filter J column remainder (several op) =
    and_then (parse_filter_values_literal J remainder)
      (λ vs. ok (record { column = column; op = op; value = none; values = some vs }))
shorthand_filter J column remainder (bare op) =
    ok (record { column = column; op = op; value = none; values = none })
shorthand_filter J column remainder refused = err unsupported_operator

-- The third part of `splitn`, if there is one.
abbrev pub with_operator :
    Serde → (column rest : Bytes) → Option (Bytes × Bytes) → FilterResult TableFilter
with_operator J column rest none = shorthand_filter J column [] (arm_of (lowercase rest) [])
with_operator J column rest (some (operator, remainder)) =
    shorthand_filter J column (trim remainder) (arm_of (lowercase operator) (trim remainder))

abbrev pub with_column : Serde → Option (Bytes × Bytes) → FilterResult TableFilter
with_column J none = err no_operator
with_column J (some (column, rest)) = with_operator J column rest (split_space rest)

abbrev pub shorthand_parts : Serde → (trimmed : Bytes) → FilterResult TableFilter
shorthand_parts J [] = err empty_shorthand
shorthand_parts J (b ∷ s) = with_column J (split_space (b ∷ s))

unfoldable pub parse_filter_shorthand : Serde → Bytes → FilterResult TableFilter
unfolding trim split_space parse_filter_value_literal parse_filter_values_literal
parse_filter_shorthand J input = shorthand_parts J (trim input)
