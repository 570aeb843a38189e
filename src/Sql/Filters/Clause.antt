-- ===== src/Sql/Filters/Clause.antt =====
-- The conditions that a WHERE clause may be made of, and their text: nothing of a request but column
-- names and the numbers of its parameters.
use summerrs_admin.Base.{ℕ, ◌+◌, ◌≡◌, Bool, true, false, some, List, [], ◌∷◌, ◌++◌, map}
use summerrs_admin.Base.Text.{Bytes, codes, decimal}
use summerrs_admin.Sql.Schema.{
  TableColumnSchema, TableSchema, find_column, quote_identifier, cast_text,
}
use summerrs_admin.Sql.Filters.{join_with}

pub data Operator : Type 0 where
  equals differs above at_least below at_most : Operator

abbrev pub operator_text : Operator → Bytes
operator_text equals = codes " = "
operator_text differs = codes " <> "
operator_text above = codes " > "
operator_text at_least = codes " >= "
operator_text below = codes " < "
operator_text at_most = codes " <= "

-- A condition on one column, with the numbers of its parameters.
pub data Leaf : Type 0 where
  null_test : (negated : Bool) → Leaf
  comparison : Operator → ℕ → Leaf
  pattern_test : (insensitive : Bool) → ℕ → Leaf
  membership : (negated : Bool) → List ℕ → Leaf
  range : ℕ → ℕ → Leaf

abbrev pub null_text : (negated : Bool) → Bytes
null_text false = codes " IS NULL"
null_text true = codes " IS NOT NULL"

abbrev pub pattern_text : (insensitive : Bool) → Bytes
pattern_text false = codes " LIKE "
pattern_text true = codes " ILIKE "

abbrev pub membership_text : (negated : Bool) → Bytes
membership_text false = codes " IN ("
membership_text true = codes " NOT IN ("

abbrev pub leaf_text : TableColumnSchema → Leaf → Bytes
leaf_text c (null_test negated) = quote_identifier c.name ++ null_text negated
leaf_text c (comparison o n) = (quote_identifier c.name ++ operator_text o) ++ cast_text n c
leaf_text c (pattern_test insensitive n) =
    codes "CAST("
    ++ quote_identifier c.name
    ++ codes " AS text)"
    ++ pattern_text insensitive
    ++ b'$' ∷ decimal n
leaf_text c (membership negated ns) =
    quote_identifier c.name
    ++ membership_text negated
    ++ join_with (codes ", ") (map (λ n. cast_text n c) ns)
    ++ codes ")"
leaf_text c (range n m) =
    quote_identifier c.name ++ codes " BETWEEN " ++ cast_text n c ++ codes " AND " ++ cast_text m c

abbrev pub leaf_params : Leaf → List ℕ
leaf_params (null_test negated) = []
leaf_params (comparison o n) = n ∷ []
leaf_params (pattern_test insensitive n) = n ∷ []
leaf_params (membership negated ns) = ns
leaf_params (range n m) = n ∷ m ∷ []

mutual
  pub data Clause : Type 0 where
    leaf : TableColumnSchema → Leaf → Clause
    joined : (alternative : Bool) → Clauses → Clause

  pub data Clauses : Type 0 where
    end : Clauses
    more : Clause → Clauses → Clauses

abbrev pub joiner : (alternative : Bool) → Bytes
joiner false = codes " AND "
joiner true = codes " OR "

unfoldable mutual
  pub text : Clause → Bytes
  text (leaf c l) = leaf_text c l
  text (joined alternative cs) = codes "(" ++ join_with (joiner alternative) (texts cs) ++ codes ")"

  pub texts : Clauses → List Bytes
  texts end = []
  texts (more c cs) = text c ∷ texts cs

unfoldable mutual
  pub numbers : Clause → List ℕ
  numbers (leaf c l) = leaf_params l
  numbers (joined alternative cs) = all_numbers cs

  pub all_numbers : Clauses → List ℕ
  all_numbers end = []
  all_numbers (more c cs) = numbers c ++ all_numbers cs

-- A column of the table that may be read.
abbrev pub IsReadable : TableSchema → TableColumnSchema → Type 0
IsReadable schema c =
    (c.hidden_on_read ≡ false) × ((name : Bytes) × (find_column name schema.columns ≡ some c))

unfoldable mutual
  pub Reads : TableSchema → Clause → Type 0
  Reads schema (leaf c l) = IsReadable schema c
  Reads schema (joined alternative cs) = AllRead schema cs

  pub AllRead : TableSchema → Clauses → Type 0
  AllRead schema end = Unit
  AllRead schema (more c cs) = Reads schema c × AllRead schema cs

-- The numbers go up by one, from behind the first bound to the second.
abbrev pub Counts : (before : ℕ) → List ℕ → (after : ℕ) → Type 0
Counts before [] after = before ≡ after
Counts before (n ∷ ns) after = (n ≡ before + 1) × Counts n ns after
