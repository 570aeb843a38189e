-- ===== src/Sql/Filters/Leaves.antt =====
-- The text of one filter is the text of a condition on its column.
use summerrs_admin.Base.{
  ◌+◌, ◌≡◌, refl, sym, ◌∙◌, ap, Bool, true, false, Option, List, ◌++◌, length, Bool-cases, inl, inr,
}
use summerrs_admin.Base.Text.{Bytes, codes}
use summerrs_admin.Sql.Schema.{
  JsonValue, JsonValues, nil, cons, Serde, TableColumnSchema, ok, cast_text, bind_cast_value,
  quote_identifier,
}
use summerrs_admin.Sql.Shorthand.{
  FilterOp, eq, ne, gt, gte, lt, lte, like, ilike, in_values, not_in, between, is_null, is_not_null,
}
use summerrs_admin.Sql.Filters.{
  Built, join_with, is_json_null, string_value, require_single_filter_value, require_filter_values,
  bound_text, equality_clause, compare_clause, pattern_clause, value_expressions, membership_clause,
  range_clause, build_filter_clause,
}
use summerrs_admin.Sql.Filters.Clause.{
  Operator, equals, differs, above, at_least, below, at_most, operator_text, Leaf, null_test,
  comparison, pattern_test, membership, range, null_text, pattern_text, membership_text, leaf_text,
  leaf_params, Counts,
}
use summerrs_admin.Sql.Filters.Bound.{
  and_then_inv, ok_injective, length_push, bind_cast_value-Counts, value_expressions-Counts,
}

module _ (J : Serde) where
  -- A condition on the column whose text was built, with the next parameters.
  pub record LeafBuilt (c : TableColumnSchema) (params : List Bytes) (built : Bytes × List Bytes)
      : Type 0 where
    pub condition : Leaf
    pub shown : built.0 ≡ leaf_text c condition
    pub counted : Counts (length params) (leaf_params condition) (length built.1)

  -- `IS NULL` and `IS NOT NULL`
  null_test-LeafBuilt :
      (negated : Bool) (c : TableColumnSchema) (params : List Bytes) (built : Bytes × List Bytes)
      → ◌≡◌ {A = Built} (ok (quote_identifier c.name ++ null_text negated, params)) (ok built)
      → LeafBuilt c params built
  null_test-LeafBuilt negated c params built e =
      let same = ok_injective _ built e in
      record {
        condition = null_test negated;
        shown = ap (λ z. z.0) (sym same);
        counted = ap (λ z. length z.1) same;
      }

  bound_text-LeafBuilt :
      (o : Operator) (c : TableColumnSchema) (v : JsonValue) (params : List Bytes)
      (built : Bytes × List Bytes)
      → is_json_null v ≡ false
      → bound_text J (quote_identifier c.name ++ operator_text o) c v params ≡ ok built
      → LeafBuilt c params built
  bound_text-LeafBuilt o c v params built h e =
      let (bound, e1, e2) = and_then_inv (bind_cast_value J c v params) _ built e in
      let (shown, longer) = bind_cast_value-Counts J c v params bound h e1 in
      let same = ok_injective _ built e2 in
      record {
        condition = comparison o (length params + 1);
        shown =
            ap (λ z. z.0) (sym same)
            ∙ ap (λ z. (quote_identifier c.name ++ operator_text o) ++ z) shown;
        counted = (refl, sym longer ∙ ap (λ z. length z.1) same);
      }

  equality_clause-LeafBuilt :
      (o : Operator) (negated : Bool) (c : TableColumnSchema) (value : Option JsonValue)
      (params : List Bytes) (built : Bytes × List Bytes)
      → equality_clause J (operator_text o) (null_text negated) c value params ≡ ok built
      → LeafBuilt c params built
  unfolding equality_clause
  equality_clause-LeafBuilt o negated c value params built e =
      let (v, e1, e2) = and_then_inv (require_single_filter_value value) _ built e in
      elim (Bool-cases (is_json_null v)) [
        | inl void ↦ null_test-LeafBuilt negated c params built (rw void at e2)
        | inr not_null ↦ bound_text-LeafBuilt o c v params built not_null (rw not_null at e2)
      ]

  compare_clause-LeafBuilt :
      (o : Operator) (c : TableColumnSchema) (value : Option JsonValue) (params : List Bytes)
      (built : Bytes × List Bytes)
      → compare_clause J (operator_text o) c value params ≡ ok built
      → LeafBuilt c params built
  unfolding compare_clause
  compare_clause-LeafBuilt o c value params built e =
      let (v, e1, e2) = and_then_inv (require_single_filter_value value) _ built e in
      elim (Bool-cases (is_json_null v)) [
        | inl void ↦ absurd (cc (rw void at e2))
        | inr not_null ↦ bound_text-LeafBuilt o c v params built not_null (rw not_null at e2)
      ]

  pattern_clause-LeafBuilt :
      (insensitive : Bool) (c : TableColumnSchema) (value : Option JsonValue) (params : List Bytes)
      (built : Bytes × List Bytes)
      → pattern_clause J (pattern_text insensitive) c value params ≡ ok built
      → LeafBuilt c params built
  unfolding pattern_clause
  pattern_clause-LeafBuilt insensitive c value params built e =
      let (v, e1, e2) = and_then_inv (require_single_filter_value value) _ built e in
      let (pattern, e3, e4) = and_then_inv (string_value v) _ built e2 in
      let same = ok_injective _ built e4 in
      record {
        condition = pattern_test insensitive (length params + 1);
        shown = ap (λ z. z.0) (sym same);
        counted = (refl, sym (length_push J params pattern) ∙ ap (λ z. length z.1) same);
      }

  membership_clause-LeafBuilt :
      (negated : Bool) (c : TableColumnSchema) (values : Option JsonValues) (params : List Bytes)
      (built : Bytes × List Bytes)
      → membership_clause J (membership_text negated) c values params ≡ ok built
      → LeafBuilt c params built
  unfolding membership_clause
  membership_clause-LeafBuilt negated c values params built e =
      let (vs, e1, e2) = and_then_inv (require_filter_values values) _ built e in
      let (expressions, e3, e4) = and_then_inv (value_expressions J c vs params) _ built e2 in
      let same = ok_injective _ built e4 in
      let (ns, shown, counted) = value_expressions-Counts J c vs params expressions e3 in
      record {
        condition = membership negated ns;
        shown =
            ap (λ z. z.0) (sym same)
            ∙ ap
                (λ z.
                  quote_identifier c.name
                  ++ membership_text negated
                  ++ join_with (codes ", ") z
                  ++ codes ")")
                shown;
        counted = rw (sym (ap (λ z. length z.1) same)) counted;
      }

  range_clause-LeafBuilt :
      (c : TableColumnSchema) (vs : JsonValues) (params : List Bytes) (built : Bytes × List Bytes)
      → range_clause J c vs params ≡ ok built
      → LeafBuilt c params built
  range_clause-LeafBuilt c nil params built e = absurd (cc e)
  range_clause-LeafBuilt c (cons a nil) params built e = absurd (cc e)
  range_clause-LeafBuilt c (cons a (cons b (cons d vs))) params built e = absurd (cc e)
  range_clause-LeafBuilt c (cons a (cons b nil)) params built e =
      elim (Bool-cases (is_json_null a)) [
        | inl void ↦ absurd (cc (rw void at e))
        | inr first ↦ elim (Bool-cases (is_json_null b)) [
          | inl void ↦ absurd (cc (rw (first, void) at e))
          | inr second ↦
              let (start, e1, e2) =
                and_then_inv (bind_cast_value J c a params) _ built (rw (first, second) at e) in
              let (stop, e3, e4) = and_then_inv (bind_cast_value J c b start.1) _ built e2 in
              let same = ok_injective _ built e4 in
              let (shown, longer) = bind_cast_value-Counts J c a params start first e1 in
              let (shown', longer') = bind_cast_value-Counts J c b start.1 stop second e3 in
              record {
                condition = range (length params + 1) (length start.1 + 1);
                shown =
                    ap (λ z. z.0) (sym same)
                    ∙ ap
                        (λ z.
                          quote_identifier c.name
                          ++ codes " BETWEEN "
                          ++ z
                          ++ codes " AND "
                          ++ stop.0)
                        shown
                    ∙ ap
                        (λ z.
                          quote_identifier c.name
                          ++ codes " BETWEEN "
                          ++ cast_text (length params + 1) c
                          ++ codes " AND "
                          ++ z)
                        shown';
                counted = (refl, (ap (λ n. n + 1) longer, sym longer' ∙ ap (λ z. length z.1) same));
              }
        ]
      ]

  pub build_filter_clause-LeafBuilt :
      (op : FilterOp) (c : TableColumnSchema) (value : Option JsonValue)
      (values : Option JsonValues) (params : List Bytes) (built : Bytes × List Bytes)
      → build_filter_clause J op c value values params ≡ ok built
      → LeafBuilt c params built
  unfolding build_filter_clause
  build_filter_clause-LeafBuilt eq c value values params built e =
      equality_clause-LeafBuilt equals false c value params built e
  build_filter_clause-LeafBuilt ne c value values params built e =
      equality_clause-LeafBuilt differs true c value params built e
  build_filter_clause-LeafBuilt gt c value values params built e =
      compare_clause-LeafBuilt above c value params built e
  build_filter_clause-LeafBuilt gte c value values params built e =
      compare_clause-LeafBuilt at_least c value params built e
  build_filter_clause-LeafBuilt lt c value values params built e =
      compare_clause-LeafBuilt below c value params built e
  build_filter_clause-LeafBuilt lte c value values params built e =
      compare_clause-LeafBuilt at_most c value params built e
  build_filter_clause-LeafBuilt like c value values params built e =
      pattern_clause-LeafBuilt false c value params built e
  build_filter_clause-LeafBuilt ilike c value values params built e =
      pattern_clause-LeafBuilt true c value params built e
  build_filter_clause-LeafBuilt in_values c value values params built e =
      membership_clause-LeafBuilt false c values params built e
  build_filter_clause-LeafBuilt not_in c value values params built e =
      membership_clause-LeafBuilt true c values params built e
  build_filter_clause-LeafBuilt between c value values params built e =
      let (vs, e1, e2) = and_then_inv (require_filter_values values) _ built e in
      range_clause-LeafBuilt c vs params built e2
  build_filter_clause-LeafBuilt is_null c value values params built e =
      null_test-LeafBuilt false c params built e
  build_filter_clause-LeafBuilt is_not_null c value values params built e =
      null_test-LeafBuilt true c params built e
