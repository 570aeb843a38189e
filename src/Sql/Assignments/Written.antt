-- ===== src/Sql/Assignments/Written.antt =====
-- What an UPDATE and an INSERT write.
use mathlib.Core.Path.{subst}
use summerrs_admin.Base.{
  ℕ, suc, ◌+◌, ◌≡◌, refl, sym, ◌∙◌, ap, Bool, true, false, Option, none, some, List, [], ◌∷◌, ◌++◌,
  length, map, All, if◌then◌else◌,
}
use summerrs_admin.Base.Text.{Bytes, codes}
use summerrs_admin.Sql.Schema.{
  JsonValue, Serde, TableColumnSchema, TableSchema, ok, err, not_writable, find_column,
  ensure_valid_identifier, quote_identifier, json_value_to_bound_string, cast_text, bind_bound,
  bind_cast_value,
}
use summerrs_admin.Sql.Filters.{join_with}
use summerrs_admin.Sql.Filters.Clause.{Counts}
use summerrs_admin.Sql.Filters.Bound.{and_then_inv, ok_injective, length_push}
use summerrs_admin.Sql.Filters.Sound.{Counts-append}
use summerrs_admin.Sql.Assignments.{
  JsonMap, writable_column, assignment_text, assignments, build_update_assignments,
}

-- A column and its value: a parameter, or NULL.
pub record Target : Type 0 where
  pub column : TableColumnSchema
  pub number : List ℕ

abbrev pub placeholder : TableColumnSchema → List ℕ → Bytes
placeholder c [] = codes "NULL"
placeholder c (n ∷ ns) = cast_text n c

abbrev pub target_pair : Target → Bytes × Bytes
target_pair t = (quote_identifier t.column.name, placeholder t.column t.number)

abbrev pub target_numbers : List Target → List ℕ
target_numbers [] = []
target_numbers (t ∷ ts) = t.number ++ target_numbers ts

abbrev pub IsWritable : TableSchema → (TableColumnSchema → Bool) → Target → Type 0
IsWritable schema writable t =
    (writable t.column ≡ true)
    × ((name : Bytes) × (find_column name schema.columns ≡ some t.column))

writable_column-IsWritable :
    (schema : TableSchema) (writable : TableColumnSchema → Bool) (name : Bytes)
    (o : Option TableColumnSchema) (c : TableColumnSchema) (number : List ℕ)
    → find_column name schema.columns ≡ o
    → writable_column writable o ≡ ok c
    → IsWritable schema writable (record { column = c; number = number })
writable_column-IsWritable schema writable name none c number found e = cc e
writable_column-IsWritable schema writable name (some d) c number found e =
    let (open_to, same) = allowed (writable d) d c e in
    (ap writable (sym same) ∙ open_to, (name, found ∙ ap some same))
  where
    allowed :
        (b : Bool) (d c : TableColumnSchema)
        → (if b then ok d else err not_writable) ≡ ok c
        → (b ≡ true) × (d ≡ c)
    allowed true d c e = (refl, ok_injective d c e)
    allowed false d c e = cc e

module _ (J : Serde) (schema : TableSchema) where
  -- A value is the next parameter, or NULL.
  next_value :
      (c : TableColumnSchema) (v : JsonValue) (params : List Bytes) (built : Bytes × List Bytes)
      → bind_cast_value J c v params ≡ ok built
      → (number : List ℕ) × (built.0 ≡ placeholder c number)
        × Counts (length params) number (length built.1)
  unfolding bind_cast_value
  next_value c v params built e =
      let (bound, e1, e2) = and_then_inv (json_value_to_bound_string J v) _ built e in
      by_bound bound (ok_injective _ built e2)
    where
      by_bound :
          (bound : Option Bytes)
          → bind_bound (length params + 1) c bound params ≡ built
          → (number : List ℕ) × (built.0 ≡ placeholder c number)
            × Counts (length params) number (length built.1)
      by_bound none same = ([], ap (λ z. z.0) (sym same), ap (λ z. length z.1) same)
      by_bound (some s) same = (
        (length params + 1) ∷ [],
        ap (λ z. z.0) (sym same),
        (refl, sym (length_push J params s) ∙ ap (λ z. length z.1) same),
      )

  -- The assignments that were built from entries.
  pub record AreWritten (writable : TableColumnSchema → Bool) (params : List Bytes) (entries : ℕ)
      (built : List (Bytes × Bytes) × List Bytes) : Type 0 where
    pub targets : List Target
    pub shown : built.0 ≡ map target_pair targets
    pub counted : Counts (length params) (target_numbers targets) (length built.1)
    pub allowed : All (IsWritable schema writable) targets
    pub each : length targets ≡ entries

  pub assignments-AreWritten :
      (writable : TableColumnSchema → Bool) (values : JsonMap) (params : List Bytes)
      (built : List (Bytes × Bytes) × List Bytes)
      → assignments J schema writable values params ≡ ok built
      → AreWritten writable params (length values) built
  unfolding assignments
  assignments-AreWritten writable [] params built e =
      let same = ok_injective _ built e in
      record {
        targets = [];
        shown = ap (λ z. z.0) (sym same);
        counted = ap (λ z. length z.1) same;
        allowed = tt;
        each = refl;
      }
  assignments-AreWritten writable ((name, value) ∷ values) params built e =
      let (valid, e1, e2) = and_then_inv (ensure_valid_identifier name) _ built e in
      let (c, e3, e4) =
        and_then_inv (writable_column writable (find_column name schema.columns)) _ built e2 in
      let (bound, e5, e6) = and_then_inv (bind_cast_value J c value params) _ built e4 in
      let (rest, e7, e8) = and_then_inv (assignments J schema writable values bound.1) _ built e6 in
      let (number, shown, counted) = next_value c value params bound e5 in
      let there = assignments-AreWritten writable values bound.1 rest e7 in
      subst (AreWritten writable params (length ((name, value) ∷ values))) (ok_injective _ built e8)
        (record {
          targets = record { column = c; number = number } ∷ there.targets;
          shown =
              ap (λ z. (quote_identifier c.name, z) ∷ rest.0) shown
              ∙ ap (λ z. (quote_identifier c.name, placeholder c number) ∷ z) there.shown;
          counted = Counts-append _ _ _ number _ counted there.counted;
          allowed =
              (writable_column-IsWritable schema writable name _ c number refl e3, there.allowed);
          each = ap suc there.each;
        })

  -- A SET text that was built assigns to one column for each entry of the request: a column of the
  -- table that may be written on update, with NULL or the next parameter.
  pub build_update_assignments-AreWritten :
      (values : JsonMap) (text : Bytes) (params : List Bytes)
      → build_update_assignments J schema values ≡ ok (text, params)
      → (ts : List Target) × (text
          ≡ join_with (codes ", ") (map assignment_text (map target_pair ts)))
        × Counts 0 (target_numbers ts) (length params)
        × All (IsWritable schema TableColumnSchema.writable_on_update) ts
        × (length ts ≡ length values)
  unfolding build_update_assignments
  build_update_assignments-AreWritten [] text params e = absurd (cc e)
  build_update_assignments-AreWritten (value ∷ values) text params e =
      let (built, e1, e2) =
        and_then_inv (assignments J schema TableColumnSchema.writable_on_update (value ∷ values) [])
          _ _ e in
      let same = ok_injective _ _ e2 in
      let all =
        assignments-AreWritten TableColumnSchema.writable_on_update (value ∷ values) [] built e1 in
      (
        all.targets,
        ap (λ z. z.0) (sym same)
            ∙ ap (λ z. join_with (codes ", ") (map assignment_text z)) all.shown,
        subst (λ z. Counts 0 (target_numbers all.targets) (length z)) (ap (λ z. z.1) same)
            all.counted,
        all.allowed,
        all.each,
      )
