-- ===== src/Sql/Filters/Bound.antt =====
-- A value that is bound in SQL text is the next parameter.
use summerrs_admin.Base.{
  ℕ, ◌+◌, ◌≡◌, refl, sym, ◌∙◌, ap, false, Option, none, some, List, [], ◌∷◌, ◌++◌, length,
  length-append, map, Bool-cases, inl, inr,
}
use summerrs_admin.Base.Text.{Bytes}
use summerrs_admin.Sql.Schema.{
  JsonValue, null, boolean, number, string, array, object, JsonValues, nil, cons, Serde,
  TableColumnSchema, FilterResult, ok, err, and_then, or_failed, json_value_to_bound_string,
  cast_text, bind_bound, bind_cast_value,
}
use summerrs_admin.Sql.Filters.{is_json_null, value_expressions}
use summerrs_admin.Sql.Filters.Clause.{Counts}

pub and_then_inv :
    {A B : Type 0} (r : FilterResult A) (f : A → FilterResult B) (b : B)
    → and_then r f ≡ ok b
    → (a : A) × (r ≡ ok a) × (f a ≡ ok b)
and_then_inv (ok a) f b h = (a, refl, h)
and_then_inv (err e) f b h = cc

pub ok_injective : {A : Type 0} (a b : A) → FilterResult.ok a ≡ ok b → a ≡ b
ok_injective a b h = cc

module _ (J : Serde) where
  or_failed-some : (o : Option Bytes) → or_failed o ≡ ok none → ⊥
  or_failed-some none h = cc
  or_failed-some (some s) h = absurd (cc (ok_injective (some s) none h))

  bound_some :
      (v : JsonValue) → is_json_null v ≡ false → json_value_to_bound_string J v ≡ ok none → ⊥
  bound_some null h e = cc
  bound_some (boolean b) h e = absurd (cc (ok_injective _ none e))
  bound_some (number n) h e = absurd (cc (ok_injective (some n) none e))
  bound_some (string s) h e = absurd (cc (ok_injective (some s) none e))
  bound_some (array vs) h e = or_failed-some (J.to_string (array vs)) e
  bound_some (object s) h e = or_failed-some (J.to_string (object s)) e

  pub length_push :
      (params : List Bytes) (s : Bytes) → length (params ++ s ∷ []) ≡ length params + 1
  length_push params s = length-append params (s ∷ [])

  -- A bound value is the next parameter.
  pub bind_cast_value-Counts :
      (c : TableColumnSchema) (v : JsonValue) (params : List Bytes) (built : Bytes × List Bytes)
      → is_json_null v ≡ false
      → bind_cast_value J c v params ≡ ok built
      → (built.0 ≡ cast_text (length params + 1) c) × (length built.1 ≡ length params + 1)
  unfolding bind_cast_value
  bind_cast_value-Counts c v params built h e =
      let (bound, e1, e2) =
        and_then_inv (json_value_to_bound_string J v)
          (λ bound. ok (bind_bound (length params + 1) c bound params)) built e in
      by_bound bound e1 (ok_injective _ _ e2)
    where
      by_bound :
          (bound : Option Bytes)
          → json_value_to_bound_string J v ≡ ok bound
          → bind_bound (length params + 1) c bound params ≡ built
          → (built.0 ≡ cast_text (length params + 1) c) × (length built.1 ≡ length params + 1)
      by_bound none e1 e2 = absurd (bound_some v h e1)
      by_bound (some s) e1 e2 =
          (ap (λ z. z.0) (sym e2), ap (λ z. length z.1) (sym e2) ∙ length_push params s)

  -- Each value of a list is the next parameter.
  pub value_expressions-Counts :
      (c : TableColumnSchema) (vs : JsonValues) (params : List Bytes)
      (built : List Bytes × List Bytes)
      → value_expressions J c vs params ≡ ok built
      → (ns : List ℕ) × (built.0 ≡ map (λ n. cast_text n c) ns)
        × Counts (length params) ns (length built.1)
  unfolding value_expressions
  value_expressions-Counts c nil params built e =
      let same = ok_injective _ built e in ([], ap (λ z. z.0) (sym same), ap (λ z. length z.1) same)
  value_expressions-Counts c (cons v vs) params built e = elim (Bool-cases (is_json_null v)) [
    | inl void ↦ absurd (cc (rw void at e))
    | inr not_null ↦
        let (first, e1, e2) =
          and_then_inv (bind_cast_value J c v params) _ built (rw not_null at e) in
        let (rest, e3, e4) = and_then_inv (value_expressions J c vs first.1) _ built e2 in
        let same = ok_injective _ built e4 in
        let (shown, longer) = bind_cast_value-Counts c v params first not_null e1 in
        let (ns, shown_rest, counted) = value_expressions-Counts c vs first.1 rest e3 in
        let counted_on : Counts (length params + 1) ns (length built.1) =
          rw (sym longer, sym (ap (λ z. length z.1) same)) counted in
        (
          (length params + 1) ∷ ns,
          ap (λ z. z.0) (sym same)
              ∙ ap (λ z. z ∷ rest.0) shown
              ∙ ap (λ z. cast_text (length params + 1) c ∷ z) shown_rest,
          (refl, counted_on),
        )
  ]
