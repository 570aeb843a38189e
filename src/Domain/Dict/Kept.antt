-- ===== src/Domain/Dict/Kept.antt =====
-- What `apply_dict_bundle` keeps: rows that are not the bundle's, built-in rows, and distinct keys.
use summerrs_admin.Base.{
  ◌≡◌, ◌≢◌, ◌⊎◌, ◌↔◌, sym, ◌∙◌, ap, inl, inr, true, false, ◌&&◌, List, [], ◌∷◌, All, Bool-cases,
  eq_bytes, eq_of_eq_bytes,
}
use summerrs_admin.Base.Text.{Bytes}
use summerrs_admin.Domain.Table.{Table, IsTable}
use summerrs_admin.Domain.Dict.{
  DictType, DictData, DictBundleItemSpec, DictBundleSpec, ok, DictBundleSyncResult,
}
use summerrs_admin.Domain.Dict.Rows.{
  TypeValues, TypeChange, DataValues, DataChange, type_row, set_type, data_row, set_data,
}
use summerrs_admin.Domain.Dict.Service.{of_type, Transaction, apply_dict_bundle}
use summerrs_admin.Domain.Dict.Applied.{at_key}
use summerrs_admin.Domain.Dict.Bundle.{All-map, AllSettled, at_key_parts}
use summerrs_admin.Domain.Dict.Located.{All-of, DistinctTypes, Distinct}
use summerrs_admin.Domain.Dict.Ran.{Commits, apply_dict_bundle-Ran}
use summerrs_admin.Domain.Dict.Idempotent.{apply_dict_bundle-Written, apply_dict_bundle-Applied}

of_type_other : (t : Bytes) (x : DictType) → x.dict_type ≢ t → of_type t x ≡ false
of_type_other t x other = elim (Bool-cases (of_type t x)) [
  | inl hit ↦ absurd (other (eq_of_eq_bytes _ _ hit))
  | inr miss ↦ miss
]

at_key_other : (t v : Bytes) (x : DictData) → x.dict_type ≢ t → at_key t v x ≡ false
at_key_other t v x other = elim (Bool-cases (at_key t v x)) [
  | inl hit ↦ absurd (other (at_key_parts t v x hit).1)
  | inr miss ↦ miss
]

at_key_same :
    (t v : Bytes) (x y : DictData)
    → x.dict_type ≡ y.dict_type
    → x.dict_value ≡ y.dict_value
    → at_key t v y ≡ at_key t v x
at_key_same t v x y typed valued =
    ap (λ z. eq_bytes z t && eq_bytes y.dict_value v) (sym typed)
    ∙ ap (λ z. eq_bytes x.dict_type t && eq_bytes z v) (sym valued)

module _ {Types : Table DictType TypeValues TypeChange}
    {Items : Table DictData DataValues DataChange}
    (LT : IsTable Types DictType.id type_row set_type)
    (LI : IsTable Items DictData.id data_row set_data) where
  same_settled :
      (t : Bytes) (items : List DictBundleItemSpec) (s : Items.State) (x y : DictData)
      → AllSettled LI t items s
      → LI.Stored s x
      → LI.Stored s y
      → x.dict_type ≡ y.dict_type
      → x.dict_value ≡ y.dict_value
      → (x ≡ y) ⊎ All (λ i. at_key t i.dict_value x ≡ false) items
  same_settled t [] s x y there hx hy typed valued = inr tt
  same_settled t (i ∷ items) s x y (here, there) hx hy typed valued =
      elim (Bool-cases (at_key t i.dict_value x)) [
        | inl hit ↦ inl (
            here.only x hx hit
            ∙ sym (here.only y hy (at_key_same t i.dict_value x y typed valued ∙ hit)))
        | inr miss ↦ elim (same_settled t items s x y there hx hy typed valued) [
          | inl same ↦ inl same
          | inr misses ↦ inr (miss, misses)
        ]
      ]

  -- If a bundle is applied to tables without two types of one code or two items of one type and
  -- value, by a transaction that commits what its body did, then the rows of all other dictionary
  -- types are as they were, and each built-in row of both tables is still there unchanged.
  pub apply_dict_bundle-Stored :
      (transaction : Transaction Types Items) (spec : DictBundleSpec) (operator : Bytes)
      (result : DictBundleSyncResult) (types types' : Types.State) (items items' : Items.State)
      → Commits Types Items transaction
      → DistinctTypes LT types
      → Distinct LI items
      → apply_dict_bundle Types Items transaction spec operator (types, items)
        ≡ (ok result, (types', items'))
      → ((x : DictType) → x.dict_type ≢ spec.dict_type → LT.Stored types x ↔ LT.Stored types' x)
        × ((x : DictData) → x.dict_type ≢ spec.dict_type → LI.Stored items x ↔ LI.Stored items' x)
        × ((x : DictType) → LT.Stored types x → x.is_system ≡ true → LT.Stored types' x)
        × ((x : DictData) → LI.Stored items x → x.is_system ≡ true → LI.Stored items' x)
  apply_dict_bundle-Stored transaction spec operator result types types' items items' commits
        one_type one_item e =
      let run =
        apply_dict_bundle-Ran Types Items transaction spec operator result types types' items items'
          commits e in
      let types_done = apply_dict_bundle-Written LT LI one_type run in
      let items_done = apply_dict_bundle-Applied LT LI one_item run in
      (
        λ x other. types_done.frame x (of_type_other spec.dict_type x other),
        λ x other.
            items_done.frame x
              (All-of _ spec.items (λ i. at_key_other spec.dict_type i.dict_value x other)),
        types_done.kept,
        items_done.kept,
      )

  -- If a bundle is applied to tables without two types of one code or two items of one type and
  -- value, by a transaction that commits what its body did, then behind it there are no such
  -- duplicates either.
  pub apply_dict_bundle-Distinct :
      (transaction : Transaction Types Items) (spec : DictBundleSpec) (operator : Bytes)
      (result : DictBundleSyncResult) (types types' : Types.State) (items items' : Items.State)
      → Commits Types Items transaction
      → DistinctTypes LT types
      → Distinct LI items
      → apply_dict_bundle Types Items transaction spec operator (types, items)
        ≡ (ok result, (types', items'))
      → DistinctTypes LT types' × Distinct LI items'
  apply_dict_bundle-Distinct transaction spec operator result types types' items items' commits
        one_type one_item e =
      let run =
        apply_dict_bundle-Ran Types Items transaction spec operator result types types' items items'
          commits e in
      let types_done = apply_dict_bundle-Written LT LI one_type run in
      let items_done = apply_dict_bundle-Applied LT LI one_item run in
      (
        λ x y hx hy typed. elim (Bool-cases (of_type spec.dict_type x)) [
          | inl hit ↦
              types_done.settled.only x hx hit
              ∙ sym (
                  types_done.settled.only y hy
                    (ap (λ z. eq_bytes z spec.dict_type) (sym typed) ∙ hit))
          | inr miss ↦
              one_type x y ((types_done.frame x miss).1 hx)
                ((types_done.frame y (ap (λ z. eq_bytes z spec.dict_type) (sym typed) ∙ miss)).1 hy)
                typed
        ],
        λ x y hx hy typed valued.
            elim (same_settled spec.dict_type spec.items items' x y items_done.settled hx hy typed
              valued) [
                | inl same ↦ same
                | inr misses ↦
                    one_item x y ((items_done.frame x misses).1 hx)
                      ((items_done.frame y (
                          All-map spec.items
                            (λ i miss.
                              at_key_same spec.dict_type i.dict_value x y typed valued ∙ miss)
                            misses)).1
                        hy)
                      typed valued
              ],
      )
