-- ===== src/Domain/Dict/Idempotent.antt =====
-- Applying a bundle: what `apply_dict_bundle` leaves in both tables, and the plan behind it.
use summerrs_admin.Base.{◌≡◌, refl, some, List, [], ◌∷◌, All}
use summerrs_admin.Base.Text.{Bytes}
use summerrs_admin.Domain.Sync.{new_plan}
use summerrs_admin.Domain.Table.{Table, IsTable}
use summerrs_admin.Domain.Dict.{
  DictType, DictData, DictBundleSpec, ok, DictBundleSyncResult, dict_type_changed_fields,
  build_dict_type_change, item_changes,
}
use summerrs_admin.Domain.Dict.Rows.{
  TypeValues, TypeChange, DataValues, DataChange, type_row, set_type, data_row, set_data,
}
use summerrs_admin.Domain.Dict.Service.{
  first, of_type, data_of_type, plan_dict_bundle, Transaction, apply_dict_bundle,
}
use summerrs_admin.Domain.Dict.Applied.{Written, apply_dict_type_spec-Written}
use summerrs_admin.Domain.Dict.Bundle.{Applied, apply_items-Applied}
use summerrs_admin.Domain.Dict.Ran.{Commits, Ran, apply_dict_bundle-Ran}
use summerrs_admin.Domain.Dict.Located.{
  valid-Apart, All-of, DistinctTypes, Distinct, first-Located, by_value-Located,
  build_dict_type_change-Settled, item_changes-IsNoop, IsNoop,
}

module _ {Types : Table DictType TypeValues TypeChange}
    {Items : Table DictData DataValues DataChange}
    (LT : IsTable Types DictType.id type_row set_type)
    (LI : IsTable Items DictData.id data_row set_data) where
  pub apply_dict_bundle-Written :
      {spec : DictBundleSpec} {operator : Bytes} {result : DictBundleSyncResult}
      {types types' : Types.State} {items items' : Items.State}
      → DistinctTypes LT types
      → Ran Types Items spec operator result types types' items items'
      → Written LT
          (of_type spec.dict_type)
          (λ r. dict_type_changed_fields r spec ≡ [])
          DictType.is_system
          types
          types'
  apply_dict_bundle-Written {spec = spec} {operator = operator} {types = types} {types' = types'}
        distinct run =
      apply_dict_type_spec-Written LT (first run.type_rows) spec operator types types' run.type_done
        (first-Located LT spec.dict_type types run.type_rows distinct run.found_types)

  pub apply_dict_bundle-Applied :
      {spec : DictBundleSpec} {operator : Bytes} {result : DictBundleSyncResult}
      {types types' : Types.State} {items items' : Items.State}
      → Distinct LI items
      → Ran Types Items spec operator result types types' items items'
      → Applied LI spec.dict_type spec.items items items'
  apply_dict_bundle-Applied {spec = spec} {operator = operator} {items = items} {items' = items'}
        distinct run =
      apply_items-Applied LI run.rows spec.dict_type spec.items operator items items' run.items_done
        (valid-Apart spec run.valid)
        (All-of _ spec.items (λ i.
          by_value-Located LI spec.dict_type i.dict_value items run.rows distinct run.found_rows _
            refl))

  -- Behind a bundle that was applied to tables without duplicates, planning it again finds nothing
  -- to do, if the database answers the two queries.
  pub plan_dict_bundle-apply_dict_bundle :
      (transaction : Transaction Types Items) (spec : DictBundleSpec) (operator : Bytes)
      (result : DictBundleSyncResult) (types types' : Types.State) (items items' : Items.State)
      (type_rows : List DictType) (rows : List DictData)
      → Commits Types Items transaction
      → DistinctTypes LT types
      → Distinct LI items
      → apply_dict_bundle Types Items transaction spec operator (types, items)
        ≡ (ok result, (types', items'))
      → Types.find (of_type spec.dict_type) types' ≡ some type_rows
      → Items.find (data_of_type spec.dict_type) items' ≡ some rows
      → (again : DictBundleSyncResult) × (plan_dict_bundle Types Items spec (types', items')
          ≡ ok again)
        × All IsNoop again.plan.changes
  unfolding plan_dict_bundle
  plan_dict_bundle-apply_dict_bundle transaction spec operator result types types' items items'
        type_rows rows commits one_type one_item e found_types found_rows =
      let run =
        apply_dict_bundle-Ran Types Items transaction spec operator result types types' items items'
          commits e in
      (
        record {
          dict_type = spec.dict_type;
          plan = new_plan (
              build_dict_type_change (first type_rows) spec
              ∷ item_changes rows spec.dict_type spec.items);
        },
        rw (run.valid, found_types, found_rows) refl,
        (
          build_dict_type_change-Settled LT spec types' type_rows
              (apply_dict_bundle-Written one_type run).settled found_types,
          item_changes-IsNoop LI spec.dict_type spec.items items' rows
              (apply_dict_bundle-Applied one_item run).settled found_rows,
        ),
      )
