-- ===== src/Domain/Dict/Service.antt =====
-- `DictDomainService` of crates/summer-domain/src/dict.rs over the tables sys.dict_type and
-- sys.dict_data: planning and applying a bundle. `before_save` of the entities sets the times, which
-- here the table picks.
use summerrs_admin.Base.{Bool, Option, none, some, List, [], ◌∷◌, eq_bytes, if◌then◌else◌}
use summerrs_admin.Base.Text.{Bytes}
use summerrs_admin.Domain.Table.{Table}
use summerrs_admin.Domain.Dict.Rows.{
  TypeValues, TypeChange, DataValues, DataChange, type_values, type_change, data_values,
  data_change,
}
use summerrs_admin.Domain.Dict.{
  DictType, DictData, DictBundleItemSpec, DictBundleSpec, system_type, system_data, database,
  DictResult, ok, err, is_empty, validate_dict_bundle_spec, dict_type_changed_fields,
  dict_item_changed_fields, by_value, DictBundleSyncResult, and_then, build_dict_bundle_plan,
}

-- A `DbErr` becomes an internal error.
abbrev pub saved : {A : Type 0} → Option A → DictResult A
saved none = err database
saved (some a) = ok a

abbrev pub first : {A : Type 0} → List A → Option A
first [] = none
first (a ∷ rest) = some a

abbrev pub of_type : Bytes → DictType → Bool
of_type dict_type r = eq_bytes r.dict_type dict_type

abbrev pub data_of_type : Bytes → DictData → Bool
data_of_type dict_type r = eq_bytes r.dict_type dict_type

module _ (Types : Table DictType TypeValues TypeChange) where
  unfoldable pub apply_dict_type_spec :
      Option DictType → DictBundleSpec → (operator : Bytes) → Types.State → DictResult Types.State
  unfolding dict_type_changed_fields
  apply_dict_type_spec none spec operator s = saved (Types.insert (type_values spec operator) s)
  apply_dict_type_spec (some existing) spec operator s =
      if is_empty (dict_type_changed_fields existing spec)
      then ok s
      else if existing.is_system
      then err system_type
      else saved (Types.update existing.id (type_change spec operator) s)

  -- `.one`
  abbrev pub existing_type : Bytes → Types.State → DictResult (Option DictType)
  existing_type dict_type s =
      and_then (saved (Types.find (of_type dict_type) s)) (λ rows. ok (first rows))

module _ (Items : Table DictData DataValues DataChange) where
  unfoldable pub apply_dict_item_spec :
      Option DictData
      → (dict_type : Bytes) → DictBundleItemSpec
      → (operator : Bytes) → Items.State
      → DictResult Items.State
  unfolding dict_item_changed_fields
  apply_dict_item_spec none dict_type spec operator s =
      saved (Items.insert (data_values dict_type spec operator) s)
  apply_dict_item_spec (some existing) dict_type spec operator s =
      if is_empty (dict_item_changed_fields existing spec)
      then ok s
      else if existing.is_system
      then err system_data
      else saved (Items.update existing.id (data_change spec operator) s)

  -- The loop over the items, with the rows that were there before it.
  unfoldable pub apply_items :
      (existing : List DictData)
      → (dict_type : Bytes) → List DictBundleItemSpec
      → (operator : Bytes) → Items.State
      → DictResult Items.State
  unfolding apply_dict_item_spec
  apply_items existing dict_type [] operator s = ok s
  apply_items existing dict_type (item ∷ items) operator s =
      and_then (apply_dict_item_spec (by_value item.dict_value existing) dict_type item operator s)
        (λ s'. apply_items existing dict_type items operator s')

  abbrev pub existing_data : Bytes → Items.State → DictResult (List DictData)
  existing_data dict_type s = saved (Items.find (data_of_type dict_type) s)

module _ (Types : Table DictType TypeValues TypeChange)
    (Items : Table DictData DataValues DataChange) where
  unfoldable pub plan_dict_bundle :
      DictBundleSpec → Types.State × Items.State → DictResult DictBundleSyncResult
  unfolding validate_dict_bundle_spec build_dict_bundle_plan
  plan_dict_bundle spec (types, items) = and_then (validate_dict_bundle_spec spec) (λ valid.
      and_then (existing_type Types spec.dict_type types) (λ one.
        and_then (existing_data Items spec.dict_type items)
          (λ rows. build_dict_bundle_plan one rows spec)))

  -- The body of the transaction.
  unfoldable pub apply_in_transaction :
      DictBundleSpec
      → (operator : Bytes) → Types.State × Items.State
      → DictResult (DictBundleSyncResult × (Types.State × Items.State))
  unfolding build_dict_bundle_plan apply_dict_type_spec apply_items
  apply_in_transaction spec operator (types, items) =
      and_then (existing_type Types spec.dict_type types) (λ one.
        and_then (existing_data Items spec.dict_type items) (λ rows.
          and_then (build_dict_bundle_plan one rows spec) (λ result.
            and_then (apply_dict_type_spec Types one spec operator types) (λ types'.
              and_then (apply_items Items rows spec.dict_type spec.items operator items)
                (λ items'. ok (result, (types', items')))))))

  -- sea-orm's `transaction` is a parameter.
  abbrev pub Transaction : Type 0
  Transaction =
      (Types.State × Items.State → DictResult (DictBundleSyncResult × (Types.State × Items.State)))
      → Types.State × Items.State
      → DictResult DictBundleSyncResult × (Types.State × Items.State)

  abbrev pub on_valid :
      DictResult Unit
      → (Types.State × Items.State → DictResult DictBundleSyncResult × (Types.State × Items.State))
      → Types.State × Items.State
      → DictResult DictBundleSyncResult × (Types.State × Items.State)
  on_valid (err e) run db = (err e, db)
  on_valid (ok valid) run db = run db

  unfoldable pub apply_dict_bundle :
      (transaction : Transaction)
      → DictBundleSpec
      → (operator : Bytes) → Types.State × Items.State
      → DictResult DictBundleSyncResult × (Types.State × Items.State)
  unfolding validate_dict_bundle_spec apply_in_transaction
  apply_dict_bundle transaction spec operator db =
      on_valid (validate_dict_bundle_spec spec) (transaction (apply_in_transaction spec operator))
        db
