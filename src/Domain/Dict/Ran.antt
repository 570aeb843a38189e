-- ===== src/Domain/Dict/Ran.antt =====
-- The steps of an `apply_dict_bundle` that returned a result.
use summerrs_admin.Base.{◌≡◌, refl, ◌∙◌, ap, Option, some, List}
use summerrs_admin.Base.Text.{Bytes}
use summerrs_admin.Domain.Table.{Table}
use summerrs_admin.Domain.Dict.{
  DictType, DictData, DictBundleSpec, DictResult, ok, err, validate_dict_bundle_spec,
  build_dict_bundle_plan, DictBundleSyncResult,
}
use summerrs_admin.Domain.Dict.Rows.{TypeValues, TypeChange, DataValues, DataChange}
use summerrs_admin.Domain.Dict.Service.{
  saved, first, of_type, data_of_type, existing_type, existing_data, apply_dict_type_spec,
  apply_items, apply_in_transaction, Transaction, on_valid, apply_dict_bundle,
}
use summerrs_admin.Domain.Dict.Applied.{saved_inv}
use summerrs_admin.Domain.Dict.Bundle.{and_then_inv}

ok_triple :
    {A B C : Type 0} (a a' : A) (b b' : B) (c c' : C)
    → ◌≡◌ {A = DictResult (A × (B × C))} (ok (a, (b, c))) (ok (a', (b', c')))
    → (a ≡ a') × (b ≡ b') × (c ≡ c')
ok_triple a a' b b' c c' e = (cc e, cc e, cc e)

module _ (Types : Table DictType TypeValues TypeChange)
    (Items : Table DictData DataValues DataChange) where
  -- What sea-orm documents of `transaction`: it commits what its body did, if that is Ok. No other
  -- transaction writes meanwhile.
  abbrev pub Commits : Transaction Types Items → Type 0
  Commits transaction =
      (body : Types.State × Items.State
        → DictResult (DictBundleSyncResult × (Types.State × Items.State)))
      (db db' : Types.State × Items.State) (result : DictBundleSyncResult)
      → transaction body db ≡ (ok result, db')
      → body db ≡ ok (result, db')

  -- The steps of a bundle that was applied.
  pub record Ran (spec : DictBundleSpec) (operator : Bytes) (result : DictBundleSyncResult)
      (types types' : Types.State) (items items' : Items.State) : Type 0 where
    pub valid : validate_dict_bundle_spec spec ≡ ok tt
    pub type_rows : List DictType
    pub found_types : Types.find (of_type spec.dict_type) types ≡ some type_rows
    pub rows : List DictData
    pub found_rows : Items.find (data_of_type spec.dict_type) items ≡ some rows
    pub planned : build_dict_bundle_plan (first type_rows) rows spec ≡ ok result
    pub type_done : apply_dict_type_spec Types (first type_rows) spec operator types ≡ ok types'
    pub items_done : apply_items Items rows spec.dict_type spec.items operator items ≡ ok items'

  existing_type_inv :
      (t : Bytes) (s : Types.State) (o : Option DictType)
      → existing_type Types t s ≡ ok o
      → (rows : List DictType) × (Types.find (of_type t) s ≡ some rows) × (first rows ≡ o)
  existing_type_inv t s o e =
      let (rows, found, one) =
        and_then_inv (saved (Types.find (of_type t) s)) (λ rows. ok (first rows)) o e in
      (rows, saved_inv _ rows found, cc one)

  apply_in_transaction-Ran :
      (spec : DictBundleSpec) (operator : Bytes) (result : DictBundleSyncResult)
      (types types' : Types.State) (items items' : Items.State)
      → validate_dict_bundle_spec spec ≡ ok tt
      → apply_in_transaction Types Items spec operator (types, items)
        ≡ ok (result, (types', items'))
      → Ran spec operator result types types' items items'
  unfolding apply_in_transaction
  apply_in_transaction-Ran spec operator result types types' items items' valid e =
      let (one, e1, f1) = and_then_inv (existing_type Types spec.dict_type types) _ _ e in
      let (rows, e2, f2) = and_then_inv (existing_data Items spec.dict_type items) _ _ f1 in
      let (planned, e3, f3) = and_then_inv (build_dict_bundle_plan one rows spec) _ _ f2 in
      let (new_types, e4, f4) =
        and_then_inv (apply_dict_type_spec Types one spec operator types) _ _ f3 in
      let (new_items, e5, f5) =
        and_then_inv (apply_items Items rows spec.dict_type spec.items operator items) _ _ f4 in
      let (type_rows, found, same) = existing_type_inv spec.dict_type types one e1 in
      let (same_result, same_types, same_items) = ok_triple _ _ _ _ _ _ f5 in
      record {
        valid = valid;
        type_rows = type_rows;
        found_types = found;
        rows = rows;
        found_rows = saved_inv _ rows e2;
        planned = ap (λ o. build_dict_bundle_plan o rows spec) same ∙ e3 ∙ ap ok same_result;
        type_done =
            ap (λ o. apply_dict_type_spec Types o spec operator types) same ∙ e4 ∙ ap ok same_types;
        items_done = e5 ∙ ap ok same_items;
      }

  pub apply_dict_bundle-Ran :
      (transaction : Transaction Types Items) (spec : DictBundleSpec) (operator : Bytes)
      (result : DictBundleSyncResult) (types types' : Types.State) (items items' : Items.State)
      → Commits transaction
      → apply_dict_bundle Types Items transaction spec operator (types, items)
        ≡ (ok result, (types', items'))
      → Ran spec operator result types types' items items'
  unfolding apply_dict_bundle
  apply_dict_bundle-Ran transaction spec operator result types types' items items' commits e =
      go (validate_dict_bundle_spec spec) refl e
    where
      go :
          (v : DictResult Unit)
          → validate_dict_bundle_spec spec ≡ v
          → on_valid Types Items v
              (transaction (apply_in_transaction Types Items spec operator))
              (types, items)
            ≡ (ok result, (types', items'))
          → Ran spec operator result types types' items items'
      go (err x) m k = absurd (cc (ap (λ z. z.0) k))
      go (ok tt) m k =
          apply_in_transaction-Ran spec operator result types types' items items' m
            (commits _ _ _ _ k)
