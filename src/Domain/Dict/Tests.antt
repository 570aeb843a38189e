-- ===== src/Domain/Dict/Tests.antt =====
-- Bundles over concrete tables, and the theorems about them applied. A table here has a fixed row, a
-- built-in one of another dictionary, and room for one more.
use summerrs_admin.Base.{
  ◌≡◌, ◌≢◌, ◌↔◌, refl, sym, ◌∙◌, ap, inl, inr, Bool, true, false, Option, none, some, [], ◌∷◌, map,
  All, eq_bytes, false≢true,
}
use summerrs_admin.Base.Text.{Bytes, codes}
use summerrs_admin.Base.Word.{pos}
use summerrs_admin.Domain.Sync.{SyncChange, new_plan, create, update}
use summerrs_admin.Domain.Table.{Table, Among}
use summerrs_admin.Domain.Dict.{
  enabled, DictType, DictData, DictBundleItemSpec, DictBundleSpec, DictResult, ok, err,
  duplicate_value, system_type, validate_dict_bundle_spec, build_dict_type_change,
  build_dict_item_change, DictBundleSyncResult,
}
use summerrs_admin.Domain.Dict.Rows.{
  TypeValues, TypeChange, DataValues, DataChange, type_row, set_type, data_row, set_data,
  type_change, data_values,
}
use summerrs_admin.Domain.Dict.Service.{plan_dict_bundle, Transaction, apply_dict_bundle}
use summerrs_admin.Domain.Table.Slot.{slot, slot_laws}
use summerrs_admin.Domain.Dict.Located.{DistinctTypes, Distinct, IsNoop}
use summerrs_admin.Domain.Dict.Ran.{Commits}
use summerrs_admin.Domain.Dict.Idempotent.{plan_dict_bundle-apply_dict_bundle}
use summerrs_admin.Domain.Dict.Kept.{apply_dict_bundle-Stored, apply_dict_bundle-Distinct}

-- The built-in rows of another dictionary.
abbrev yes_no_type : DictType
yes_no_type = record {
  id = pos 2;
  dict_name = codes "yes or no";
  dict_type = codes "sys_yes_no";
  status = enabled;
  is_system = true;
  remark = [];
  create_by = codes "seed";
  create_time = 0;
  update_by = codes "seed";
  update_time = 0;
}

abbrev yes_item : DictData
yes_item = record {
  id = pos 3;
  dict_type = codes "sys_yes_no";
  dict_label = codes "yes";
  dict_value = codes "Y";
  dict_sort = pos 1;
  css_class = [];
  list_class = [];
  is_default = true;
  status = enabled;
  is_system = true;
  remark = [];
  create_by = codes "seed";
  create_time = 0;
  update_by = codes "seed";
  update_time = 0;
}

abbrev types : Table DictType TypeValues TypeChange
types = slot DictType.id type_row set_type yes_no_type

abbrev items : Table DictData DataValues DataChange
items = slot DictData.id data_row set_data yes_item

-- Runs the body, and commits if it is Ok.
abbrev commit_ok :
    DictResult (DictBundleSyncResult × (Option DictType × Option DictData))
    → Option DictType × Option DictData
    → DictResult DictBundleSyncResult × (Option DictType × Option DictData)
commit_ok (ok (result, db')) db = (ok result, db')
commit_ok (err e) db = (err e, db)

abbrev transaction : Transaction types items
transaction body db = commit_ok (body db) db

commit_ok_inv :
    (r : DictResult (DictBundleSyncResult × (Option DictType × Option DictData)))
    (db db' : Option DictType × Option DictData) (result : DictBundleSyncResult)
    → commit_ok r db ≡ (ok result, db')
    → r ≡ ok (result, db')
commit_ok_inv (ok (x, y)) db db' result e =
    let first_same : x ≡ result = cc (ap (λ z. z.0) e) in
    let second_same : y ≡ db' = ap (λ z. z.1) e in cc (first_same, second_same)
commit_ok_inv (err x) db db' result e = absurd (cc (ap (λ z. z.0) e))

transaction-Commits : Commits types items transaction
transaction-Commits body db db' result e = commit_ok_inv (body db) db db' result e

abbrev status_type : DictType
status_type = record {
  id = pos 1;
  dict_name = codes "status";
  dict_type = codes "system_status";
  status = enabled;
  is_system = false;
  remark = [];
  create_by = codes "seed";
  create_time = 0;
  update_by = codes "seed";
  update_time = 0;
}

abbrev enabled_item : DictBundleItemSpec
enabled_item = record {
  dict_label = codes "on";
  dict_value = codes "enabled";
  dict_sort = some (pos 2);
  css_class = none;
  list_class = some (codes "success");
  is_default = some true;
  status = none;
  remark = none;
}

abbrev status_spec : DictBundleSpec
status_spec = record {
  dict_name = codes "System status";
  dict_type = codes "system_status";
  status = some enabled;
  remark = none;
  items = enabled_item ∷ [];
}

abbrev status_result : DictBundleSyncResult
status_result = record {
  dict_type = codes "system_status";
  plan = new_plan (
      build_dict_type_change (some status_type) status_spec
      ∷ build_dict_item_change none (codes "system_status") enabled_item
      ∷ []);
}

abbrev status_type_behind : DictType
status_type_behind = set_type (type_change status_spec (codes "root")) 100 status_type

abbrev types_behind : Option DictType
types_behind = some status_type_behind

abbrev item_behind : DictData
item_behind = data_row (pos 7) 100 (data_values (codes "system_status") enabled_item (codes "root"))

abbrev items_behind : Option DictData
items_behind = some item_behind

applied :
    apply_dict_bundle types items transaction status_spec (codes "root") (some status_type, none)
    ≡ (ok status_result, (types_behind, items_behind))
unfolding apply_dict_bundle build_dict_type_change build_dict_item_change new_plan
applied = refl

actions : map SyncChange.action status_result.plan.changes ≡ update ∷ create ∷ []
unfolding build_dict_type_change build_dict_item_change new_plan
actions = refl

duplicates_refused :
    validate_dict_bundle_spec (record status_spec { items = enabled_item ∷ enabled_item ∷ [] })
    ≡ err (duplicate_value (codes "enabled"))
unfolding validate_dict_bundle_spec
duplicates_refused = refl

system_refused :
    (apply_dict_bundle types items transaction status_spec
      (codes "root")
      (some (record status_type { is_system = true }), none)).0
    ≡ err system_type
unfolding apply_dict_bundle
system_refused = refl

abbrev is_status : Bytes → Bool
is_status t = eq_bytes t (codes "system_status")

one_type : DistinctTypes (slot_laws DictType.id type_row set_type yes_no_type) (some status_type)
one_type x y (inl hx) (inl hy) typed = hx ∙ sym hy
one_type x y (inl hx) (inr (inl hy)) typed =
    absurd (
      false≢true (ap is_status (ap DictType.dict_type (sym hx) ∙ typed ∙ ap DictType.dict_type hy)))
one_type x y (inr (inl hx)) (inl hy) typed = absurd (
    false≢true
      (ap is_status (ap DictType.dict_type (sym hy) ∙ sym typed ∙ ap DictType.dict_type hx)))
one_type x y (inr (inl hx)) (inr (inl hy)) typed = hx ∙ sym hy
one_type x y (inr (inr hx)) hy typed = absurd hx
one_type x y hx (inr (inr hy)) typed = absurd hy

no_item : Distinct (slot_laws DictData.id data_row set_data yes_item) none
no_item x y (inl hx) (inl hy) typed valued = hx ∙ sym hy
no_item x y (inr hx) hy typed valued = absurd hx
no_item x y hx (inr hy) typed valued = absurd hy

plan_dict_bundle-apply_dict_bundle_example :
    (again : DictBundleSyncResult) × (plan_dict_bundle types items status_spec
        (types_behind, items_behind)
      ≡ ok again)
    × All IsNoop again.plan.changes
plan_dict_bundle-apply_dict_bundle_example =
    plan_dict_bundle-apply_dict_bundle (slot_laws DictType.id type_row set_type yes_no_type)
      (slot_laws DictData.id data_row set_data yes_item) transaction status_spec (codes "root")
      status_result (some status_type) types_behind none items_behind (status_type_behind ∷ [])
      (item_behind ∷ []) transaction-Commits one_type no_item applied refl refl

apply_dict_bundle-Stored_example :
    ((x : DictType)
      → x.dict_type ≢ codes "system_status"
      → Among x (yes_no_type ∷ status_type ∷ []) ↔ Among x (yes_no_type ∷ status_type_behind ∷ []))
    × ((x : DictData)
        → x.dict_type ≢ codes "system_status"
        → Among x (yes_item ∷ []) ↔ Among x (yes_item ∷ item_behind ∷ []))
    × ((x : DictType)
        → Among x (yes_no_type ∷ status_type ∷ [])
        → x.is_system ≡ true
        → Among x (yes_no_type ∷ status_type_behind ∷ []))
    × ((x : DictData)
        → Among x (yes_item ∷ [])
        → x.is_system ≡ true
        → Among x (yes_item ∷ item_behind ∷ []))
apply_dict_bundle-Stored_example =
    apply_dict_bundle-Stored (slot_laws DictType.id type_row set_type yes_no_type)
      (slot_laws DictData.id data_row set_data yes_item) transaction status_spec (codes "root")
      status_result (some status_type) types_behind none items_behind transaction-Commits one_type
      no_item applied

apply_dict_bundle-Distinct_example :
    DistinctTypes (slot_laws DictType.id type_row set_type yes_no_type) types_behind
    × Distinct (slot_laws DictData.id data_row set_data yes_item) items_behind
apply_dict_bundle-Distinct_example =
    apply_dict_bundle-Distinct (slot_laws DictType.id type_row set_type yes_no_type)
      (slot_laws DictData.id data_row set_data yes_item) transaction status_spec (codes "root")
      status_result (some status_type) types_behind none items_behind transaction-Commits one_type
      no_item applied
