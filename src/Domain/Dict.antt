-- ===== src/Domain/Dict.antt =====
-- Dictionary bundles: the specifications, their validation and the plan of changes of
-- crates/summer-domain/src/dict.rs, with the rows of sys_dict_type.rs and sys_dict_data.rs of
-- crates/summer-system/model/src/entity.
pub mod Rows
pub mod Service
pub mod Applied
pub mod Bundle
pub mod Located
pub mod Ran
pub mod Idempotent
pub mod Kept
mod Tests
use summerrs_admin.Base.{
  ℕ, ◌≡◌, Bool, true, false, not, ◌&&◌, Option, none, some, List, [], ◌∷◌, ◌++◌, ◌==◌, any,
  eq_bytes, if◌then◌else◌,
}
use summerrs_admin.Base.Text.{Bytes, codes}
use summerrs_admin.Base.Trim.{trim}
use summerrs_admin.Base.Word.{ℤ, pos, negsuc}
use summerrs_admin.Domain.Sync.{SyncAction, create, update, noop, SyncChange, SyncPlan, new_plan}

pub data DictStatus : Type 0 where
  enabled disabled : DictStatus

pub record DictType : Type 0 where
  pub id : ℤ
  pub dict_name : Bytes
  pub dict_type : Bytes
  pub status : DictStatus
  pub is_system : Bool
  pub remark : Bytes
  pub create_by : Bytes
  pub create_time : ℕ
  pub update_by : Bytes
  pub update_time : ℕ

pub record DictData : Type 0 where
  pub id : ℤ
  pub dict_type : Bytes
  pub dict_label : Bytes
  pub dict_value : Bytes
  pub dict_sort : ℤ
  pub css_class : Bytes
  pub list_class : Bytes
  pub is_default : Bool
  pub status : DictStatus
  pub is_system : Bool
  pub remark : Bytes
  pub create_by : Bytes
  pub create_time : ℕ
  pub update_by : Bytes
  pub update_time : ℕ

pub record DictBundleItemSpec : Type 0 where
  pub dict_label : Bytes
  pub dict_value : Bytes
  pub dict_sort : Option ℤ
  pub css_class : Option Bytes
  pub list_class : Option Bytes
  pub is_default : Option Bool
  pub status : Option DictStatus
  pub remark : Option Bytes

pub record DictBundleSpec : Type 0 where
  pub dict_name : Bytes
  pub dict_type : Bytes
  pub status : Option DictStatus
  pub remark : Option Bytes
  pub items : List DictBundleItemSpec

-- `ApiErrors` of the service; the constructors are its messages.
pub data DictError : Type 0 where
  empty_name empty_type empty_label empty_value : DictError
  duplicate_value : Bytes → DictError
  system_type system_data : DictError
  database : DictError

pub data DictResult (A : Type 0) : Type 0 where
  ok : A → DictResult A
  err : DictError → DictResult A

-- `unwrap_or`
abbrev pub or_default : {A : Type 0} → A → Option A → A
or_default d none = d
or_default d (some a) = a

-- The methods `desired_…` of both specifications.
abbrev pub desired_status : Option DictStatus → DictStatus
desired_status = or_default enabled

abbrev pub desired_text : Option Bytes → Bytes
desired_text = or_default []

abbrev pub desired_sort : Option ℤ → ℤ
desired_sort = or_default (pos 0)

abbrev pub desired_is_default : Option Bool → Bool
desired_is_default = or_default false

-- The derived equalities.
abbrev pub eq_status : DictStatus → DictStatus → Bool
eq_status enabled enabled = true
eq_status enabled disabled = false
eq_status disabled enabled = false
eq_status disabled disabled = true

abbrev pub eq_bool : Bool → Bool → Bool
eq_bool true b = b
eq_bool false b = not b

abbrev pub eq_i32 : ℤ → ℤ → Bool
eq_i32 (pos m) (pos n) = m == n
eq_i32 (pos m) (negsuc n) = false
eq_i32 (negsuc m) (pos n) = false
eq_i32 (negsuc m) (negsuc n) = m == n

abbrev pub is_empty : {A : Type 0} → List A → Bool
is_empty [] = true
is_empty (x ∷ xs) = false

-- The loop of `validate_dict_bundle_spec` with the set of seen values.
abbrev pub validate_items : (seen : List Bytes) → List DictBundleItemSpec → DictResult Unit
validate_items seen [] = ok tt
validate_items seen (item ∷ items) =
    let rest = validate_items (item.dict_value ∷ seen) items in
    if is_empty (trim item.dict_label)
    then err empty_label
    else if is_empty (trim item.dict_value)
    then err empty_value
    else if any (eq_bytes item.dict_value) seen
    then err (duplicate_value item.dict_value)
    else rest

unfoldable pub validate_dict_bundle_spec : DictBundleSpec → DictResult Unit
unfolding trim
validate_dict_bundle_spec spec =
    if is_empty (trim spec.dict_name)
    then err empty_name
    else if is_empty (trim spec.dict_type)
    then err empty_type
    else validate_items [] spec.items

-- `if a != b { fields.push(name) }`, and the tests that follow.
abbrev pub push_unless : (same : Bool) → (name : Bytes) → List Bytes → List Bytes
push_unless true name fields = fields
push_unless false name fields = name ∷ fields

unfoldable pub dict_type_changed_fields : DictType → DictBundleSpec → List Bytes
dict_type_changed_fields existing spec =
    push_unless (eq_bytes existing.dict_name spec.dict_name) (codes "dict_name") (
      push_unless (eq_status existing.status (desired_status spec.status)) (codes "status")
        (push_unless (eq_bytes existing.remark (desired_text spec.remark)) (codes "remark") []))

unfoldable pub dict_item_changed_fields : DictData → DictBundleItemSpec → List Bytes
dict_item_changed_fields existing spec =
    push_unless (eq_bytes existing.dict_label spec.dict_label) (codes "dict_label") (
      push_unless (eq_i32 existing.dict_sort (desired_sort spec.dict_sort)) (codes "dict_sort") (
        push_unless (eq_bytes existing.css_class (desired_text spec.css_class)) (codes "css_class")
          (push_unless (eq_bytes existing.list_class (desired_text spec.list_class))
            (codes "list_class")
            (push_unless (eq_bool existing.is_default (desired_is_default spec.is_default))
              (codes "is_default")
              (push_unless (eq_status existing.status (desired_status spec.status)) (codes "status")
                (push_unless (eq_bytes existing.remark (desired_text spec.remark)) (codes "remark")
                  []))))))

-- The action for a row that exists.
abbrev pub action_of : (fields : List Bytes) → SyncAction
action_of [] = noop
action_of (f ∷ fields) = update

unfoldable pub build_dict_type_change : Option DictType → DictBundleSpec → SyncChange
unfolding dict_type_changed_fields
build_dict_type_change none spec = record {
  target = codes "dict_type";
  key = spec.dict_type;
  action = create;
  fields = codes "dict_name" ∷ codes "status" ∷ codes "remark" ∷ [];
}
build_dict_type_change (some existing) spec = record {
  target = codes "dict_type";
  key = spec.dict_type;
  action = action_of (dict_type_changed_fields existing spec);
  fields = dict_type_changed_fields existing spec;
}

abbrev pub item_key : (dict_type dict_value : Bytes) → Bytes
item_key dict_type dict_value = dict_type ++ b':' ∷ dict_value

unfoldable pub build_dict_item_change :
    Option DictData → (dict_type : Bytes) → DictBundleItemSpec → SyncChange
unfolding dict_item_changed_fields
build_dict_item_change none dict_type spec = record {
  target = codes "dict_data";
  key = item_key dict_type spec.dict_value;
  action = create;
  fields =
      codes "dict_label"
      ∷ codes "dict_sort"
      ∷ codes "css_class"
      ∷ codes "list_class"
      ∷ codes "is_default"
      ∷ codes "status"
      ∷ codes "remark"
      ∷ [];
}
build_dict_item_change (some existing) dict_type spec = record {
  target = codes "dict_data";
  key = item_key dict_type spec.dict_value;
  action = action_of (dict_item_changed_fields existing spec);
  fields = dict_item_changed_fields existing spec;
}

-- `existing_by_value.get`: the map keeps the last row of a value.
abbrev pub or_else : {A : Type 0} → Option A → Option A → Option A
or_else (some a) o = some a
or_else none o = o

abbrev pub by_value : Bytes → List DictData → Option DictData
by_value value [] = none
by_value value (r ∷ rows) =
    or_else (by_value value rows) (if eq_bytes r.dict_value value then some r else none)

pub record DictBundleSyncResult : Type 0 where
  pub dict_type : Bytes
  pub plan : SyncPlan

abbrev pub item_changes :
    (existing : List DictData) → (dict_type : Bytes) → List DictBundleItemSpec → List SyncChange
item_changes existing dict_type [] = []
item_changes existing dict_type (item ∷ items) =
    build_dict_item_change (by_value item.dict_value existing) dict_type item
    ∷ item_changes existing dict_type items

-- What follows `validate_dict_bundle_spec(spec)?`.
abbrev pub and_then : {A B : Type 0} → DictResult A → (A → DictResult B) → DictResult B
and_then (ok a) f = f a
and_then (err e) f = err e

unfoldable pub build_dict_bundle_plan :
    Option DictType → List DictData → DictBundleSpec → DictResult DictBundleSyncResult
unfolding validate_dict_bundle_spec build_dict_type_change build_dict_item_change new_plan
build_dict_bundle_plan existing_type existing_items spec =
    and_then (validate_dict_bundle_spec spec) (λ valid. ok (record {
      dict_type = spec.dict_type;
      plan = new_plan (
          build_dict_type_change existing_type spec
          ∷ item_changes existing_items spec.dict_type spec.items);
    }))
