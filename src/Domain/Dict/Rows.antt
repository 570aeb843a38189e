-- ===== src/Domain/Dict/Rows.antt =====
-- What the service of crates/summer-domain/src/dict.rs writes: the `ActiveModel`s of
-- crates/summer-system/model/src/entity/sys_dict_type.rs and sys_dict_data.rs, and the rows they make.
use summerrs_admin.Base.{ℕ, Bool, false, Option, none, some}
use summerrs_admin.Base.Text.{Bytes}
use summerrs_admin.Base.Word.{ℤ}
use summerrs_admin.Domain.Dict.{
  DictStatus, DictType, DictData, DictBundleItemSpec, DictBundleSpec, or_default, desired_status,
  desired_text, desired_sort, desired_is_default,
}

-- `sys_dict_type::ActiveModel` for an insertion, and for an update: the columns that are `Set`.
pub record TypeValues : Type 0 where
  pub dict_name : Bytes
  pub dict_type : Bytes
  pub status : DictStatus
  pub is_system : Bool
  pub remark : Bytes
  pub create_by : Bytes
  pub update_by : Bytes

pub record TypeChange : Type 0 where
  pub dict_name : Option Bytes
  pub status : Option DictStatus
  pub remark : Option Bytes
  pub update_by : Bytes

-- `sys_dict_data::ActiveModel`
pub record DataValues : Type 0 where
  pub dict_type : Bytes
  pub dict_label : Bytes
  pub dict_value : Bytes
  pub dict_sort : ℤ
  pub css_class : Bytes
  pub list_class : Bytes
  pub is_default : Bool
  pub status : DictStatus
  pub is_system : Bool
  pub remark : Bytes
  pub create_by : Bytes
  pub update_by : Bytes

pub record DataChange : Type 0 where
  pub dict_label : Option Bytes
  pub dict_value : Option Bytes
  pub dict_sort : Option ℤ
  pub css_class : Option Bytes
  pub list_class : Option Bytes
  pub is_default : Option Bool
  pub status : Option DictStatus
  pub remark : Option Bytes
  pub update_by : Bytes

-- The rows of inserted values and of changed columns, with the times of `before_save`.
abbrev pub type_row : (id : ℤ) → (time : ℕ) → TypeValues → DictType
type_row id time v = record {
  id = id;
  dict_name = v.dict_name;
  dict_type = v.dict_type;
  status = v.status;
  is_system = v.is_system;
  remark = v.remark;
  create_by = v.create_by;
  create_time = time;
  update_by = v.update_by;
  update_time = time;
}

abbrev pub set_type : TypeChange → (time : ℕ) → DictType → DictType
set_type c time r = record {
  id = r.id;
  dict_name = or_default r.dict_name c.dict_name;
  dict_type = r.dict_type;
  status = or_default r.status c.status;
  is_system = r.is_system;
  remark = or_default r.remark c.remark;
  create_by = r.create_by;
  create_time = r.create_time;
  update_by = c.update_by;
  update_time = time;
}

abbrev pub data_row : (id : ℤ) → (time : ℕ) → DataValues → DictData
data_row id time v = record {
  id = id;
  dict_type = v.dict_type;
  dict_label = v.dict_label;
  dict_value = v.dict_value;
  dict_sort = v.dict_sort;
  css_class = v.css_class;
  list_class = v.list_class;
  is_default = v.is_default;
  status = v.status;
  is_system = v.is_system;
  remark = v.remark;
  create_by = v.create_by;
  create_time = time;
  update_by = v.update_by;
  update_time = time;
}

abbrev pub set_data : DataChange → (time : ℕ) → DictData → DictData
set_data c time r = record {
  id = r.id;
  dict_type = r.dict_type;
  dict_label = or_default r.dict_label c.dict_label;
  dict_value = or_default r.dict_value c.dict_value;
  dict_sort = or_default r.dict_sort c.dict_sort;
  css_class = or_default r.css_class c.css_class;
  list_class = or_default r.list_class c.list_class;
  is_default = or_default r.is_default c.is_default;
  status = or_default r.status c.status;
  is_system = r.is_system;
  remark = or_default r.remark c.remark;
  create_by = r.create_by;
  create_time = r.create_time;
  update_by = c.update_by;
  update_time = time;
}

-- What `apply_dict_type_spec` and `apply_dict_item_spec` write.
abbrev pub type_values : DictBundleSpec → (operator : Bytes) → TypeValues
type_values spec operator = record {
  dict_name = spec.dict_name;
  dict_type = spec.dict_type;
  status = desired_status spec.status;
  is_system = false;
  remark = desired_text spec.remark;
  create_by = operator;
  update_by = operator;
}

abbrev pub type_change : DictBundleSpec → (operator : Bytes) → TypeChange
type_change spec operator = record {
  dict_name = some spec.dict_name;
  status = some (desired_status spec.status);
  remark = some (desired_text spec.remark);
  update_by = operator;
}

abbrev pub data_values : (dict_type : Bytes) → DictBundleItemSpec → (operator : Bytes) → DataValues
data_values dict_type spec operator = record {
  dict_type = dict_type;
  dict_label = spec.dict_label;
  dict_value = spec.dict_value;
  dict_sort = desired_sort spec.dict_sort;
  css_class = desired_text spec.css_class;
  list_class = desired_text spec.list_class;
  is_default = desired_is_default spec.is_default;
  status = desired_status spec.status;
  is_system = false;
  remark = desired_text spec.remark;
  create_by = operator;
  update_by = operator;
}

abbrev pub data_change : DictBundleItemSpec → (operator : Bytes) → DataChange
data_change spec operator = record {
  dict_label = some spec.dict_label;
  dict_value = none;
  dict_sort = some (desired_sort spec.dict_sort);
  css_class = some (desired_text spec.css_class);
  list_class = some (desired_text spec.list_class);
  is_default = some (desired_is_default spec.is_default);
  status = some (desired_status spec.status);
  remark = some (desired_text spec.remark);
  update_by = operator;
}
