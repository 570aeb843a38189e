-- ===== src/Domain/Dict/Located.antt =====
-- What the queries of a bundle find, before it is applied and behind it.
use summerrs_admin.Base.{
  ◌≡◌, refl, sym, ◌∙◌, ap, Bool, true, false, Option, none, some, List, [], ◌∷◌, All, eq_bytes_refl,
  eq_of_eq_bytes, if◌then◌else◌,
}
use summerrs_admin.Base.Text.{Bytes}
use summerrs_admin.Base.Trim.{trim}
use summerrs_admin.Domain.Sync.{SyncChange, noop}
use summerrs_admin.Domain.Table.{Table, IsTable}
use summerrs_admin.Domain.Table.Steps.{Settled, found_none}
use summerrs_admin.Domain.Dict.{
  DictType, DictData, DictBundleItemSpec, DictBundleSpec, DictError, empty_name, empty_type,
  DictResult, ok, err, is_empty, validate_dict_bundle_spec, dict_type_changed_fields,
  dict_item_changed_fields, action_of, build_dict_type_change, build_dict_item_change, by_value,
  item_changes,
}
use summerrs_admin.Domain.Dict.Rows.{
  TypeValues, TypeChange, DataValues, DataChange, type_row, set_type, data_row, set_data,
}
use summerrs_admin.Domain.Dict.Service.{first, of_type, data_of_type}
use summerrs_admin.Domain.Dict.Applied.{at_key, Located}
use summerrs_admin.Domain.Dict.Bundle.{
  Apart, validate_items-Apart, by_value-some, by_value-none, at_key_parts, AllSettled,
}

pub All-of : {A : Type 0} (P : A → Type 0) (l : List A) → ((a : A) → P a) → All P l
All-of P [] f = tt
All-of P (a ∷ l) f = (f a, All-of P l f)

named :
    (a b : Bool) (e f : DictError) (rest : DictResult Unit)
    → (if a then err e else if b then err f else rest) ≡ ok tt
    → rest ≡ ok tt
named true b e f rest h = cc
named false true e f rest h = cc
named false false e f rest h = h

pub valid-Apart :
    (spec : DictBundleSpec) → validate_dict_bundle_spec spec ≡ ok tt → Apart spec.items
unfolding validate_dict_bundle_spec
valid-Apart spec h =
    (validate_items-Apart [] spec.items (
      named (is_empty (trim spec.dict_name)) (is_empty (trim spec.dict_type)) empty_name empty_type
        _ h)).1

abbrev pub IsNoop : SyncChange → Type 0
IsNoop c = c.action ≡ noop

module _ {Types : Table DictType TypeValues TypeChange}
    (LT : IsTable Types DictType.id type_row set_type) where
  -- `uk_sys_dict_type_dict_type`
  abbrev pub DistinctTypes : Types.State → Type 0
  DistinctTypes s =
      (x y : DictType) → LT.Stored s x → LT.Stored s y → x.dict_type ≡ y.dict_type → x ≡ y

  pub first-Located :
      (t : Bytes) (s : Types.State) (rows : List DictType)
      → DistinctTypes s
      → Types.find (of_type t) s ≡ some rows
      → Located LT (of_type t) (first rows) s
  first-Located t s [] distinct e = found_none LT s e
  first-Located t s (r ∷ rows) distinct e =
      let (stored, keyed) = (LT.found _ s _ e).0.0 in
      (
        stored,
        keyed,
        λ x h k. distinct x r h stored (eq_of_eq_bytes _ _ k ∙ sym (eq_of_eq_bytes _ _ keyed)),
      )

  pub build_dict_type_change-Settled :
      (spec : DictBundleSpec) (s : Types.State) (rows : List DictType)
      → Settled LT (of_type spec.dict_type) (λ r. dict_type_changed_fields r spec ≡ []) s
      → Types.find (of_type spec.dict_type) s ≡ some rows
      → (build_dict_type_change (first rows) spec).action ≡ noop
  unfolding build_dict_type_change
  build_dict_type_change-Settled spec s [] there e =
      absurd (found_none LT s e there.settled there.stored there.keyed)
  build_dict_type_change-Settled spec s (r ∷ rows) there e =
      let (stored, keyed) = (LT.found _ s _ e).0.0 in
      ap action_of
        (ap (λ z. dict_type_changed_fields z spec) (there.only r stored keyed) ∙ there.holds)

module _ {Items : Table DictData DataValues DataChange}
    (LI : IsTable Items DictData.id data_row set_data) where
  abbrev pub Distinct : Items.State → Type 0
  Distinct s =
      (x y : DictData)
      → LI.Stored s x
      → LI.Stored s y
      → x.dict_type ≡ y.dict_type
      → x.dict_value ≡ y.dict_value
      → x ≡ y

  -- A row that was found.
  abbrev Hit : Bytes → Items.State → DictData → Type 0
  Hit t s r = LI.Stored s r × (data_of_type t r ≡ true)

  pub by_value-Located :
      (t v : Bytes) (s : Items.State) (rows : List DictData)
      → Distinct s
      → Items.find (data_of_type t) s ≡ some rows
      → (o : Option DictData) → by_value v rows ≡ o
      → Located LI (at_key t v) o s
  by_value-Located t v s rows distinct e none m = λ x h k.
      let (typed, same_type, same_value) = at_key_parts t v x k in
      by_value-none v rows x m ((LI.found _ s rows e).1 x h typed) same_value
  by_value-Located t v s rows distinct e (some r) m =
      let ((stored, typed), value) = by_value-some (Hit t s) v rows r (LI.found _ s rows e).0 m in
      (
        stored,
        rw (typed, value) (eq_bytes_refl v),
        λ x h k.
            let (x_typed, same_type, same_value) = at_key_parts t v x k in
            distinct x r h stored (same_type ∙ sym (eq_of_eq_bytes _ _ typed))
              (same_value ∙ sym value),
      )

  build_dict_item_change-Settled :
      (t : Bytes) (i : DictBundleItemSpec) (s : Items.State) (rows : List DictData)
      → Settled LI (at_key t i.dict_value) (λ r. dict_item_changed_fields r i ≡ []) s
      → Items.find (data_of_type t) s ≡ some rows
      → (o : Option DictData) → by_value i.dict_value rows ≡ o
      → (build_dict_item_change o t i).action ≡ noop
  unfolding build_dict_item_change
  build_dict_item_change-Settled t i s rows there e none m =
      let (typed, same_type, same_value) = at_key_parts t i.dict_value there.settled there.keyed in
      absurd (
        by_value-none i.dict_value rows there.settled m
          ((LI.found _ s rows e).1 there.settled there.stored typed) same_value)
  build_dict_item_change-Settled t i s rows there e (some r) m =
      let ((stored, typed), value) =
        by_value-some (Hit t s) i.dict_value rows r (LI.found _ s rows e).0 m in
      ap action_of (
        ap (λ z. dict_item_changed_fields z i)
          (there.only r stored (rw (typed, value) (eq_bytes_refl i.dict_value)))
        ∙ there.holds)

  pub item_changes-IsNoop :
      (t : Bytes) (items : List DictBundleItemSpec) (s : Items.State) (rows : List DictData)
      → AllSettled LI t items s
      → Items.find (data_of_type t) s ≡ some rows
      → All IsNoop (item_changes rows t items)
  item_changes-IsNoop t [] s rows there e = tt
  item_changes-IsNoop t (i ∷ items) s rows (here, there) e = (
    build_dict_item_change-Settled t i s rows here e _ refl,
    item_changes-IsNoop t items s rows there e,
  )
