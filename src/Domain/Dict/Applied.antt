-- ===== src/Domain/Dict/Applied.antt =====
-- What `apply_dict_type_spec` and `apply_dict_item_spec` leave in their tables.
use mathlib.Core.Path.{subst}
use summerrs_admin.Base.{
  ℕ, ◌≡◌, refl, sym, ◌∙◌, ap, inl, inr, Bool, true, false, false≢true, ◌&&◌, ==_iff, Option, none,
  some, List, [], ◌∷◌, Bool-cases, eq_bytes, eq_bytes_refl, if◌then◌else◌,
}
use summerrs_admin.Base.Text.{Bytes}
use summerrs_admin.Base.Word.{ℤ, pos, negsuc}
use summerrs_admin.Domain.Table.{Table, IsTable}
use summerrs_admin.Domain.Table.Steps.{Settled, Frame, Vacant, insert_Settled, update_Settled}
use summerrs_admin.Domain.Dict.{
  DictStatus, enabled, disabled, DictType, DictData, DictBundleItemSpec, DictBundleSpec, ok, err,
  is_empty, eq_bool, eq_i32, eq_status, DictError, desired_text, desired_status, desired_sort,
  desired_is_default, dict_type_changed_fields, dict_item_changed_fields,
}
use summerrs_admin.Domain.Dict.Rows.{
  TypeValues, TypeChange, DataValues, DataChange, type_row, set_type, data_row, set_data,
  type_values, data_values,
}
use summerrs_admin.Domain.Dict.Service.{saved, of_type, apply_dict_type_spec, apply_dict_item_spec}

eq_status_refl : (a : DictStatus) → eq_status a a ≡ true
eq_status_refl enabled = refl
eq_status_refl disabled = refl

eq_bool_refl : (a : Bool) → eq_bool a a ≡ true
eq_bool_refl true = refl
eq_bool_refl false = refl

eq_i32_refl : (a : ℤ) → eq_i32 a a ≡ true
eq_i32_refl (pos n) = (==_iff n n).1 refl
eq_i32_refl (negsuc n) = (==_iff n n).1 refl

-- A row just written has no changed fields.
type_written :
    (id : ℤ) (time : ℕ) (spec : DictBundleSpec) (operator : Bytes)
    → dict_type_changed_fields (type_row id time (type_values spec operator)) spec ≡ []
unfolding dict_type_changed_fields
type_written id time spec operator =
    rw
      (
        eq_bytes_refl spec.dict_name,
        eq_status_refl (desired_status spec.status),
        eq_bytes_refl (desired_text spec.remark),
      )
      refl

data_written :
    (id : ℤ) (time : ℕ) (dict_type : Bytes) (spec : DictBundleItemSpec) (operator : Bytes)
    → dict_item_changed_fields (data_row id time (data_values dict_type spec operator)) spec ≡ []
unfolding dict_item_changed_fields
data_written id time dict_type spec operator =
    rw
      (
        eq_bytes_refl spec.dict_label,
        eq_i32_refl (desired_sort spec.dict_sort),
        eq_bytes_refl (desired_text spec.css_class),
        eq_bytes_refl (desired_text spec.list_class),
        eq_bool_refl (desired_is_default spec.is_default),
        eq_status_refl (desired_status spec.status),
        eq_bytes_refl (desired_text spec.remark),
      )
      refl

pub saved_inv : {A : Type 0} (o : Option A) (a : A) → saved o ≡ ok a → o ≡ some a
saved_inv none a h = cc
saved_inv (some b) a h = cc

-- The key of a row of dictionary data.
abbrev pub at_key : (dict_type dict_value : Bytes) → DictData → Bool
at_key dict_type dict_value r = eq_bytes r.dict_type dict_type && eq_bytes r.dict_value dict_value

module _ {Row Values Change : Type 0} {T : Table Row Values Change} {id_of : Row → ℤ}
    {row : (id : ℤ) → (time : ℕ) → Values → Row} {set : Change → (time : ℕ) → Row → Row}
    (L : IsTable T id_of row set) where
  -- What a lookup found at the key.
  abbrev pub Located : (Row → Bool) → Option Row → T.State → Type 0
  Located K none s = Vacant L K s
  Located K (some r) s =
      L.Stored s r × (K r ≡ true) × ((x : Row) → L.Stored s x → K x ≡ true → x ≡ r)

  -- What a write at the key leaves: one row there, the others as before, the built-in ones kept.
  pub record Written (K : Row → Bool) (P : Row → Type 0) (system : Row → Bool) (s s' : T.State)
      : Type 0 where
    pub settled : Settled L K P s'
    pub frame : Frame L K s s'
    pub kept : (x : Row) → L.Stored s x → system x ≡ true → L.Stored s' x

  -- No write: the row is as it should be.
  pub unwritten :
      {K : Row → Bool} {P : Row → Type 0} (system : Row → Bool) (r : Row) (s : T.State)
      → Located K (some r) s
      → P r
      → Written K P system s s
  unwritten system r s (stored, keyed, only) holds = record {
    settled = record { settled = r; stored = stored; keyed = keyed; holds = holds; only = only };
    frame = λ x k. (λ h. h, λ h. h);
    kept = λ x h sys. h;
  }

  pub insert-Written :
      {K : Row → Bool} {P : Row → Type 0} (system : Row → Bool) (values : Values) (s s' : T.State)
      → saved (T.insert values s) ≡ ok s'
      → ((id : ℤ) (time : ℕ) → (K (row id time values) ≡ true) × P (row id time values))
      → Located K none s
      → Written K P system s s'
  insert-Written system values s s' e new vacant =
      let (settled, frame, kept) = insert_Settled L values s s' (saved_inv _ s' e) new vacant in
      record { settled = settled; frame = frame; kept = λ x h sys. kept x h }

  pub update-Written :
      {K : Row → Bool} {P : Row → Type 0} (system : Row → Bool) (r : Row) (change : Change)
      (s s' : T.State)
      → saved (T.update (id_of r) change s) ≡ ok s'
      → ((time : ℕ) → (K (set change time r) ≡ true) × P (set change time r))
      → system r ≡ false
      → Located K (some r) s
      → Written K P system s s'
  update-Written system r change s s' e new plain (stored, keyed, only) =
      let (settled, frame, kept) =
        update_Settled L r change s s' (saved_inv _ s' e) new stored keyed only in
      record {
        settled = settled;
        frame = frame;
        kept = λ x h sys. kept x h (λ same. false≢true (sym plain ∙ sym (ap system same) ∙ sys));
      }

  -- The branches for a row that is there.
  pub existing-Written :
      {K : Row → Bool} {P : Row → Type 0} (system : Row → Bool) (fields : List Bytes)
      (refusal : DictError) (r : Row) (change : Change) (s s' : T.State)
      → (if is_empty fields
          then ok s
          else if system r
          then err refusal
          else saved (T.update (id_of r) change s))
        ≡ ok s'
      → (fields ≡ [] → P r)
      → ((time : ℕ) → (K (set change time r) ≡ true) × P (set change time r))
      → Located K (some r) s
      → Written K P system s s'
  existing-Written {K = K} {P = P} system [] refusal r change s s' e same new at =
      let stay : s ≡ s' = cc e in
      subst (λ z. Written K P system s z) stay (unwritten system r s at (same refl))
  existing-Written system (f ∷ fields) refusal r change s s' e same new at =
      elim (Bool-cases (system r)) [
        | inl builtin ↦ absurd (cc (rw builtin at e))
        | inr plain ↦ update-Written system r change s s' (rw plain at e) new plain at
      ]

module _ {Types : Table DictType TypeValues TypeChange}
    (LT : IsTable Types DictType.id type_row set_type) where
  pub apply_dict_type_spec-Written :
      (o : Option DictType) (spec : DictBundleSpec) (operator : Bytes) (s s' : Types.State)
      → apply_dict_type_spec Types o spec operator s ≡ ok s'
      → Located LT (of_type spec.dict_type) o s
      → Written LT
          (of_type spec.dict_type)
          (λ r. dict_type_changed_fields r spec ≡ [])
          DictType.is_system
          s
          s'
  unfolding apply_dict_type_spec
  apply_dict_type_spec-Written none spec operator s s' e at =
      insert-Written LT DictType.is_system _ s s' e
        (λ id time. (eq_bytes_refl spec.dict_type, type_written id time spec operator)) at
  apply_dict_type_spec-Written (some r) spec operator s s' e at =
      existing-Written LT DictType.is_system (dict_type_changed_fields r spec) _ r _ s s' e (λ h. h)
        (λ time. (at.1, type_written r.id time spec operator)) at

module _ {Items : Table DictData DataValues DataChange}
    (LI : IsTable Items DictData.id data_row set_data) where
  pub apply_dict_item_spec-Written :
      (o : Option DictData) (dict_type : Bytes) (spec : DictBundleItemSpec) (operator : Bytes)
      (s s' : Items.State)
      → apply_dict_item_spec Items o dict_type spec operator s ≡ ok s'
      → Located LI (at_key dict_type spec.dict_value) o s
      → Written LI
          (at_key dict_type spec.dict_value)
          (λ r. dict_item_changed_fields r spec ≡ [])
          DictData.is_system
          s
          s'
  unfolding apply_dict_item_spec
  apply_dict_item_spec-Written none dict_type spec operator s s' e at =
      insert-Written LI DictData.is_system _ s s' e
        (λ id time. (
          rw (eq_bytes_refl dict_type) (eq_bytes_refl spec.dict_value),
          data_written id time dict_type spec operator,
        ))
        at
  apply_dict_item_spec-Written (some r) dict_type spec operator s s' e at =
      existing-Written LI DictData.is_system (dict_item_changed_fields r spec) _ r _ s s' e (λ h. h)
        (λ time. (at.1, data_written r.id time dict_type spec operator)) at
