-- ===== src/Domain/Dict/Bundle.antt =====
-- The loop of `apply_dict_bundle` over the items of a validated bundle.
use mathlib.Core.Path.{subst}
use summerrs_admin.Base.{
  ◌≡◌, ◌≢◌, ◌↔◌, refl, sym, ◌∙◌, ap, inl, inr, Bool, true, false, false≢true, ◌&&◌, ◌||◌, Option,
  none, some, List, [], ◌∷◌, All, Bool-cases, Option-cases, any, eq_bytes, eq_bytes_refl,
  eq_of_eq_bytes, if◌then◌else◌,
}
use summerrs_admin.Base.Text.{Bytes}
use summerrs_admin.Base.Trim.{trim}
use summerrs_admin.Domain.Table.{Table, IsTable, Among}
use summerrs_admin.Domain.Table.Steps.{Settled, Frame}
use summerrs_admin.Domain.Dict.{
  DictData, DictBundleItemSpec, DictError, empty_label, empty_value, duplicate_value, is_empty,
  DictResult, ok, err, validate_items, dict_item_changed_fields, by_value, and_then,
}
use summerrs_admin.Domain.Dict.Rows.{DataValues, DataChange, data_row, set_data}
use summerrs_admin.Domain.Dict.Service.{data_of_type, apply_dict_item_spec, apply_items}
use summerrs_admin.Domain.Dict.Applied.{at_key, Located, apply_dict_item_spec-Written}

and_left : (a b : Bool) → (a && b) ≡ true → a ≡ true
and_left true b h = refl
and_left false b h = h

and_right : (a b : Bool) → (a && b) ≡ true → b ≡ true
and_right true b h = h
and_right false b h = cc

or_false : (a b : Bool) → (a || b) ≡ false → (a ≡ false) × (b ≡ false)
or_false true b h = cc
or_false false b h = (refl, h)

pub All-map :
    {A : Type 0} {P Q : A → Type 0} (l : List A) → ((a : A) → P a → Q a) → All P l → All Q l
All-map [] f h = tt
All-map (a ∷ l) f (h, hs) = (f a h, All-map l f hs)

All-zip : {A : Type 0} (P Q : A → Type 0) (l : List A) → All P l → All Q l → All (λ a. P a × Q a) l
All-zip P Q [] h k = tt
All-zip P Q (a ∷ l) (h, hs) (k, ks) = ((h, k), All-zip P Q l hs ks)

pub and_then_inv :
    {A B : Type 0} (r : DictResult A) (f : A → DictResult B) (b : B)
    → and_then r f ≡ ok b
    → (a : A) × (r ≡ ok a) × (f a ≡ ok b)
and_then_inv (ok a) f b h = (a, refl, h)
and_then_inv (err e) f b h = cc

-- The values of a validated bundle differ.
abbrev pub Apart : List DictBundleItemSpec → Type 0
Apart [] = Unit
Apart (i ∷ items) = All (λ j. eq_bytes j.dict_value i.dict_value ≡ false) items × Apart items

passed :
    (a b c : Bool) (e f g : DictError) (rest : DictResult Unit)
    → (if a then err e else if b then err f else if c then err g else rest) ≡ ok tt
    → (c ≡ false) × (rest ≡ ok tt)
passed true b c e f g rest h = cc
passed false true c e f g rest h = cc
passed false false true e f g rest h = cc
passed false false false e f g rest h = (refl, h)

pub validate_items-Apart :
    (seen : List Bytes) (items : List DictBundleItemSpec)
    → validate_items seen items ≡ ok tt
    → All (λ j. any (eq_bytes j.dict_value) seen ≡ false) items × Apart items
validate_items-Apart seen [] h = (tt, tt)
validate_items-Apart seen (i ∷ items) h =
    let (new, rest) =
      passed (is_empty (trim i.dict_label)) (is_empty (trim i.dict_value)) _ empty_label empty_value
        (duplicate_value i.dict_value) (validate_items (i.dict_value ∷ seen) items) h in
    let (others, apart) = validate_items-Apart (i.dict_value ∷ seen) items rest in
    (
      (new, All-map items (λ j o. (or_false _ _ o).1) others),
      (All-map items (λ j o. (or_false _ _ o).0) others, apart),
    )

-- The row of a value that the lookup gives, and its absence.
pub by_value-some :
    (P : DictData → Type 0) (value : Bytes) (rows : List DictData) (r : DictData)
    → All P rows
    → by_value value rows ≡ some r
    → P r × (r.dict_value ≡ value)
by_value-some P value [] r h e = cc
by_value-some P value (x ∷ rows) r (h, hs) e = elim (Option-cases (by_value value rows)) [
  | inr (y, m) ↦
      let same : y ≡ r = cc (rw m at e) in by_value-some P value rows r hs (m ∙ ap some same)
  | inl m ↦ elim (Bool-cases (eq_bytes x.dict_value value)) [
    | inl hit ↦
        let same : x ≡ r = cc (rw (m, hit) at e) in
        subst (λ z. P z × (z.dict_value ≡ value)) same (h, eq_of_eq_bytes _ _ hit)
    | inr miss ↦ absurd (cc (rw (m, miss) at e))
  ]
]

pub by_value-none :
    (value : Bytes) (rows : List DictData) (r : DictData)
    → by_value value rows ≡ none
    → Among r rows
    → r.dict_value ≢ value
by_value-none value [] r e at same = elim at [ ]
by_value-none value (x ∷ rows) r e at same = elim (Option-cases (by_value value rows)) [
  | inr (y, m) ↦ cc (rw m at e)
  | inl m ↦ elim at [
    | inr later ↦ by_value-none value rows r m later same
    | inl i ↦
        let hit : eq_bytes x.dict_value value ≡ true = rw (sym i, same) (eq_bytes_refl value) in
        cc (rw (m, hit) at e)
  ]
]

-- A row at one value is not at another.
pub at_key_parts :
    (t v : Bytes) (r : DictData)
    → at_key t v r ≡ true
    → (data_of_type t r ≡ true) × (r.dict_type ≡ t) × (r.dict_value ≡ v)
at_key_parts t v r h =
    let typed = and_left (eq_bytes r.dict_type t) _ h in
    (typed, eq_of_eq_bytes _ _ typed, eq_of_eq_bytes _ _ (and_right (eq_bytes r.dict_type t) _ h))

differ : (v w : Bytes) → eq_bytes v w ≡ false → v ≢ w
differ v w h e = false≢true (sym h ∙ ap (λ z. eq_bytes z w) e ∙ eq_bytes_refl w)

off_key : (t v w : Bytes) (r : DictData) → at_key t v r ≡ true → v ≢ w → at_key t w r ≡ false
off_key t v w r h other = elim (Bool-cases (at_key t w r)) [
  | inl hit ↦ absurd (other (sym (at_key_parts t v r h).2 ∙ (at_key_parts t w r hit).2))
  | inr miss ↦ miss
]

module _ {Items : Table DictData DataValues DataChange}
    (LI : IsTable Items DictData.id data_row set_data) where
  -- Each item's row is as the item says.
  abbrev pub AllSettled : (dict_type : Bytes) → List DictBundleItemSpec → Items.State → Type 0
  AllSettled t items s =
      All (λ i. Settled LI (at_key t i.dict_value) (λ r. dict_item_changed_fields r i ≡ []) s) items

  -- A write elsewhere leaves what a lookup found, and a settled row.
  Located-Frame :
      (K K' : DictData → Bool) (o : Option DictData) (s s' : Items.State)
      → ((x : DictData) → K x ≡ true → K' x ≡ false)
      → Frame LI K' s s'
      → Located LI K o s
      → Located LI K o s'
  Located-Frame K K' none s s' off frame at = λ x h k. at x ((frame x (off x k)).1 h) k
  Located-Frame K K' (some r) s s' off frame (stored, keyed, only) =
      ((frame r (off r keyed)).0 stored, keyed, λ x h k. only x ((frame x (off x k)).1 h) k)

  Settled-kept :
      {K : DictData → Bool} {P : DictData → Type 0} (s s' : Items.State)
      → ((x : DictData) → K x ≡ true → LI.Stored s x ↔ LI.Stored s' x)
      → Settled LI K P s
      → Settled LI K P s'
  Settled-kept s s' same there = record {
    settled = there.settled;
    stored = (same there.settled there.keyed).0 there.stored;
    keyed = there.keyed;
    holds = there.holds;
    only = λ x h k. there.only x ((same x k).1 h) k;
  }

  -- What the loop leaves in the table.
  pub record Applied (t : Bytes) (items : List DictBundleItemSpec) (s s' : Items.State)
      : Type 0 where
    pub settled : AllSettled t items s'
    pub frame :
        (x : DictData)
        → All (λ i. at_key t i.dict_value x ≡ false) items
        → LI.Stored s x ↔ LI.Stored s' x
    pub kept : (x : DictData) → LI.Stored s x → x.is_system ≡ true → LI.Stored s' x

  pub apply_items-Applied :
      (existing : List DictData) (t : Bytes) (items : List DictBundleItemSpec) (operator : Bytes)
      (s s' : Items.State)
      → apply_items Items existing t items operator s ≡ ok s'
      → Apart items
      → All (λ i. Located LI (at_key t i.dict_value) (by_value i.dict_value existing) s) items
      → Applied t items s s'
  unfolding apply_items
  apply_items-Applied existing t [] operator s s' e apart at =
      subst (Applied t [] s) (cc e)
        (record { settled = tt; frame = λ x none. (λ h. h, λ h. h); kept = λ x h sys. h })
  apply_items-Applied existing t (i ∷ items) operator s s' e (others, apart) (at, ats) =
      let (s1, one, more) =
        and_then_inv (apply_dict_item_spec Items (by_value i.dict_value existing) t i operator s)
          (λ z. apply_items Items existing t items operator z) s' e in
      let now =
        apply_dict_item_spec-Written LI (by_value i.dict_value existing) t i operator s s1 one at in
      let ats1 =
        All-map items
          (λ j (other, located).
            Located-Frame (at_key t j.dict_value) (at_key t i.dict_value) _ s s1
              (λ x k. off_key t j.dict_value i.dict_value x k (differ _ _ other)) now.frame located)
          (All-zip _ _ items others ats) in
      let rest = apply_items-Applied existing t items operator s1 s' more apart ats1 in
      record {
        settled = (
          Settled-kept s1 s'
              (λ x k. rest.frame x (
                All-map items
                  (λ j other.
                    off_key t i.dict_value j.dict_value x k (λ same. differ _ _ other (sym same)))
                  others))
              now.settled,
          rest.settled,
        );
        frame = λ x (off, offs). (
          (λ h. (rest.frame x offs).0 ((now.frame x off).0 h)),
          (λ h. (now.frame x off).1 ((rest.frame x offs).1 h)),
        );
        kept = λ x h sys. rest.kept x (now.kept x h sys) sys;
      }
