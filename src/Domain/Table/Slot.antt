-- ===== src/Domain/Table/Slot.antt =====
-- A table for tests: a fixed row, and room for one more.
use mathlib.Core.Path.{subst}
use summerrs_admin.Base.{
  ℕ, ◌≡◌, ◌≢◌, ◌⊎◌, ◌↔◌, refl, sym, ◌∙◌, ap, inl, inr, Bool, true, false, Bool-cases, Option, none,
  some, List, [], ◌∷◌, All, ==_iff, not, if◌then◌else◌,
}
use summerrs_admin.Base.Word.{ℤ, pos, negsuc}
use summerrs_admin.Domain.Table.{Table, IsTable, Among}
use summerrs_admin.Domain.Dict.{eq_i32}

eq_i32_sound : (a b : ℤ) → eq_i32 a b ≡ true → a ≡ b
eq_i32_sound (pos m) (pos n) h = ap pos ((==_iff m n).0 h)
eq_i32_sound (pos m) (negsuc n) h = cc
eq_i32_sound (negsuc m) (pos n) h = cc
eq_i32_sound (negsuc m) (negsuc n) h = ap negsuc ((==_iff m n).0 h)

eq_i32_refl : (a : ℤ) → eq_i32 a a ≡ true
eq_i32_refl (pos m) = (==_iff m m).1 refl
eq_i32_refl (negsuc m) = (==_iff m m).1 refl

module _ {Row : Type 0} where
  abbrev select : (Row → Bool) → List Row → List Row
  select p [] = []
  select p (x ∷ xs) = let more = select p xs in if p x then x ∷ more else more

  abbrev AreIn : (Row → Bool) → List Row → List Row → Type 0
  AreIn p xs l = All (λ r. Among r xs × (p r ≡ true)) l

  AreIn-concat : (p : Row → Bool) (x : Row) (xs l : List Row) → AreIn p xs l → AreIn p (x ∷ xs) l
  AreIn-concat p x xs [] h = tt
  AreIn-concat p x xs (r ∷ l) ((here, holds), more) =
      ((inr here, holds), AreIn-concat p x xs l more)

  select-AreIn : (p : Row → Bool) (xs : List Row) → AreIn p xs (select p xs)
  select-AreIn p [] = tt
  select-AreIn p (x ∷ xs) = elim (Bool-cases (p x)) [
    | inl hit ↦ rw hit ((inl refl, hit), AreIn-concat p x xs (select p xs) (select-AreIn p xs))
    | inr miss ↦ rw miss (AreIn-concat p x xs (select p xs) (select-AreIn p xs))
  ]

  select-Among :
      (p : Row → Bool) (xs : List Row) (r : Row) → Among r xs → p r ≡ true → Among r (select p xs)
  select-Among p [] r h holds = h
  select-Among p (x ∷ xs) r (inl same) holds =
      let hit : p x ≡ true = ap p (sym same) ∙ holds in rw hit (inl same)
  select-Among p (x ∷ xs) r (inr h) holds = elim (Bool-cases (p x)) [
    | inl hit ↦ rw hit (inr (select-Among p xs r h holds))
    | inr miss ↦ rw miss (select-Among p xs r h holds)
  ]

module _ {Row Values Change : Type 0} (id_of : Row → ℤ) (row : (id : ℤ) → (time : ℕ) → Values → Row)
    (set : Change → (time : ℕ) → Row → Row) (fixed : Row) where
  abbrev is_free : Row → Bool
  is_free r = not (eq_i32 (id_of r) (id_of fixed))

  -- A row with the key of the fixed one is no row.
  abbrev pub rows : Option Row → List Row
  rows none = fixed ∷ []
  rows (some r) = if is_free r then fixed ∷ r ∷ [] else fixed ∷ []

  abbrev put_slot : Row → Option (Option Row)
  put_slot r = if is_free r then some (some r) else none

  abbrev insert_slot : Values → Option Row → Option (Option Row)
  insert_slot v none = put_slot (row (pos 7) 100 v)
  insert_slot v (some r) = none

  abbrev update_slot : ℤ → Change → Option Row → Option (Option Row)
  update_slot id c none = none
  update_slot id c (some r) =
      if is_free r then (if eq_i32 id (id_of r) then put_slot (set c 100 r) else none) else none

  abbrev pub slot : Table Row Values Change
  slot = record {
    State = Option Row;
    find = λ p s. some (select p (rows s));
    insert = insert_slot;
    update = update_slot;
  }

  apart : (r : Row) → is_free r ≡ true → id_of r ≢ id_of fixed
  apart r free same =
      let taken : is_free r ≡ false =
        ap (λ z. not (eq_i32 z (id_of fixed))) same ∙ ap not (eq_i32_refl (id_of fixed)) in
      absurd (cc (free, taken))

  only_fixed : (x y : Row) → Among x (fixed ∷ []) → Among y (fixed ∷ []) → x ≡ y
  only_fixed x y (inl hx) (inl hy) = hx ∙ sym hy
  only_fixed x y (inr hx) hy = absurd hx
  only_fixed x y hx (inr hy) = absurd hy

  both_rows :
      (r x y : Row)
      → is_free r ≡ true
      → Among x (fixed ∷ r ∷ [])
      → Among y (fixed ∷ r ∷ [])
      → id_of x ≡ id_of y
      → x ≡ y
  both_rows r x y free (inl hx) (inl hy) same = hx ∙ sym hy
  both_rows r x y free (inl hx) (inr (inl hy)) same =
      absurd (apart r free (ap id_of (sym hy) ∙ sym same ∙ ap id_of hx))
  both_rows r x y free (inr (inl hx)) (inl hy) same =
      absurd (apart r free (ap id_of (sym hx) ∙ same ∙ ap id_of hy))
  both_rows r x y free (inr (inl hx)) (inr (inl hy)) same = hx ∙ sym hy
  both_rows r x y free (inr (inr out)) hy same = absurd out
  both_rows r x y free hx (inr (inr out)) same = absurd out

  pub slot_key :
      (s : Option Row) (x y : Row) → Among x (rows s) → Among y (rows s) → id_of x ≡ id_of y → x ≡ y
  slot_key none x y hx hy same = only_fixed x y hx hy
  slot_key (some r) x y hx hy same = elim (Bool-cases (is_free r)) [
    | inl free ↦ both_rows r x y free (rw free at hx) (rw free at hy) same
    | inr taken ↦ only_fixed x y (rw taken at hx) (rw taken at hy)
  ]

  pub find_slot-Found :
      (p : Row → Bool) (s : Option Row) (l : List Row)
      → some (select p (rows s)) ≡ some l
      → AreIn p (rows s) l × ((r : Row) → Among r (rows s) → p r ≡ true → Among r l)
  find_slot-Found p s l e =
      let same : select p (rows s) ≡ l = cc e in
      subst (λ z. AreIn p (rows s) z × ((r : Row) → Among r (rows s) → p r ≡ true → Among r z)) same
        (select-AreIn p (rows s), λ r h k. select-Among p (rows s) r h k)

  put_slot_inv :
      (r : Row) (s' : Option Row)
      → put_slot r ≡ some s'
      → (is_free r ≡ true) × ((x : Row) → Among x (rows s') ↔ Among x (fixed ∷ r ∷ []))
  put_slot_inv r s' e = elim (Bool-cases (is_free r)) [
    | inr taken ↦ absurd (cc (rw taken at e))
    | inl free ↦
        let same : some r ≡ s' = cc (rw free at e) in
        (
          free,
          λ x.
              subst (λ z. Among x (rows z) ↔ Among x (fixed ∷ r ∷ [])) same
                (rw free ((λ h. h), (λ h. h))),
        )
  ]

  pub insert_slot_inv :
      (v : Values) (s s' : Option Row)
      → insert_slot v s ≡ some s'
      → (id : ℤ) × (time : ℕ) × ((x : Row)
          → Among x (rows s') ↔ (Among x (rows s) ⊎ (x ≡ row id time v)))
  insert_slot_inv v (some r) s' e = cc
  insert_slot_inv v none s' e =
      let (free, now) = put_slot_inv (row (pos 7) 100 v) s' e in
      (
        pos 7,
        100,
        λ x. (
          (λ h. forth x ((now x).0 h)),
          (λ h. (now x).1 (elim h [
            | inl old ↦ elim old [ inl f ↦ inl f | inr out ↦ absurd out ]
            | inr new ↦ inr (inl new)
          ])),
        ),
      )
    where
      forth :
          (x : Row)
          → Among x (fixed ∷ row (pos 7) 100 v ∷ [])
          → Among x (fixed ∷ []) ⊎ (x ≡ row (pos 7) 100 v)
      forth x (inl f) = inl (inl f)
      forth x (inr (inl new)) = inr new
      forth x (inr (inr out)) = absurd out

  pub update_slot_inv :
      (id : ℤ) (c : Change) (s s' : Option Row)
      → update_slot id c s ≡ some s'
      → (old : Row) × (time : ℕ) × Among old (rows s)
        × (id_of old ≡ id)
        × ((x : Row)
            → Among x (rows s') ↔ ((Among x (rows s) × (id_of x ≢ id)) ⊎ (x ≡ set c time old)))
  update_slot_inv id c none s' e = cc
  update_slot_inv id c (some r) s' e = elim (Bool-cases (is_free r)) [
    | inr taken ↦ absurd (cc (rw taken at e))
    | inl free ↦ rw free (elim (Bool-cases (eq_i32 id (id_of r))) [
      | inr miss ↦ absurd (cc (rw (free, miss) at e))
      | inl hit ↦
          let its : id_of r ≡ id = sym (eq_i32_sound id (id_of r) hit) in
          let now = (put_slot_inv (set c 100 r) s' (rw (free, hit) at e)).1 in
          (
            r,
            100,
            inr (inl refl),
            its,
            λ x. (
              (λ h. forth free its x ((now x).0 h)),
              (λ h.
                  (now x).1
                    (elim h [ inl (old, other) ↦ back its x other old | inr new ↦ inr (inl new) ])),
            ),
          )
    ])
  ]
    where
      forth :
          is_free r ≡ true
          → id_of r ≡ id
          → (x : Row) → Among x (fixed ∷ set c 100 r ∷ [])
          → (Among x (fixed ∷ r ∷ []) × (id_of x ≢ id)) ⊎ (x ≡ set c 100 r)
      forth free its x (inl f) = inl (inl f, λ same. apart r free (its ∙ sym same ∙ ap id_of f))
      forth free its x (inr (inl new)) = inr new
      forth free its x (inr (inr out)) = absurd out

      back :
          id_of r ≡ id
          → (x : Row) → id_of x ≢ id
          → Among x (fixed ∷ r ∷ [])
          → Among x (fixed ∷ set c 100 r ∷ [])
      back its x other (inl f) = inl f
      back its x other (inr (inl old)) = absurd (other (ap id_of old ∙ its))
      back its x other (inr (inr out)) = absurd out

  abbrev pub slot_laws : IsTable slot id_of row set
  slot_laws = record {
    Stored = λ s r. Among r (rows s);
    primary_key = slot_key;
    found = find_slot-Found;
    inserted = insert_slot_inv;
    updated = update_slot_inv;
  }
