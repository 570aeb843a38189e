-- ===== src/Domain/Table/Steps.antt =====
-- One row looked up by a key and then inserted or updated.
use mathlib.Core.Path.{subst}
use summerrs_admin.Base.{
  ℕ, ◌≡◌, ◌≢◌, ◌↔◌, refl, sym, ◌∙◌, ap, inl, inr, Bool, true, false, false≢true, some, List, [],
  ◌∷◌,
}
use summerrs_admin.Base.Word.{ℤ}
use summerrs_admin.Domain.Table.{Table, IsTable}

module _ {Row Values Change : Type 0} {T : Table Row Values Change} {id_of : Row → ℤ}
    {row : (id : ℤ) → (time : ℕ) → Values → Row} {set : Change → (time : ℕ) → Row → Row}
    (L : IsTable T id_of row set) where
  -- The one row at a key, and what holds of it.
  pub record Settled (K : Row → Bool) (P : Row → Type 0) (s : T.State) : Type 0 where
    pub settled : Row
    pub stored : L.Stored s settled
    pub keyed : K settled ≡ true
    pub holds : P settled
    pub only : (x : Row) → L.Stored s x → K x ≡ true → x ≡ settled

  -- The rows off the key are the same.
  abbrev pub Frame : (Row → Bool) → T.State → T.State → Type 0
  Frame K s s' = (x : Row) → K x ≡ false → L.Stored s x ↔ L.Stored s' x

  abbrev pub Vacant : (Row → Bool) → T.State → Type 0
  Vacant K s = (x : Row) → L.Stored s x → K x ≡ true → ⊥

  pub insert_Settled :
      {K : Row → Bool} {P : Row → Type 0} (values : Values) (s s' : T.State)
      → T.insert values s ≡ some s'
      → ((id : ℤ) (time : ℕ) → (K (row id time values) ≡ true) × P (row id time values))
      → Vacant K s
      → Settled K P s' × Frame K s s' × ((x : Row) → L.Stored s x → L.Stored s' x)
  insert_Settled {K = K} values s s' e new vacant =
      let (id, time, exact) = L.inserted values s s' e in
      (
        record {
          settled = row id time values;
          stored = (exact _).1 (inr refl);
          keyed = (new id time).0;
          holds = (new id time).1;
          only =
              λ x h k. elim ((exact x).0 h) [ inl old ↦ absurd (vacant x old k) | inr same ↦ same ];
        },
        λ x k. (
          (λ h. (exact x).1 (inl h)),
          (λ h. elim ((exact x).0 h) [
            | inl old ↦ old
            | inr same ↦ absurd (false≢true (sym k ∙ ap K same ∙ (new id time).0))
          ]),
        ),
        λ x h. (exact x).1 (inl h),
      )

  pub update_Settled :
      {K : Row → Bool} {P : Row → Type 0} (r : Row) (change : Change) (s s' : T.State)
      → T.update (id_of r) change s ≡ some s'
      → ((time : ℕ) → (K (set change time r) ≡ true) × P (set change time r))
      → L.Stored s r
      → K r ≡ true
      → ((x : Row) → L.Stored s x → K x ≡ true → x ≡ r)
      → Settled K P s' × Frame K s s' × ((x : Row) → L.Stored s x → x ≢ r → L.Stored s' x)
  update_Settled {K = K} {P = P} r change s s' e new stored keyed only =
      let (old, time, there, same_id, exact) = L.updated (id_of r) change s s' e in
      let same : old ≡ r = L.primary_key s old r there stored same_id in
      let new_row : K (set change time old) ≡ true × P (set change time old) =
        subst (λ o. (K (set change time o) ≡ true) × P (set change time o)) (sym same) (new time) in
      (
        record {
          settled = set change time old;
          stored = (exact _).1 (inr refl);
          keyed = new_row.0;
          holds = new_row.1;
          only = λ x h k. elim ((exact x).0 h) [
            | inl (before, other) ↦ absurd (other (ap id_of (only x before k)))
            | inr new ↦ new
          ];
        },
        λ x k. (
          (λ h. (exact x).1 (
              inl
                (h, λ eid. false≢true (sym k ∙ ap K (L.primary_key s x r h stored eid) ∙ keyed)))),
          (λ h. elim ((exact x).0 h) [
            | inl (before, other) ↦ before
            | inr new ↦ absurd (false≢true (sym k ∙ ap K new ∙ new_row.0))
          ]),
        ),
        λ x h other. (exact x).1 (inl (h, λ eid. other (L.primary_key s x r h stored eid))),
      )

  -- What a search by the key says of its first row.
  pub found_first :
      {K : Row → Bool} (s : T.State) (r : Row) (l : List Row)
      → T.find K s ≡ some (r ∷ l)
      → L.Stored s r × (K r ≡ true)
  found_first {K = K} s r l e = (L.found K s (r ∷ l) e).0.0

  pub found_none : {K : Row → Bool} (s : T.State) → T.find K s ≡ some [] → Vacant K s
  found_none {K = K} s e x h k = (L.found K s [] e).1 x h k
