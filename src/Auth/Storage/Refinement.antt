-- ===== src/Auth/Storage/Refinement.antt =====
-- The storage behaves as a map from keys to values with deadlines.
use summerrs_admin.Base.{
  ℕ, ◌≤◌, ◌≡◌, refl, ap, sym, ◌∙◌, Bool, true, false, Option, none, some, [], ◌∷◌, if◌then◌else◌,
  eq_bytes, eq_bytes_refl, eq_of_eq_bytes, Bool-cases, inl, inr, arith, false≢true,
}
use summerrs_admin.Base.Text.{Bytes}
use summerrs_admin.Auth.Storage.{Entry, is_expired, Data, find, remove, retain_live}

-- What an entry gives at a time.
abbrev pub valid : ℕ → Option Entry → Option Bytes
valid now none = none
valid now (some e) = if is_expired now e.expires_at then none else some e.value

-- Expiry is for good.
pub stays_expired :
    (now t : ℕ) (d : Option ℕ) → now ≤ t → is_expired now d ≡ true → is_expired t d ≡ true
stays_expired now t none h e = e
stays_expired now t (some ts) h e = ground arith

same_key : (j k : Bytes) → eq_bytes j k ≡ true → j ≡ k
same_key j k h = eq_of_eq_bytes j k h

both_none : (b : Bool) → none ≡ if◌then◌else◌ {A = Option Entry} b none none
both_none true = refl
both_none false = refl

drop :
    (b : Bool) (e : Entry) (o : Option Entry)
    → (if b then none else o) ≡ (if b then none else if b then some e else o)
drop true e o = refl
drop false e o = refl

differ : (j key k : Bytes) → eq_bytes j key ≡ false → eq_bytes j k ≡ true → eq_bytes key k ≡ false
differ j key k other at = elim (Bool-cases (eq_bytes key k)) [
  | inl same ↦
      let j≡key : j ≡ key = same_key j k at ∙ sym (same_key key k same) in
      absurd (false≢true (sym other ∙ ap (eq_bytes j) (sym j≡key) ∙ eq_bytes_refl j))
  | inr off ↦ off
]

pub find-remove :
    (key k : Bytes) (m : Data) → find k (remove key m) ≡ (if eq_bytes key k then none else find k m)
unfolding remove
find-remove key k [] = both_none (eq_bytes key k)
find-remove key k ((j, e) ∷ m) = elim (Bool-cases (eq_bytes j key)) [
  | inl same ↦
      rw (same, same_key j key same) (find-remove key k m ∙ drop (eq_bytes key k) e (find k m))
  | inr other ↦ rw other (elim (Bool-cases (eq_bytes j k)) [
    | inl at ↦ let away : eq_bytes key k ≡ false = differ j key k other at in rw (at, away) refl
    | inr off ↦ rw off (find-remove key k m)
  ])
]

-- A key stands once.
abbrev pub Fresh : Bytes → Data → Type 0
Fresh key m = find key m ≡ none

pub data IsMap : Data → Type 0 where
  empty : IsMap []
  entry : (k : Bytes) (e : Entry) (m : Data) → find k m ≡ none → IsMap m → IsMap ((k, e) ∷ m)

remove-Fresh : (key k : Bytes) (m : Data) → Fresh k m → Fresh k (remove key m)
remove-Fresh key k m h =
    find-remove key k m
    ∙ ap (λ o. if eq_bytes key k then none else o) h
    ∙ sym (both_none (eq_bytes key k))

pub remove-IsMap : (key : Bytes) {m : Data} → IsMap m → IsMap (remove key m)
unfolding remove
remove-IsMap key empty = empty
remove-IsMap key (entry k e m fresh ok) = elim (Bool-cases (eq_bytes k key)) [
  | inl same ↦ rw same (remove-IsMap key ok)
  | inr other ↦
      rw other (entry k e (remove key m) (remove-Fresh key k m fresh) (remove-IsMap key ok))
]

pub removed_is_gone : (key : Bytes) (m : Data) → Fresh key (remove key m)
removed_is_gone key m =
    find-remove key key m ∙ ap (λ b. if b then none else find key m) (eq_bytes_refl key)

pub retain_live-Fresh : (now : ℕ) (k : Bytes) (m : Data) → Fresh k m → Fresh k (retain_live now m)
unfolding retain_live
retain_live-Fresh now k [] h = refl
retain_live-Fresh now k ((j, e) ∷ m) h = elim (Bool-cases (eq_bytes j k)) [
  | inl at ↦ absurd (cc (rw at at h))
  | inr off ↦
      let rest = retain_live-Fresh now k m (rw off at h) in
      elim (Bool-cases (is_expired now e.expires_at)) [
        | inl gone ↦ rw gone rest
        | inr live ↦ rw (live, off) rest
      ]
]

pub retain_live-IsMap : (now : ℕ) {m : Data} → IsMap m → IsMap (retain_live now m)
unfolding retain_live
retain_live-IsMap now empty = empty
retain_live-IsMap now (entry k e m fresh ok) = elim (Bool-cases (is_expired now e.expires_at)) [
  | inl gone ↦ rw gone (retain_live-IsMap now ok)
  | inr live ↦
      rw live
        (entry k e (retain_live now m) (retain_live-Fresh now k m fresh) (retain_live-IsMap now ok))
]

-- Dropping what has expired shows at no later time.
pub retain_live-valid :
    (now t : ℕ) (k : Bytes) {m : Data}
    → now ≤ t
    → IsMap m
    → valid t (find k (retain_live now m)) ≡ valid t (find k m)
unfolding retain_live
retain_live-valid now t k h empty = refl
retain_live-valid now t k h (entry j e m fresh ok) =
    let ih = retain_live-valid now t k h ok in
    elim (Bool-cases (is_expired now e.expires_at)) [
      | inl gone ↦ rw gone (elim (Bool-cases (eq_bytes j k)) [
        | inl at ↦
            let none_left : find k m ≡ none = ap (λ t. find t m) (sym (same_key j k at)) ∙ fresh in
            rw (at, stays_expired now t e.expires_at h gone) (ih ∙ ap (valid t) none_left)
        | inr off ↦ rw off ih
      ])
      | inr live ↦
          rw live (elim (Bool-cases (eq_bytes j k)) [ inl at ↦ rw at refl | inr off ↦ rw off ih ])
    ]
