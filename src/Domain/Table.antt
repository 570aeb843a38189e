-- ===== src/Domain/Table.antt =====
-- A database table as the services of crates/summer-domain/src use it through sea-orm: a parameter,
-- since neither sea-orm nor PostgreSQL is in the repository. none is a `DbErr`.
pub mod Steps
pub mod Slot
use summerrs_admin.Base.{ℕ, ◌≡◌, ◌≢◌, ◌⊎◌, ◌↔◌, Bool, true, Option, none, some, List, [], ◌∷◌, All}
use summerrs_admin.Base.Word.{ℤ}

-- SELECT with a condition, INSERT of values, and UPDATE of some columns by primary key.
pub record Table (Row Values Change : Type 0) : Type 1 where
  pub State : Type 0
  pub find : (condition : Row → Bool) → State → Option (List Row)
  pub insert : Values → State → Option State
  pub update : (id : ℤ) → Change → State → Option State

abbrev pub Among : {Row : Type 0} → Row → List Row → Type 0
Among r [] = ⊥
Among r (x ∷ xs) = (r ≡ x) ⊎ Among r xs

-- What the documentation of SQL says of a table with a primary key. `row` and `set` are a row of
-- inserted values and a row with changed columns; the database picks the key and the times.
pub record IsTable {Row Values Change : Type 0} (T : Table Row Values Change) (id_of : Row → ℤ)
    (row : (id : ℤ) → (time : ℕ) → Values → Row) (set : Change → (time : ℕ) → Row → Row)
    : Type 1 where
  pub Stored : T.State → Row → Type 0
  pub primary_key : (s : T.State) (x y : Row) → Stored s x → Stored s y → id_of x ≡ id_of y → x ≡ y
  pub found :
      (condition : Row → Bool) (s : T.State) (l : List Row)
      → T.find condition s ≡ some l
      → All (λ r. Stored s r × (condition r ≡ true)) l
        × ((r : Row) → Stored s r → condition r ≡ true → Among r l)
  pub inserted :
      (values : Values) (s s' : T.State)
      → T.insert values s ≡ some s'
      → (id : ℤ) × (time : ℕ) × ((x : Row) → Stored s' x ↔ (Stored s x ⊎ (x ≡ row id time values)))
  pub updated :
      (id : ℤ) (change : Change) (s s' : T.State)
      → T.update id change s ≡ some s'
      → (old : Row) × (time : ℕ) × Stored s old
        × (id_of old ≡ id)
        × ((x : Row) → Stored s' x ↔ ((Stored s x × (id_of x ≢ id)) ⊎ (x ≡ set change time old)))
