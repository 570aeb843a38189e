-- ===== src/Auth/Storage/Runs.antt =====
-- Any sequence of operations on the storage, against a map that never drops an entry by itself.
use summerrs_admin.Base.{
  ℕ, ◌+◌, ◌%◌, ◌≤◌, ◌≡◌, refl, ap, sym, ◌∙◌, Bool, true, false, Option, none, some, List, [], ◌∷◌,
  ◌==◌, ltb, if◌then◌else◌, eq_bytes, eq_of_eq_bytes, Bool-cases, inl, inr, arith,
}
use summerrs_admin.Base.Text.{Bytes}
use summerrs_admin.Base.Word.{ℤ, pos_part}
use summerrs_admin.Auth.Storage.{
  Entry, is_expired, Data, MemoryStorage, empty_storage, find, remove, retain_live, purge_expired,
  maybe_cleanup, set_string, read_entry, get_string, delete, cleanup_interval,
}
use summerrs_admin.Auth.Storage.Refinement.{
  valid, find-remove, IsMap, empty, entry, remove-IsMap, removed_is_gone, retain_live-IsMap,
  retain_live-valid, stays_expired,
}

pub data Event : Type 0 where
  put : (key value : Bytes) (ttl_seconds : ℤ) → Event
  read : (key : Bytes) → Event
  drop : (key : Bytes) → Event
  purge : Event

unfoldable pub step : ℕ → Event → MemoryStorage → MemoryStorage
step now (put key value ttl) s = set_string key value ttl now s
step now (read key) s = (get_string key now s).1
step now (drop key) s = delete key s
step now purge s = purge_expired now s

unfoldable pub run : List (ℕ × Event) → MemoryStorage → MemoryStorage
run [] s = s
run ((now, ev) ∷ events) s = run events (step now ev s)

abbrev pub deadline : ℕ → ℤ → Option ℕ
deadline now ttl = if ltb 0 (pos_part ttl) then some (now + pos_part ttl) else none

-- The map without any cleaning: reading and purging change nothing.
abbrev pub Map : Type 0
Map = Bytes → Option Entry

abbrev pub change : ℕ → Event → Map → Map
change now (put key value ttl) f = λ k.
    if eq_bytes key k then some (record { value = value; expires_at = deadline now ttl }) else f k
change now (read key) f = f
change now (drop key) f = λ k. if eq_bytes key k then none else f k
change now purge f = f

abbrev pub replay : List (ℕ × Event) → Map → Map
replay [] f = f
replay ((now, ev) ∷ events) f = replay events (change now ev f)

-- The clock does not go back, from the first time to the last.
abbrev pub Ordered : ℕ → List (ℕ × Event) → ℕ → Type 0
Ordered now [] end = now ≤ end
Ordered now ((t, ev) ∷ events) end = (now ≤ t) × Ordered t events end

Agrees : ℕ → Data → Map → Type 0
Agrees now m f =
    IsMap m × ((key : Bytes) (t : ℕ) → now ≤ t → valid t (find key m) ≡ valid t (f key))

retained : (now : ℕ) (m : Data) (f : Map) → Agrees now m f → Agrees now (retain_live now m) f
unfolding Agrees
retained now m f (ok, same) =
    (retain_live-IsMap now ok, λ key t h. retain_live-valid now t key h ok ∙ same key t h)

cleaned :
    (now : ℕ) (s : MemoryStorage) (f : Map)
    → Agrees now s.entries f
    → Agrees now (maybe_cleanup now s).entries f
unfolding maybe_cleanup purge_expired
cleaned now s f a = elim (Bool-cases (s.write_count % cleanup_interval == 0)) [
  | inl due ↦ rw due (retained now s.entries f a)
  | inr not_due ↦ rw not_due a
]

pick :
    (b : Bool) (t : ℕ) (o p q : Option Entry)
    → valid t p ≡ valid t q
    → valid t (if b then o else p) ≡ valid t (if b then o else q)
pick true t o p q h = refl
pick false t o p q h = h

removed :
    (now : ℕ) (key : Bytes) (m : Data) (f : Map)
    → Agrees now m f
    → Agrees now (remove key m) (λ k. if eq_bytes key k then none else f k)
unfolding Agrees
removed now key m f (ok, same) = (
  remove-IsMap key ok,
  λ k t h. ap (valid t) (find-remove key k m) ∙ pick (eq_bytes key k) t none _ _ (same k t h),
)

stored :
    (now : ℕ) (key : Bytes) (e : Entry) (m : Data) (f : Map)
    → Agrees now m f
    → Agrees now ((key, e) ∷ remove key m) (λ k. if eq_bytes key k then some e else f k)
unfolding Agrees
stored now key e m f (ok, same) = (
  entry key e (remove key m) (removed_is_gone key m) (remove-IsMap key ok),
  λ k t h. elim (Bool-cases (eq_bytes key k)) [
    | inl at ↦ rw at refl
    | inr off ↦ rw off (
        ap (valid t) (find-remove key k m ∙ ap (λ b. if b then none else find k m) off)
        ∙ same k t h)
  ],
)

later : (now t : ℕ) (m : Data) (f : Map) → now ≤ t → Agrees now m f → Agrees t m f
unfolding Agrees
later now t m f h (ok, same) = (ok, λ key u k. same key u (omega arith))

-- Removing an entry that has expired.
forgotten :
    (now : ℕ) (key : Bytes) (e : Entry) (m : Data) (f : Map)
    → find key m ≡ some e
    → is_expired now e.expires_at ≡ true
    → Agrees now m f
    → Agrees now (remove key m) f
unfolding Agrees
forgotten now key e m f there gone (ok, same) = (
  remove-IsMap key ok,
  λ k t h. elim (Bool-cases (eq_bytes key k)) [
    | inl at ↦
        let was : valid t (find k m) ≡ none =
          ap (λ j. valid t (find j m)) (sym (eq_of_eq_bytes key k at))
          ∙ ap (valid t) there
          ∙ rw (stays_expired now t e.expires_at h gone) refl in
        ap (valid t) (find-remove key k m ∙ ap (λ b. if b then none else find k m) at)
        ∙ sym was
        ∙ same k t h
    | inr off ↦
        ap (valid t) (find-remove key k m ∙ ap (λ b. if b then none else find k m) off) ∙ same k t h
  ],
)

read_entry_keeps :
    (now : ℕ) (key : Bytes) (s : MemoryStorage) (f : Map) (o : Option Entry)
    → find key s.entries ≡ o
    → Agrees now s.entries f
    → Agrees now (read_entry key now o s).1.entries f
read_entry_keeps now key s f none there a = a
read_entry_keeps now key s f (some e) there a = elim (Bool-cases (is_expired now e.expires_at)) [
  | inl gone ↦ rw gone (forgotten now key e s.entries f there gone a)
  | inr live ↦ rw live a
]

-- A read drops an entry only if it has expired.
read_keeps :
    (now : ℕ) (key : Bytes) (s : MemoryStorage) (f : Map)
    → Agrees now s.entries f
    → Agrees now (get_string key now s).1.entries f
unfolding get_string
read_keeps now key s f a = read_entry_keeps now key s f (find key s.entries) refl a

step-Agrees :
    (now : ℕ) (ev : Event) (s : MemoryStorage) (f : Map)
    → Agrees now s.entries f
    → Agrees now (step now ev s).entries (change now ev f)
unfolding step set_string delete purge_expired
step-Agrees now (put key value ttl) s f a = cleaned now _ _ (stored now key _ s.entries f a)
step-Agrees now (read key) s f a = read_keeps now key s f a
step-Agrees now (drop key) s f a = removed now key s.entries f a
step-Agrees now purge s f a = retained now s.entries f a

run-Agrees :
    (now : ℕ) (events : List (ℕ × Event)) (end : ℕ) (s : MemoryStorage) (f : Map)
    → Ordered now events end
    → Agrees now s.entries f
    → Agrees end (run events s).entries (replay events f)
unfolding run
run-Agrees now [] end s f order a = later now end s.entries f order a
run-Agrees now ((t, ev) ∷ events) end s f order a =
    run-Agrees t events end (step t ev s) (change t ev f) order.1
      (step-Agrees t ev s f (later now t s.entries f order.0 a))

read_entry-valid :
    (key : Bytes) (now : ℕ) (s : MemoryStorage) (o : Option Entry)
    → (read_entry key now o s).0 ≡ valid now o
read_entry-valid key now s none = refl
read_entry-valid key now s (some e) = elim (Bool-cases (is_expired now e.expires_at)) [
  | inl gone ↦ rw gone refl
  | inr live ↦ rw live refl
]

pub get_string-valid :
    (key : Bytes) (now : ℕ) (s : MemoryStorage)
    → (get_string key now s).0 ≡ valid now (find key s.entries)
unfolding get_string
get_string-valid key now s = read_entry-valid key now s (find key s.entries)

-- After any operations on an empty storage, on a clock that does not go back, `get_string` gives
-- the value last put for the key unless it has been deleted or its time has passed: the dropping
-- of expired entries by reads and by the cleaning is never seen.
pub run-get_string :
    (events : List (ℕ × Event)) (end : ℕ) (key : Bytes)
    → Ordered 0 events end
    → (get_string key end (run events empty_storage)).0 ≡ valid end (replay events (λ _. none) key)
unfolding Agrees
run-get_string events end key order =
    get_string-valid key end (run events empty_storage)
    ∙ (run-Agrees 0 events end empty_storage (λ _. none) order (empty, λ k t h. refl)).1 key end
        (omega arith)
