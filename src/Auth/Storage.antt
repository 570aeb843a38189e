-- ===== src/Auth/Storage.antt =====
-- crates/summer-auth/src/storage/memory.rs: the storage in memory. Times are seconds since the
-- epoch, so not negative; each operation takes the clock's reading. The `HashMap` is an
-- association list without order: an insertion removes the key and puts it first.
pub mod Refinement
pub mod Runs
pub mod Absent
use summerrs_admin.Base.{
  ℕ, suc, ◌+◌, ◌%◌, ◌≤◌, ◌≡◌, refl, Bool, true, false, not, ◌&&◌, Option, none, some, List, [], ◌∷◌,
  ◌==◌, leb, ltb, if◌then◌else◌, eq_bytes,
}
use summerrs_admin.Base.Text.{Bytes, starts_with}
use summerrs_admin.Base.Word.{ℤ, pos_part, u64_mod}

pub record Entry : Type 0 where
  pub value : Bytes
  pub expires_at : Option ℕ

-- `Entry::is_expired`
abbrev pub is_expired : ℕ → Option ℕ → Bool
is_expired now none = false
is_expired now (some ts) = ltb ts now

abbrev pub Data : Type 0
Data = List (Bytes × Entry)

pub record MemoryStorage : Type 0 where
  pub entries : Data
  pub write_count : ℕ

-- `MemoryStorage::new`
abbrev pub empty_storage : MemoryStorage
empty_storage = record { entries = []; write_count = 0 }

abbrev pub cleanup_interval : ℕ
cleanup_interval = 100

-- `HashMap::get`
abbrev pub find : Bytes → Data → Option Entry
find key [] = none
find key ((k, e) ∷ m) = let rest = find key m in if eq_bytes k key then some e else rest

-- `HashMap::remove`
unfoldable pub remove : Bytes → Data → Data
remove key [] = []
remove key ((k, e) ∷ m) = let rest = remove key m in if eq_bytes k key then rest else (k, e) ∷ rest

-- `retain` of the entries that have not expired.
unfoldable pub retain_live : ℕ → Data → Data
retain_live now [] = []
retain_live now ((k, e) ∷ m) =
    let rest = retain_live now m in if is_expired now e.expires_at then rest else (k, e) ∷ rest

unfoldable pub purge_expired : ℕ → MemoryStorage → MemoryStorage
unfolding retain_live
purge_expired now s = record s { entries = retain_live now s.entries }

-- `maybe_cleanup`: the test reads the count from before the increment.
unfoldable pub maybe_cleanup : ℕ → MemoryStorage → MemoryStorage
unfolding purge_expired
maybe_cleanup now s =
    let counted = record s { write_count = (s.write_count + 1) % u64_mod } in
    if s.write_count % cleanup_interval == 0 then purge_expired now counted else counted

unfoldable pub set_string :
    (key value : Bytes) → (ttl_seconds : ℤ) → (now : ℕ) → MemoryStorage → MemoryStorage
unfolding maybe_cleanup remove
set_string key value ttl_seconds now s =
    let expires_at =
      if ltb 0 (pos_part ttl_seconds) then some (now + pos_part ttl_seconds) else none in
    maybe_cleanup now (record s {
      entries = (key, record { value = value; expires_at = expires_at }) ∷ remove key s.entries;
    })

-- The match of `get_string` on the entry.
abbrev pub read_entry : Bytes → ℕ → Option Entry → MemoryStorage → Option Bytes × MemoryStorage
read_entry key now none s = (none, s)
read_entry key now (some e) s =
    if is_expired now e.expires_at
    then (none, record s { entries = remove key s.entries })
    else (some e.value, s)

unfoldable pub get_string : (key : Bytes) → (now : ℕ) → MemoryStorage → Option Bytes × MemoryStorage
unfolding remove
get_string key now s = read_entry key now (find key s.entries) s

unfoldable pub delete : (key : Bytes) → MemoryStorage → MemoryStorage
unfolding remove
delete key s = record s { entries = remove key s.entries }

-- The filter of `keys_by_prefix`.
abbrev pub live_keys : Bytes → ℕ → Data → List Bytes
live_keys prefix now [] = []
live_keys prefix now ((k, e) ∷ m) =
    let rest = live_keys prefix now m in
    if starts_with k prefix && not (is_expired now e.expires_at) then k ∷ rest else rest

unfoldable pub keys_by_prefix : (prefix : Bytes) → (now : ℕ) → MemoryStorage → List Bytes
keys_by_prefix prefix now s = live_keys prefix now s.entries

abbrev present : ℕ → Option Entry → Bool
present now none = false
present now (some e) = not (is_expired now e.expires_at)

unfoldable pub exists : (key : Bytes) → (now : ℕ) → MemoryStorage → Bool
exists key now s = present now (find key s.entries)
