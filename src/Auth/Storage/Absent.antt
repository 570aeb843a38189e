-- ===== src/Auth/Storage/Absent.antt =====
-- A key that the storage in memory does not have, and what keeps it so.
use summerrs_admin.Base.{
  ℕ, ◌%◌, ◌≡◌, refl, ◌∙◌, Bool, true, false, Option, none, some, List, [], ◌∷◌, All, ◌==◌,
  if◌then◌else◌, eq_bytes, Bool-cases, inl, inr,
}
use summerrs_admin.Base.Text.{Bytes}
use summerrs_admin.Base.Word.{ℤ}
use summerrs_admin.Auth.Storage.{
  Entry, MemoryStorage, is_expired, find, remove, purge_expired, maybe_cleanup, set_string,
  read_entry, get_string, delete, cleanup_interval,
}
use summerrs_admin.Auth.Storage.Refinement.{find-remove, retain_live-Fresh}
use summerrs_admin.Auth.Storage.Runs.{Event, put, read, drop, purge, step, run, deadline}

unfoldable pub Absent : Bytes → MemoryStorage → Type 0
Absent k s = find k s.entries ≡ none

remove-Absent :
    (key k : Bytes) (s : MemoryStorage) (count : ℕ)
    → Absent k s
    → Absent k (record { entries = remove key s.entries; write_count = count })
unfolding Absent
remove-Absent key k s count h = find-remove key k s.entries ∙ both (eq_bytes key k) _ h
  where
    both : (b : Bool) (o : Option Entry) → o ≡ none → (if b then none else o) ≡ none
    both true o e = refl
    both false o e = e

maybe_cleanup-Absent :
    (k : Bytes) (at : ℕ) (entries : List (Bytes × Entry)) (count : ℕ)
    → find k entries ≡ none
    → Absent k (maybe_cleanup at (record { entries = entries; write_count = count }))
unfolding Absent maybe_cleanup purge_expired
maybe_cleanup-Absent k at entries count h = elim (Bool-cases (count % cleanup_interval == 0)) [
  | inl due ↦ rw due (retain_live-Fresh at k entries h)
  | inr not_due ↦ rw not_due h
]

pub set_string-Absent :
    (key k value : Bytes) (ttl : ℤ) (at : ℕ) (s : MemoryStorage)
    → eq_bytes key k ≡ false
    → Absent k s
    → Absent k (set_string key value ttl at s)
unfolding Absent set_string
set_string-Absent key k value ttl at s other h =
    maybe_cleanup-Absent k at
      ((key, record { value = value; expires_at = deadline at ttl }) ∷ remove key s.entries)
      s.write_count (rw other (remove-Absent key k s 0 h))

pub read_entry-Absent :
    (key k : Bytes) (at : ℕ) (s : MemoryStorage) (o : Option Entry)
    → Absent k s
    → Absent k (read_entry key at o s).1
read_entry-Absent key k at s none h = h
read_entry-Absent key k at s (some e) h = elim (Bool-cases (is_expired at e.expires_at)) [
  | inl gone ↦ rw gone (remove-Absent key k s s.write_count h)
  | inr live ↦ rw live h
]

-- Does the operation set the key?
abbrev pub sets : Bytes → Event → Bool
sets key (put k value ttl) = eq_bytes k key
sets key (read k) = false
sets key (drop k) = false
sets key purge = false

step-Absent :
    (k : Bytes) (now : ℕ) (ev : Event) (s : MemoryStorage)
    → sets k ev ≡ false
    → Absent k s
    → Absent k (step now ev s)
unfolding step get_string delete purge_expired Absent
step-Absent k now (put key value ttl) s other h = set_string-Absent key k value ttl now s other h
step-Absent k now (read key) s other h = read_entry-Absent key k now s (find key s.entries) h
step-Absent k now (drop key) s other h = remove-Absent key k s s.write_count h
step-Absent k now purge s other h = retain_live-Fresh now k s.entries h

pub run-Absent :
    (k : Bytes) (events : List (ℕ × Event)) (s : MemoryStorage)
    → All (λ e. sets k e.1 ≡ false) events
    → Absent k s
    → Absent k (run events s)
unfolding run
run-Absent k [] s kept h = h
run-Absent k ((now, ev) ∷ events) s (first, more) h =
    run-Absent k events (step now ev s) more (step-Absent k now ev s first h)
