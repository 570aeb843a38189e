-- ===== src/RateLimit/Platform.antt =====
-- What the rate limiter uses of code outside the repository: the moka caches, the Redis server with
-- the Lua scripts, the md5 and ipnetwork crates, and the clock. All of it is a parameter.
use summerrs_admin.Base.{ℕ, ◌≡◌, ◌≢◌, Bool, Option, none, some, List}
use summerrs_admin.Base.Text.{Bytes}
use summerrs_admin.Base.Word.{ℤ}

pub data Script : Type 0 where
  gcra_script fixed_window_script sliding_window_script scheduled_slot_script refund_script : Script

pub data Arg : Type 0 where
  int : ℤ → Arg
  text : Bytes → Arg

pub record Platform : Type 1 where
  -- A moka cache by type of value. `write` leaves a value in the cell behind a key: `get_with`,
  -- then a change through the shared pointer.
  pub Cache : Type 0 → Type 0
  pub get : (V : Type 0) → Bytes → Cache V → Option V
  pub write : (V : Type 0) → Bytes → V → Cache V → Cache V
  pub invalidate : (V : Type 0) → Bytes → Cache V → Cache V
  pub md5 : Bytes → Bytes
  pub IpAddr : Type 0
  pub IpNetwork : Type 0
  -- `IpNetwork::contains`
  pub in_network : IpNetwork → IpAddr → Bool

-- The caches as moka documents them, while no entry is evicted or idles out.
pub record Retains (M : Platform) : Type 1 where
  pub get_write_self :
      (V : Type 0) (k : Bytes) (v : V) (m : M.Cache V) → M.get V k (M.write V k v m) ≡ some v
  pub get_write_ne :
      (V : Type 0) (k j : Bytes) (v : V) (m : M.Cache V)
      → k ≢ j
      → M.get V j (M.write V k v m) ≡ M.get V j m
  pub get_invalidate_self :
      (V : Type 0) (k : Bytes) (m : M.Cache V) → M.get V k (M.invalidate V k m) ≡ none
  pub get_invalidate_ne :
      (V : Type 0) (k j : Bytes) (m : M.Cache V)
      → k ≢ j
      → M.get V j (M.invalidate V k m) ≡ M.get V j m

-- What one call meets: the clock's reading, the UUID that it draws, and the reply of the server
-- to a script (`none` for an error).
pub record Moment : Type 0 where
  pub now : ℕ
  pub uuid : Bytes
  pub reply : Script → Bytes → List Arg → Option (List ℤ)
