-- ===== src/Result.antt =====
-- The exceptions and faults of src/Storage/Persistence.cpp and src/RAM/HashMap.cpp as values.
use mathlib.Core.Path.{◌≡◌}

-- The ways in which the program fails: what it throws, and what C++ leaves undefined.
pub data Fault : Type 0 where
  -- `hashValue % capacity` with `capacity == 0`
  division_by_zero : Fault
  -- "Error opening AOF file"
  aof_open_failed : Fault
  -- "Error opening RDB file"
  rdb_open_failed : Fault
  -- "Error opening RDB file for snapshot"
  snapshot_open_failed : Fault
  -- "Failed to create socket", and the failures of `bind` and `listen`
  socket_failed bind_failed listen_failed : Fault
  -- `std::filesystem::resize_file` throws
  aof_resize_failed : Fault
  -- "Error opening AOF file after reset"
  aof_reopen_failed : Fault
  -- a read, a write or a `delete` through a pointer to no live object (undefined in C++)
  dangling_pointer : Fault
  -- not of the program: a loop of the model has used up its fuel
  out_of_fuel : Fault

pub data Result {ℓ} (A : Type ℓ) : Type ℓ where
  ok : A → Result A
  fault : Fault → Result A

infixl 5 ◌>>=◌
abbrev pub ◌>>=◌ {ℓ κ} : {A : Type ℓ} {B : Type κ} → Result A → (A → Result B) → Result B
ok a >>= f = f a
fault e >>= f = fault e

pub ok-injective {ℓ} : {A : Type ℓ} {a b : A} → ok a ≡ ok b → a ≡ b
ok-injective e = cc
