-- ===== src/HashMap/Memory/Get.antt =====
-- src/RAM/HashMap.cpp, `get` on a chain in memory.
use kv_database.Prelude.{ℕ, zero, suc, ◌<◌, ◌≡◌, refl, Option, List, [], ◌∷◌, arith, Bytes, length}
use kv_database.Result.{ok}
use kv_database.HashMap.{Chain, get_chain}
use kv_database.HashMap.Memory.{Memory, get_loop}
use kv_database.HashMap.Memory.Owned.{Owns}

-- `get` on a chain in memory reads what `get_chain` reads.
pub get_loop-get_chain :
    (fuel : ℕ) (k : Bytes) (h : Memory) (p : Option ℕ) (xs : List ℕ) (c : Chain)
    → length c < fuel
    → Owns h p xs c
    → get_loop fuel k h p ≡ ok (get_chain k c)
unfolding get_loop get_chain
get_loop-get_chain zero k h p xs c enough owns = absurd (omega arith)
get_loop-get_chain (suc fuel) k h p [] [] enough owns = rw owns refl
get_loop-get_chain (suc fuel) k h p [] (n ∷ c) enough owns = absurd owns
get_loop-get_chain (suc fuel) k h p (a ∷ xs) [] enough owns = absurd owns
get_loop-get_chain (suc fuel) k h p (a ∷ xs) (n ∷ c) enough (at, (next, here, rest)) =
    ground (arith, at, here, get_loop-get_chain fuel k h next xs c (omega arith) rest)
