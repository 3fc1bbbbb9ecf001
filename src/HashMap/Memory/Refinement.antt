-- ===== src/HashMap/Memory/Refinement.antt =====
-- src/RAM/HashMap.cpp, the methods on the table in memory against the methods of
-- kv_database.HashMap.
use kv_database.Prelude.{
  ℕ, zero, suc, ◌≤◌, ◌∷◌, length-append, ◌<◌, ◌≡◌, refl, ap, sym, ◌∙◌, Option, none, List, [],
  Bytes, arith, length, length-replicate, get_or, set, replicate,
}
use kv_database.Result.{Result, ok, ◌>>=◌}
use kv_database.HashMap.{Chain, HashMap, new, insert_chain, insert, get, remove_chain, remove}
use kv_database.HashMap.Map.{home, home-lt, hash_function-home, IsValid, chain_of}
use kv_database.HashMap.Entries.{entries}
use kv_database.HashMap.Memory.{
  Memory, HeadTable, bucket_of, head_at, with_head, construct_at, insert_head, remove_loop,
  insert_at, get_at, remove_at,
}
use kv_database.HashMap.Memory.Owned.{Owns, Leaves, Changes}
use kv_database.HashMap.Memory.Buckets.{Stores, assign, Stores-set}
use kv_database.HashMap.Memory.Insert.{insert_head-Leaves}
use kv_database.HashMap.Memory.Get.{get_loop-get_chain}
use kv_database.HashMap.Memory.Remove.{remove_loop-Leaves}

-- The table in memory is the map `m`.
pub record Represents (h : Memory) (t : HeadTable) (m : HashMap) (owned : ℕ → List ℕ) : Type 0 where
  pub capacity : t.capacity ≡ m.capacity
  pub stores : Stores h t.heads m.table owned

-- More fuel than any chain is long.
abbrev pub IsEnough : ℕ → HashMap → Type 0
IsEnough fuel m = (i : ℕ) → length (get_or m.table i []) < fuel

-- No chain is longer than all chains together.
length-get_or :
    (chains : List Chain) (i : ℕ) → length (get_or chains i []) ≤ length (entries chains)
unfolding entries
length-get_or [] i = omega arith
length-get_or (c ∷ cs) zero = omega (arith, length-append c (entries cs))
length-get_or (c ∷ cs) (suc i) = omega (arith, length-append c (entries cs), length-get_or cs i)

pub entries-IsEnough : (m : HashMap) (fuel : ℕ) → length (entries m.table) < fuel → IsEnough fuel m
entries-IsEnough m fuel enough i = omega (arith, enough, length-get_or m.table i)

-- A method returns, as the method of the map does, and one chain has changed.
pub record Refines (h : Memory) (owned : ℕ → List ℕ) (i : ℕ) (on_map : Result HashMap)
    (run : Result (Memory × HeadTable)) : Type 0 where
  pub after : Memory
  pub table : HeadTable
  pub map : HashMap
  pub new : List ℕ
  pub returns : run ≡ ok (after, table)
  pub maps : on_map ≡ ok map
  pub represents : Represents after table map (assign owned i new)
  pub changes : Changes h after (owned i) new

Owns-empty :
    (h : Memory) (size i : ℕ)
    → Owns h (get_or (replicate size none) i none) [] (get_or (replicate size []) i [])
Owns-empty h zero i = refl
Owns-empty h (suc size) zero = refl
Owns-empty h (suc size) (suc i) = Owns-empty h size i

pub construct_at-Represents :
    (h : Memory) (size : ℕ) → Represents h (construct_at size) (new size) (λ _. [])
unfolding construct_at new
construct_at-Represents h size = record {
  capacity = refl;
  stores = record {
    width = length-replicate size none ∙ sym (length-replicate size []);
    owns = λ i. Owns-empty h size i;
    apart = λ i. tt;
    separate = λ i j a hi hj. absurd (ground (arith, hi));
  };
}

module _ (h : Memory) (t : HeadTable) (m : HashMap) (owned : ℕ → List ℕ) (valid : IsValid m)
    (represents : Represents h t m owned) (fuel : ℕ) (enough : IsEnough fuel m) (k : Bytes) where
  abbrev here : ℕ
  here = home m.capacity k

  bucket : bucket_of t k ≡ ok here
  bucket =
      hash_function-home (record { table = []; capacity = t.capacity }) k
        (omega (arith, valid.nonempty, represents.capacity))
      ∙ ap (λ (n : ℕ). ok (home n k)) represents.capacity

  inside : here < length m.table
  inside = omega (arith, home-lt m.capacity k valid.nonempty, valid.width)

  refined :
      (c : Chain) (loop : Result (Memory × Option ℕ)) (on_map : Result HashMap)
      (run : Result (Memory × HeadTable))
      → Leaves h (owned here) c loop
      → on_map ≡ ok (record m { table = set m.table here c })
      → run ≡ (do (h', head) ← loop; ok (h', with_head t here head))
      → Refines h owned here on_map run
  refined c loop on_map run leaves maps runs = record {
    after = leaves.after;
    table = with_head t here leaves.head;
    map = record m { table = set m.table here c };
    new = leaves.new;
    returns = runs ∙ rw leaves.returns refl;
    maps = maps;
    represents = record {
      capacity = represents.capacity;
      stores =
          Stores-set h t.heads m.table owned represents.stores here leaves.after leaves.head
            leaves.new c leaves.changes leaves.owns leaves.apart inside;
    };
    changes = leaves.changes;
  }

  pub insert_at-Refines :
      (address : ℕ) (v : Bytes)
      → h address ≡ none
      → Refines h owned here (insert m k v) (insert_at fuel address k v h t)
  unfolding insert_at insert
  insert_at-Refines address v unused =
      let loop = insert_head fuel address k v h (head_at t here) in
      let leaves : Leaves h (owned here) (insert_chain k v (chain_of m k)) loop =
        insert_head-Leaves fuel address k v h (head_at t here) (owned here) (chain_of m k)
          (enough here) unused (represents.stores.owns here) (represents.stores.apart here) in
      refined (insert_chain k v (chain_of m k)) loop _ _ leaves
        (rw (hash_function-home m k valid.nonempty) refl) (rw bucket refl)

  pub remove_at-Refines : Refines h owned here (remove m k) (remove_at fuel k h t)
  unfolding remove_at remove
  remove_at-Refines =
      let loop = remove_loop fuel k h (head_at t here) none (head_at t here) in
      let leaves : Leaves h (owned here) (remove_chain k (chain_of m k)) loop =
        remove_loop-Leaves fuel k h (head_at t here) (owned here) (chain_of m k) (enough here)
          (represents.stores.owns here) (represents.stores.apart here) in
      refined (remove_chain k (chain_of m k)) loop _ _ leaves
        (rw (hash_function-home m k valid.nonempty) refl) (rw bucket refl)

  pub get_at-get : get_at fuel k h t ≡ get m k
  unfolding get_at get
  get_at-get =
      rw (bucket, hash_function-home m k valid.nonempty)
        (get_loop-get_chain fuel k h (head_at t here) (owned here) (chain_of m k) (enough here)
          (represents.stores.owns here))
