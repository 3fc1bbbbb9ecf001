-- ===== src/HashMap/Memory/Life/End.antt =====
-- src/RAM/HashMap.cpp, the destructor at the end of the life of a map.
use kv_database.Prelude.{ℕ, ◌<◌, ◌≡◌, sym, ◌∙◌, inl, inr, length}
use kv_database.Result.{Result, ok}
use kv_database.HashMap.{HashMap}
use kv_database.HashMap.Entries.{entries}
use kv_database.HashMap.Memory.{Memory, HeadTable, destroy}
use kv_database.HashMap.Memory.Buckets.{delete_table-Clears}
use kv_database.HashMap.Memory.Refinement.{entries-IsEnough}
use kv_database.HashMap.Memory.Life.{Life, Life-IsAlive}

-- The call returns, and the memory is what it was.
pub record Restores (start : Memory) (run : Result Memory) : Type 0 where
  pub after : Memory
  pub returns : run ≡ ok after
  pub as_before : (j : ℕ) → after j ≡ start j

-- In any state of a map of pointers and nodes, after its constructor and any inserts and removes
-- whose new nodes were at unused addresses, with more fuel than the map has nodes the destructor
-- deletes live nodes only and returns, and every address of the memory is as it was before the
-- constructor: no node is lost, and no other object is touched.
pub Life-Restores :
    (size : ℕ) (start h : Memory) (t : HeadTable) (m : HashMap) (fuel : ℕ)
    → 0 < size
    → Life size start h t m
    → length (entries m.table) < fuel
    → Restores start (destroy fuel h t)
unfolding destroy
Life-Restores size start h t m fuel positive life enough =
    let alive = Life-IsAlive size start h t m positive life in
    let clears =
      delete_table-Clears fuel h t.heads m.table alive.owned (entries-IsEnough m fuel enough)
        alive.represents.stores in
    record {
      after = clears.after;
      returns = clears.returns;
      as_before = λ j. elim (alive.kept j) [
        | inl (outside, same) ↦ clears.frame j outside ∙ same
        | inr (i, inside, unused) ↦ clears.freed i j inside ∙ sym unused
      ];
    }
