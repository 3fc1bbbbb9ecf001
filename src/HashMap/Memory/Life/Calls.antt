-- ===== src/HashMap/Memory/Life/Calls.antt =====
-- src/RAM/HashMap.cpp, the calls of a map in memory against those of kv_database.HashMap.
use kv_database.Prelude.{ℕ, ◌<◌, ◌≡◌, ◌∙◌, Bytes, none, length}
use kv_database.Result.{Result, ok}
use kv_database.HashMap.{HashMap, insert, remove, for_each}
use kv_database.HashMap.Chain.{or_empty}
use kv_database.HashMap.Map.{view, get-view}
use kv_database.HashMap.Entries.{entries}
use kv_database.HashMap.Memory.{Memory, HeadTable, insert_at, get_at, remove_at, for_each_at}
use kv_database.HashMap.Memory.Visit.{visit_table-for_each_table}
use kv_database.HashMap.Memory.Refinement.{
  insert_at-Refines, remove_at-Refines, get_at-get, entries-IsEnough,
}
use kv_database.HashMap.Memory.Life.{Life, inserts, removes, Life-IsAlive}

-- What one more call does in a state of the map.
pub record Simulates (size : ℕ) (start : Memory) (on_map : Result HashMap)
    (run : Result (Memory × HeadTable)) : Type 0 where
  pub after : Memory
  pub table : HeadTable
  pub map : HashMap
  pub returns : run ≡ ok (after, table)
  pub maps : on_map ≡ ok map
  pub life : Life size start after table map

-- In any state of a map of pointers and nodes, after its constructor and any inserts and removes
-- whose new nodes were at unused addresses, with more fuel than the map has nodes and one more
-- unused address, every method follows live pointers only and returns: get and forEach as those of
-- the map of lists that the same calls make, insert and remove in such a state again, of the map
-- that the same call of the lists returns.
pub Life-Simulates {ℓ} :
    {S : Type ℓ} (size : ℕ) (start h : Memory) (t : HeadTable) (m : HashMap) (fuel address : ℕ)
    (k v : Bytes) (callback : Bytes → Bytes → S → S) (s : S)
    → 0 < size
    → Life size start h t m
    → length (entries m.table) < fuel
    → h address ≡ none
    → (get_at fuel k h t ≡ ok (or_empty (view m k)))
      × (for_each_at callback fuel h t s ≡ ok (for_each callback m s))
      × Simulates size start (insert m k v) (insert_at fuel address k v h t)
      × Simulates size start (remove m k) (remove_at fuel k h t)
unfolding for_each_at for_each
Life-Simulates size start h t m fuel address k v callback s positive life fuelled unused =
    let enough = entries-IsEnough m fuel fuelled in
    let alive = Life-IsAlive size start h t m positive life in
    let inserted =
      insert_at-Refines h t m alive.owned alive.valid alive.represents fuel enough k address v
        unused in
    let removed = remove_at-Refines h t m alive.owned alive.valid alive.represents fuel enough k in
    (
      get_at-get h t m alive.owned alive.valid alive.represents fuel enough k
          ∙ get-view m k alive.valid,
      visit_table-for_each_table callback fuel h t.heads m.table alive.owned s
          alive.represents.stores.width enough alive.represents.stores.owns,
      record {
        after = inserted.after;
        table = inserted.table;
        map = inserted.map;
        returns = inserted.returns;
        maps = inserted.maps;
        life =
            inserts h t m fuel address k v _ _ _ life enough unused inserted.returns inserted.maps;
      },
      record {
        after = removed.after;
        table = removed.table;
        map = removed.map;
        returns = removed.returns;
        maps = removed.maps;
        life = removes h t m fuel k _ _ _ life enough removed.returns removed.maps;
      },
    )
