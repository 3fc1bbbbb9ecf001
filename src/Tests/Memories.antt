-- ===== src/Tests/Memories.antt =====
-- A map in memory over the sample data.
use kv_database.Prelude.{
  ℕ, ◌≡◌, refl, arith, Bytes, [], ◌∷◌, Option, none, some, ◌==◌, if◌then◌else◌, ◌+◌, ◌===◌,
}
use kv_database.Result.{ok}
use kv_database.HashMap.{
  Chain, HashMap, Node, new, insert, remove, for_each, hash_function, hash_loop, hash_step,
  char_to_ull, insert_chain, update_node, remove_chain,
}
use kv_database.HashMap.Memory.{
  Memory, HeadTable, put, construct_at, insert_at, remove_at, get_at, for_each_at, insert_head,
  insert_loop, remove_loop, unlink, destroy,
}
use kv_database.HashMap.Memory.Life.{Life, constructs, inserts, removes}
use kv_database.HashMap.Memory.Life.End.{Restores, Life-Restores}
use kv_database.HashMap.Memory.Life.Calls.{Simulates, Life-Simulates}
use kv_database.HashMap.Chain.{or_empty}
use kv_database.HashMap.Map.{view}
use kv_database.HashMap.Entries.{entries}
use kv_database.HashMap.Memory.Refinement.{entries-IsEnough}
use kv_database.Tests.Samples.{name_key, city_key, ada, bob}

-- Another object of the program is live.
abbrev start : Memory
start j = if j == 7 then some (record { key = []; value = ada; next = none }) else none

abbrev one_node : Memory
one_node = put 0 (some (record { key = name_key; value = ada; next = none })) start

abbrev two_nodes : Memory
two_nodes = put 1 (some (record { key = city_key; value = bob; next = some 0 })) one_node

abbrev table_at : Option ℕ → HeadTable
table_at head = record { heads = head ∷ []; capacity = 1 }

abbrev map_of : Chain → HashMap
map_of chain = record { table = chain ∷ []; capacity = 1 }

abbrev name_node : Node
name_node = record { key = name_key; value = ada }

abbrev city_node : Node
city_node = record { key = city_key; value = bob }

abbrev first_table : HeadTable
first_table = table_at (some 0)

abbrev second_table : HeadTable
second_table = table_at (some 1)

-- The node behind the head is unlinked: the head keeps its address.
abbrev one_left : Memory
one_left = put 0 none (put 1 (some (record { key = city_key; value = bob; next = none })) two_nodes)

first_call : insert_at 4 0 name_key ada start (construct_at 1) ≡ ok (one_node, first_table)
unfolding insert_at hash_function hash_loop hash_step char_to_ull insert_head insert_loop
    construct_at
first_call = refl

second_call : insert_at 4 1 city_key bob one_node first_table ≡ ok (two_nodes, second_table)
unfolding insert_at hash_function hash_loop hash_step char_to_ull insert_head insert_loop ◌===◌
second_call = refl

third_call : remove_at 4 name_key two_nodes second_table ≡ ok (one_left, second_table)
unfolding remove_at hash_function hash_loop hash_step char_to_ull remove_loop unlink ◌===◌
third_call = refl

abbrev one : HashMap
one = map_of (name_node ∷ [])

abbrev two : HashMap
two = map_of (city_node ∷ name_node ∷ [])

abbrev left : HashMap
left = map_of (city_node ∷ [])

first_on_map : insert (new 1) name_key ada ≡ ok one
unfolding insert hash_function hash_loop hash_step char_to_ull insert_chain update_node new
first_on_map = refl

second_on_map : insert one city_key bob ≡ ok two
unfolding insert hash_function hash_loop hash_step char_to_ull insert_chain update_node ◌===◌
second_on_map = refl

third_on_map : remove two name_key ≡ ok left
unfolding remove hash_function hash_loop hash_step char_to_ull remove_chain ◌===◌
third_on_map = refl

life : Life 1 start one_left second_table left
unfolding new entries
life =
    removes two_nodes second_table two 4 name_key _ _ _
      (inserts one_node first_table one 4 1 city_key bob _ _ _
        (inserts start (construct_at 1) (new 1) 4 0 name_key ada _ _ _ constructs
          (entries-IsEnough (new 1) 4 (omega arith)) refl first_call first_on_map)
        (entries-IsEnough one 4 (omega arith)) refl second_call second_on_map)
      (entries-IsEnough two 4 (omega arith)) third_call third_on_map

Life-Restores_example : Restores start (destroy 4 one_left second_table)
unfolding entries
Life-Restores_example =
    Life-Restores 1 start one_left second_table left 4 (omega arith) life (omega arith)

abbrev count : Bytes → Bytes → ℕ → ℕ
count key value n = n + 1

-- The address of the freed node is used again.
Life-Simulates_example :
    (get_at 4 city_key one_left second_table ≡ ok (or_empty (view left city_key)))
    × (for_each_at count 4 one_left second_table 0 ≡ ok (for_each count left 0))
    × Simulates 1 start
        (insert left city_key ada)
        (insert_at 4 0 city_key ada one_left second_table)
    × Simulates 1 start (remove left city_key) (remove_at 4 city_key one_left second_table)
unfolding entries
Life-Simulates_example =
    Life-Simulates 1 start one_left second_table left 4 0 city_key ada count 0 (omega arith) life
      (omega arith) refl
