-- ===== src/Tests/Maps.antt =====
-- The map, its hash function and the protocol on the sample data.
use kv_database.Prelude.{
  ◌≡◌, arith, List, [], ◌∷◌, ◌++◌, Bytes, codes, none, some, if◌then◌else◌, ◌===◌, insert_word,
  space, newline,
}
use mathlib.Core.List.{foldl}
use kv_database.Result.{ok}
use kv_database.HashMap
use kv_database.HashMap.{Chain, HashMap, Node, new, hash_loop, for_each, for_each_chain}
use kv_database.HashMap.Chain.{find, IsDistinct}
use kv_database.HashMap.Map.{Writes, view, insert-Writes, remove-Writes}
use kv_database.HashMap.Entries.{for_each-view}
use kv_database.HashMap.Hash.{hash_loop-forgets}
use kv_database.Server.{Outcome, run_message, insert_response, delete_response, missing_response}
use kv_database.Server.Protocol.{
  insert_request, get_request, delete_request, get-insert, get-delete, insert_crosses_lines,
}
use kv_database.Server.Responses.{found_response, get_reply}
use kv_database.Tests.Samples.{
  name_key, city_key, ada, bob, name-IsWord, ada-IsWord, bob-IsWord, first_map, first_files,
  first_map-IsValid, named,
}

insert-Writes_example :
    Writes named.after city_key (some bob) (HashMap.insert named.after city_key bob)
insert-Writes_example = insert-Writes named.after city_key bob named.valid

remove-Writes_example : Writes named.after name_key none (HashMap.remove named.after name_key)
remove-Writes_example = remove-Writes named.after name_key named.valid

abbrev collect : Bytes → Bytes → List Bytes → List Bytes
collect k v seen = k ∷ seen

for_each-view_example :
    (visited : Chain) × IsDistinct visited
    × ((q : Bytes) → find q visited ≡ view named.after q)
    × (for_each collect named.after []
        ≡ foldl (λ (seen : List Bytes) n. collect n.key n.value seen) [] visited)
for_each-view_example = for_each-view collect named.after [] named.valid

abbrev long_key : Bytes
long_key = codes "configuration"

hash_loop-forgets_example : hash_loop 1 long_key ≡ hash_loop 2 long_key
hash_loop-forgets_example = hash_loop-forgets 1 2 long_key (omega arith)

get-insert_example :
    (done : Outcome) × (run_message (insert_request name_key ada []) first_map first_files
      ≡ ok done)
    × (done.response ≡ insert_response)
    × (run_message (get_request name_key []) done.hash_map done.pers
        ≡ ok (record done {
          response =
              if name_key === name_key
              then found_response ada
              else get_reply (view first_map name_key);
        }))
get-insert_example =
    get-insert first_map first_files name_key ada name_key [] [] first_map-IsValid name-IsWord
      ada-IsWord name-IsWord

get-delete_example :
    (done : Outcome) × (run_message (delete_request name_key []) named.after first_files ≡ ok done)
    × (done.response ≡ delete_response)
    × (run_message (get_request name_key []) done.hash_map done.pers
        ≡ ok (record done {
          response =
              if name_key === name_key
              then missing_response
              else get_reply (view named.after name_key);
        }))
get-delete_example =
    get-delete named.after first_files name_key name_key [] [] named.valid name-IsWord name-IsWord

insert_crosses_lines_example :
    run_message
      (insert_word ++ space ∷ (name_key ++ newline ∷ (bob ++ newline ∷ [])))
      first_map
      first_files
    ≡ run_message (insert_request name_key bob []) first_map first_files
insert_crosses_lines_example =
    insert_crosses_lines first_map first_files name_key bob [] name-IsWord bob-IsWord
