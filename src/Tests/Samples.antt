-- ===== src/Tests/Samples.antt =====
-- The data that the tests share: two words, a first database and one with an entry.
use kv_database.Prelude.{refl, arith, true, Bytes, codes, none, some, [], insert_word}
use kv_database.HashMap
use kv_database.HashMap.{HashMap, new, default_capacity}
use kv_database.HashMap.Map.{IsValid, new-IsValid, Writes, insert-Writes}
use kv_database.Stream.{is_space}
use kv_database.Stream.Words.{IsWord}
use kv_database.Persistence.{Persistence, construct, append_to_log}
use kv_database.Persistence.Durable.{IsDurable}
use kv_database.Persistence.Lifecycle.{
  Database, IsFirst, Reach, here, next, inserts, Reach-IsDurable,
}

abbrev pub name_key : Bytes
name_key = codes "name"

abbrev pub city_key : Bytes
city_key = codes "city"

abbrev pub ada : Bytes
ada = codes "Ada"

abbrev pub bob : Bytes
bob = codes "Bob"

pub name-IsWord : IsWord name_key
unfolding is_space
name-IsWord = record { nonempty = λ e. cc; token = ground arith }

pub city-IsWord : IsWord city_key
unfolding is_space
city-IsWord = record { nonempty = λ e. cc; token = ground arith }

pub ada-IsWord : IsWord ada
unfolding is_space
ada-IsWord = record { nonempty = λ e. cc; token = ground arith }

pub bob-IsWord : IsWord bob
unfolding is_space
bob-IsWord = record { nonempty = λ e. cc; token = ground arith }

abbrev pub first_map : HashMap
first_map = new default_capacity

abbrev pub first_files : Persistence
first_files = record { aof_stream = true; aof = some []; rdb = none }

abbrev pub first : Database
first = record { hash_map = first_map; pers = first_files }

pub first-IsFirst : IsFirst first
unfolding construct
first-IsFirst = (refl, refl)

pub first_map-IsValid : IsValid first_map
first_map-IsValid = new-IsValid default_capacity (omega arith)

pub first-IsDurable : IsDurable first_map first_files
first-IsDurable = Reach-IsDurable first-IsFirst here

-- `INSERT name Ada`.
abbrev pub named : Writes first_map name_key (some ada) (HashMap.insert first_map name_key ada)
named = insert-Writes first_map name_key ada first_map-IsValid

abbrev pub second : Database
second = record {
  hash_map = named.after;
  pers = append_to_log insert_word name_key ada first_files;
}

abbrev pub life : Reach first second
life = next here (inserts name_key ada name-IsWord ada-IsWord named.returns refl)
