-- ===== src/Tests/Interleaving.antt =====
-- Two workers in each other's critical sections.
use kv_database.Prelude.{refl, true, [], ◌∷◌, ◌++◌, codes, newline, ◌===◌}
use kv_database.Stream.{read_word}
use kv_database.HashMap.{new, default_capacity}
use kv_database.HashMap.Map.{view}
use kv_database.Persistence.{load_data_on_startup}
use kv_database.Persistence.Records.{Record, put}
use kv_database.Persistence.Workers.{write_map, write_line}
use kv_database.Server.Writes.{message_writes}
use kv_database.Server.Interleaved.{
  idle, parsed, in_map, in_log, Jobs, Step, parses, stores, logs, answers, Reach, here, next,
  resting,
}
use kv_database.Server.Interleaved.Crash.{Survives, Reach-Survives}
use kv_database.Tests.Samples.{
  name_key, city_key, ada, bob, first_map, first_files, first-IsDurable, named,
}
use kv_database.Tests.Storage.{names_differ, two_named}

abbrev name_write : Record
name_write = put name_key ada

abbrev city_write : Record
city_write = put city_key bob

abbrev at_rest : Jobs
at_rest = record {
  shared = record { hash_map = first_map; pers = first_files; pending = [] };
  phases = idle ∷ idle ∷ [];
  written = [];
  journal = [];
  answered = [];
  replies = [];
}

abbrev name_parsed : Jobs
name_parsed = record at_rest { phases = parsed name_write ∷ idle ∷ [] }

abbrev name_stored : Jobs
name_stored = record at_rest {
  shared = record { hash_map = named.after; pers = first_files; pending = name_write ∷ [] };
  phases = in_map name_write ∷ idle ∷ [];
  written = name_write ∷ [];
}

abbrev city_parsed : Jobs
city_parsed = record name_stored { phases = in_map name_write ∷ parsed city_write ∷ [] }

abbrev city_stored : Jobs
city_stored = record city_parsed {
  shared = record {
    hash_map = two_named.after;
    pers = first_files;
    pending = name_write ∷ city_write ∷ [];
  };
  phases = in_map name_write ∷ in_map city_write ∷ [];
  written = name_write ∷ city_write ∷ [];
}

abbrev city_logged : Jobs
city_logged = record city_stored {
  shared = record {
    hash_map = two_named.after;
    pers = write_line city_write first_files;
    pending = name_write ∷ [];
  };
  phases = in_map name_write ∷ in_log city_write ∷ [];
  journal = city_write ∷ [];
}

abbrev city_answered : Jobs
city_answered = record city_logged {
  phases = in_map name_write ∷ idle ∷ [];
  answered = city_write ∷ [];
}

-- The first worker has written the map, and the second has done all of its message.
crossing : Reach (resting 2 first_map first_files) city_answered
unfolding message_writes write_map ◌===◌ read_word resting
crossing =
    let s1 : Step at_rest name_parsed =
      parses 0 (codes "INSERT name Ada" ++ newline ∷ []) name_write refl refl refl in
    let s2 : Step name_parsed name_stored =
      stores 0 name_write named.after refl named.returns refl in
    let s3 : Step name_stored city_parsed =
      parses 1 (codes "INSERT city Bob" ++ newline ∷ []) city_write refl refl refl in
    let s4 : Step city_parsed city_stored =
      stores 1 city_write two_named.after refl two_named.returns refl in
    let s5 : Step city_stored city_logged =
      logs 1 city_write (name_write ∷ []) [] refl refl (names_differ, tt) refl in
    let s6 : Step city_logged city_answered = answers 1 city_write refl refl in
    next (next (next (next (next (next here s1) s2) s3) s4) s5) s6

Reach-Survives_example :
    Survives
      (view first_map)
      city_answered
      (load_data_on_startup true true city_answered.shared.pers (new default_capacity))
Reach-Survives_example = Reach-Survives 2 first_map first_files first-IsDurable crossing
