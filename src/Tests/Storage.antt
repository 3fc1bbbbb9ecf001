-- ===== src/Tests/Storage.antt =====
-- The files on the sample data.
use kv_database.Prelude.{
  arith, false, ◌===◌, ===_iff, ◌≢◌, ◌≡◌, refl, inr, true, false, [], ◌∷◌, some,
}
use kv_database.Result.{◌>>=◌, ok}
use kv_database.HashMap
use kv_database.HashMap.{new, default_capacity}
use kv_database.HashMap.Map.{Writes, view, insert-Writes, update}
use kv_database.Stream.{lines}
use kv_database.Persistence.{
  Persistence, construct, load_data_on_startup, load_aof_lines, write_rdb, create_snapshot,
  truncate_rdb, append_to_log,
}
use kv_database.Persistence.Records.{put, del, replay}
use kv_database.Persistence.Log.{Loads, log_text, record_text, load_aof_lines-Loads}
use kv_database.Persistence.Recovery.{no_keys, Files, puts}
use kv_database.Persistence.Durable.{IsRestorable}
use kv_database.Persistence.Snapshot.{create_snapshot-IsRestorable}
use kv_database.Persistence.Lifecycle.{within_snapshot, writes, recovery, Reach-IsDurable}
use kv_database.HashMap.Contents.{contents}
use kv_database.Persistence.Reload.{Reloads, snapshot-Reloads}
use kv_database.Persistence.Races.{
  insert_within_snapshot, insert_within_snapshot-lost, crossed_log, crossed_inserts-differ,
  truncate_rdb-loses,
}
use kv_database.Tests.Samples.{
  name_key, city_key, ada, bob, name-IsWord, ada-IsWord, bob-IsWord, first_map, first_files,
  first-IsFirst, first-IsDurable, first_map-IsValid, named, second, life,
}

-- The files of a process that is killed in the middle of a snapshot.
abbrev cut_off : Persistence
cut_off = (write_rdb true second.hash_map second.pers).1

recovery_example : Loads (replay (writes life) no_keys) (
    construct true cut_off.aof cut_off.rdb >>= λ p.
    load_data_on_startup true true p (new default_capacity))
recovery_example = recovery first-IsFirst life (within_snapshot refl)

load_aof_lines-Loads_example :
    Loads
      (replay (put name_key ada ∷ del name_key ∷ []) (view first_map))
      (load_aof_lines (lines (log_text (put name_key ada ∷ del name_key ∷ []))) first_map)
load_aof_lines-Loads_example =
    load_aof_lines-Loads (put name_key ada ∷ del name_key ∷ []) first_map
      ((name-IsWord, ada-IsWord), (name-IsWord.token, tt)) first_map-IsValid

create_snapshot-IsRestorable_example :
    IsRestorable second.hash_map (create_snapshot true true false second.hash_map second.pers).1
create_snapshot-IsRestorable_example =
    create_snapshot-IsRestorable second.hash_map second.pers (Reach-IsDurable first-IsFirst life)
      true true false

snapshot-Reloads_example :
    Reloads 1 second.pers (contents second.hash_map (Reach-IsDurable first-IsFirst life).valid)
    × ((p' : Persistence) × (create_snapshot true true true second.hash_map second.pers
          ≡ (ok tt, p'))
        × (p'.aof ≡ some [])
        × Reloads 7 p' (contents second.hash_map (Reach-IsDurable first-IsFirst life).valid))
snapshot-Reloads_example =
    snapshot-Reloads second.hash_map second.pers 1 7 (Reach-IsDurable first-IsFirst life)
      (omega arith) (omega arith)

insert_within_snapshot-lost_example : Loads (view second.hash_map) (
    load_data_on_startup true true
      (insert_within_snapshot second.hash_map second.pers city_key bob)
      (new default_capacity))
insert_within_snapshot-lost_example =
    insert_within_snapshot-lost second.hash_map second.pers city_key bob
      (Reach-IsDurable first-IsFirst life)

-- `INSERT name Bob` over the sample entry.
abbrev renamed : Writes named.after name_key (some bob) (HashMap.insert named.after name_key bob)
renamed = insert-Writes named.after name_key bob named.valid

crossed_inserts-differ_example :
    (view renamed.after name_key ≡ some bob)
    × Loads (update (view first_map) name_key (some ada)) (
        load_data_on_startup true true
          (crossed_log first_files name_key ada bob)
          (new default_capacity))
crossed_inserts-differ_example =
    crossed_inserts-differ first_map named.after renamed.after first_files name_key ada bob
      first-IsDurable name-IsWord ada-IsWord bob-IsWord named.returns renamed.returns

-- A log with one record, and no snapshot.
second-Files : Files second.pers [] (put name_key ada ∷ [])
unfolding append_to_log log_text record_text puts
second-Files = record {
  rdb_text = inr (refl, refl);
  aof_text = refl;
  saved_printable = tt;
  logged_printable = ((name-IsWord, ada-IsWord), tt);
}

truncate_rdb-loses_example :
    Loads
      (replay (put name_key ada ∷ []) no_keys)
      (load_data_on_startup true true (truncate_rdb second.pers) (new default_capacity))
truncate_rdb-loses_example = truncate_rdb-loses second.pers [] (put name_key ada ∷ []) second-Files

-- Two workers write the map, and the second is the first to write its line.
abbrev pub two_named :
    Writes named.after city_key (some bob) (HashMap.insert named.after city_key bob)
two_named = insert-Writes named.after city_key bob named.valid

pub names_differ : name_key ≢ city_key
unfolding ◌===◌
names_differ e = let same : false ≡ true = (===_iff name_key city_key).1 e in absurd (cc same)
