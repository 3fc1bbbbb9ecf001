-- ===== src/Persistence.antt =====
-- src/Storage/Persistence.h and Persistence.cpp: the append-only log (AOF), the snapshot (RDB) and
-- the recovery at startup. A file is its contents, or `none` where it does not exist. What the
-- operating system answers to an attempt to open or resize a file is an argument of each method.
-- `std::endl` flushes after each line, so the written text is in the file at once.
pub mod Records
pub mod Log
pub mod Recovery
pub mod Durable
pub mod Snapshot
pub mod Lifecycle
pub mod Races
pub mod Workers
pub mod Reload
use kv_database.Prelude.{
  ℕ, Bool, true, false, Option, none, some, List, [], ◌∷◌, ◌++◌, Bytes, ◌===◌, if◌then◌else◌,
  insert_word, newline, space,
}
use kv_database.Result.{
  Result, ok, fault, aof_open_failed, rdb_open_failed, snapshot_open_failed, aof_resize_failed,
  aof_reopen_failed, ◌>>=◌,
}
use kv_database.HashMap.{HashMap, insert, remove, for_each}
use kv_database.Stream.{read_word, lines}

-- The object and the two files that it names.
pub record Persistence : Type 0 where
  -- whether `aof_stream` is open
  pub aof_stream : Bool
  -- "appendonly.log"
  pub aof : Option Bytes
  -- "snapshot.log"
  pub rdb : Option Bytes

-- Opening a file in append mode creates it.
abbrev pub opened : Option Bytes → Bytes
opened none = []
opened (some text) = text

-- The constructor, over the files that it finds.
unfoldable pub construct : Bool → Option Bytes → Option Bytes → Result Persistence
construct opens aof rdb =
    if opens
    then ok (record { aof_stream = true; aof = some (opened aof); rdb = rdb })
    else fault aof_open_failed

-- The destructor closes the stream.
unfoldable pub destruct : Persistence → Persistence
destruct p = record p { aof_stream = false }

-- One round of the loop over the snapshot: the command word is read and not looked at.
unfoldable pub load_rdb_line : Bytes → HashMap → Result HashMap
load_rdb_line line hashmap =
    let (command, iss) = read_word line in
    let (key, iss') = read_word iss in
    let (value, iss'') = read_word iss' in insert hashmap key value

unfoldable pub load_rdb_lines : List Bytes → HashMap → Result HashMap
unfolding load_rdb_line
load_rdb_lines [] hashmap = ok hashmap
load_rdb_lines (line ∷ rest) hashmap = load_rdb_line line hashmap >>= load_rdb_lines rest

-- One round of the loop over the log: every command but INSERT removes.
unfoldable pub load_aof_line : Bytes → HashMap → Result HashMap
load_aof_line line hashmap =
    let (command, iss) = read_word line in
    let (key, iss') = read_word iss in
    let (value, iss'') = read_word iss' in
    if command === insert_word then insert hashmap key value else remove hashmap key

unfoldable pub load_aof_lines : List Bytes → HashMap → Result HashMap
unfolding load_aof_line
load_aof_lines [] hashmap = ok hashmap
load_aof_lines (line ∷ rest) hashmap = load_aof_line line hashmap >>= load_aof_lines rest

unfoldable pub load_rdb : Bool → Option Bytes → HashMap → Result HashMap
unfolding load_rdb_lines
load_rdb opens none hashmap = ok hashmap
load_rdb opens (some text) hashmap =
    if opens then load_rdb_lines (lines text) hashmap else fault rdb_open_failed

unfoldable pub load_aof : Bool → Option Bytes → HashMap → Result HashMap
unfolding load_aof_lines
load_aof opens none hashmap = ok hashmap
load_aof opens (some text) hashmap =
    if opens then load_aof_lines (lines text) hashmap else fault aof_open_failed

-- `loadDataOnStartup`: the snapshot first, then the log.
unfoldable pub load_data_on_startup : Bool → Bool → Persistence → HashMap → Result HashMap
unfolding load_rdb load_aof
load_data_on_startup rdb_opens aof_opens p hashmap = do
  restored ← load_rdb rdb_opens p.rdb hashmap
  load_aof aof_opens p.aof restored

-- `command + " " + key + " " + value` and the end of the line.
unfoldable pub log_line : Bytes → Bytes → Bytes → Bytes
log_line command key value = command ++ space ∷ key ++ space ∷ value ++ newline ∷ []

-- Text that is added at the end of an open file.
abbrev pub append_text : Option Bytes → Bytes → Option Bytes
append_text none line = none
append_text (some text) line = some (text ++ line)

-- A stream that is not open writes nothing.
unfoldable pub append_to_log : Bytes → Bytes → Bytes → Persistence → Persistence
unfolding log_line
append_to_log command key value p =
    if p.aof_stream then record p { aof = append_text p.aof (log_line command key value) } else p

-- Opening the snapshot for writing empties it, or creates it.
unfoldable pub truncate_rdb : Persistence → Persistence
truncate_rdb p = record p { rdb = some [] }

-- The callback that `createSnapshot` hands to `forEach`: each entry is written and flushed.
unfoldable pub write_entry : Bytes → Bytes → Persistence → Persistence
unfolding log_line
write_entry key value p = record p { rdb = append_text p.rdb (log_line insert_word key value) }

-- The first part of `createSnapshot`: the file is truncated and written.
unfoldable pub write_rdb : Bool → HashMap → Persistence → Result (Unit {0}) × Persistence
unfolding truncate_rdb write_entry
write_rdb opens hashmap p =
    if opens
    then (ok tt, for_each write_entry hashmap (truncate_rdb p))
    else (fault snapshot_open_failed, p)

-- `std::filesystem::resize_file` throws where there is no file.
abbrev pub resized : Bool → Option Bytes → Option Bytes
resized true (some text) = some []
resized true none = none
resized false text = none

-- The second part, under `aof_mutex`: the log is closed, emptied and opened again.
unfoldable pub reset_aof : Bool → Bool → Persistence → Result (Unit {0}) × Persistence
reset_aof resizes reopens p = elim (resized resizes p.aof) [
  | none ↦ (fault aof_resize_failed, record p { aof_stream = false })
  | some text ↦
      if reopens
      then (ok tt, record p { aof_stream = true; aof = some text })
      else (fault aof_reopen_failed, record p { aof_stream = false; aof = some text })
]

-- An exception of the first part leaves the second out.
abbrev pub and_then :
    Result (Unit {0}) × Persistence
    → (Persistence → Result (Unit {0}) × Persistence)
    → Result (Unit {0}) × Persistence
and_then (ok done, p) next = next p
and_then (fault e, p) next = (fault e, p)

unfoldable pub create_snapshot :
    Bool → Bool → Bool → HashMap → Persistence → Result (Unit {0}) × Persistence
create_snapshot rdb_opens resizes reopens hashmap p =
    and_then (write_rdb rdb_opens hashmap p) (reset_aof resizes reopens)
