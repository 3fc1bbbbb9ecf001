-- ===== src/Persistence/Workers.antt =====
-- src/Server/Server.cpp, INSERT and DELETE on many workers: each writes the map and then its line
-- in the log, which are two critical sections, so that other workers come in between. A snapshot
-- is one step, as no line falls between its parts; kv_database.Persistence.Races has what happens
-- if one does.
pub mod Restart
use kv_database.Prelude.{
  ◌≡◌, ◌≢◌, refl, ap, sym, ◌∙◌, true, List, [], ◌∷◌, ◌++◌, arith, Bytes, All, All-append, All-at,
  All-without, insert_word, delete_word, some, ===_iff,
}
use kv_database.Result.{Result, ok}
use kv_database.HashMap.{HashMap, new, default_capacity, insert, remove}
use kv_database.HashMap.Map.{Map, IsValid, insert-Writes, remove-Writes, view}
use kv_database.Stream.Words.{IsWord}
use kv_database.Persistence.{Persistence, append_to_log, create_snapshot, load_data_on_startup}
use kv_database.Persistence.Records.{
  Record, put, del, IsPrintable, apply, replay, replay-append, replay_congr, apply_congr,
  replay_twice,
}
use kv_database.Persistence.Log.{record_text}
use kv_database.Persistence.Durable.{Restores, IsDurable, log-Restores, restart-Loads}
use kv_database.Persistence.Snapshot.{create_snapshot-Restores}

-- The write of the map.
unfoldable pub write_map : Record → HashMap → Result HashMap
write_map (put k v) m = insert m k v
write_map (del k) m = remove m k

-- The line in the log.
unfoldable pub write_line : Record → Persistence → Persistence
write_line (put k v) p = append_to_log insert_word k v p
write_line (del k) p = append_to_log delete_word k [] p

abbrev pub key_written : Record → Bytes
key_written (put k v) = k
key_written (del k) = k

-- `pending` are the writes that are in the map and not yet in the log, in the order of the map.
pub record Shared : Type 0 where
  pub hash_map : HashMap
  pub pers : Persistence
  pub pending : List Record

abbrev pub Spares : Bytes → Record → Type 0
Spares k r = key_written r ≢ k

pub data Step (a b : Shared) : Type 0 where
  writes :
      (r : Record)
      → IsPrintable r
      → write_map r a.hash_map ≡ ok b.hash_map
      → b.pers ≡ a.pers
      → b.pending ≡ a.pending ++ r ∷ []
      → Step a b
  -- writes of one key are logged in the order in which the map got them
  logs :
      (r : Record) (before after : List Record)
      → a.pending ≡ before ++ r ∷ after
      → All (Spares (key_written r)) before
      → b.hash_map ≡ a.hash_map
      → b.pers ≡ write_line r a.pers
      → b.pending ≡ before ++ after
      → Step a b
  snapshots :
      b.hash_map ≡ a.hash_map
      → create_snapshot true true true a.hash_map a.pers ≡ (ok tt, b.pers)
      → b.pending ≡ a.pending
      → Step a b

pub data Reach (a : Shared) : Shared → Type 0 where
  here : Reach a a
  next : {b c : Shared} → Reach a b → Step b c → Reach a c
