-- ===== src/Server/Interleaved.antt =====
-- src/Server/Server.cpp, the command part of `messageHandler` on the workers of the pool, one critical
-- section at a time: a write of the map, its line in the log and its response are three steps, between
-- which other workers run. A message without a write is one step, as it reads the map once at most. A
-- snapshot is one step, as in kv_database.Persistence.Workers.
pub mod Keys
pub mod Consistent
pub mod Crash
use kv_database.Prelude.{
  ℕ, ◌≡◌, true, some, List, [], ◌∷◌, ◌++◌, Bytes, All, get_elem?, set, replicate,
}
use kv_database.Result.{ok}
use kv_database.HashMap.{HashMap}
use kv_database.Persistence.{Persistence, create_snapshot}
use kv_database.Persistence.Records.{Record}
use kv_database.Persistence.Workers.{write_map, write_line, key_written, Shared, Spares}
use kv_database.Server.{Outcome, run_message}
use kv_database.Server.Writes.{message_writes}

-- Where a worker is with the write of its message: it has parsed it, written the map, or written the log.
pub data Phase : Type 0 where
  idle : Phase
  parsed in_map in_log : Record → Phase

-- A response to a message without a write, and the writes that the map had got when it was made.
pub record Reply : Type 0 where
  pub message : Bytes
  pub response : Bytes
  pub seen : List Record

-- The database and the workers; then the writes of the map so far in their order, those of the log, the
-- writes whose clients were answered, and the other responses.
pub record Jobs : Type 0 where
  pub shared : Shared
  pub phases : List Phase
  pub written : List Record
  pub journal : List Record
  pub answered : List Record
  pub replies : List Reply

abbrev pub At : ℕ → Phase → Jobs → Type 0
At i t a = get_elem? a.phases i ≡ some t

pub data Step (a b : Jobs) : Type 0 where
  parses :
      (i : ℕ) (message : Bytes) (r : Record)
      → At i idle a
      → message_writes message ≡ r ∷ []
      → b ≡ record a { phases = set a.phases i (parsed r) }
      → Step a b
  stores :
      (i : ℕ) (r : Record) (m : HashMap)
      → At i (parsed r) a
      → write_map r a.shared.hash_map ≡ ok m
      → b ≡ record a {
        shared = record a.shared { hash_map = m; pending = a.shared.pending ++ r ∷ [] };
        phases = set a.phases i (in_map r);
        written = a.written ++ r ∷ [];
      }
      → Step a b
  -- the lines of one key come in the order in which the map got their writes
  logs :
      (i : ℕ) (r : Record) (before after : List Record)
      → At i (in_map r) a
      → a.shared.pending ≡ before ++ r ∷ after
      → All (Spares (key_written r)) before
      → b ≡ record a {
        shared = record a.shared { pers = write_line r a.shared.pers; pending = before ++ after };
        phases = set a.phases i (in_log r);
        journal = a.journal ++ r ∷ [];
      }
      → Step a b
  answers :
      (i : ℕ) (r : Record)
      → At i (in_log r) a
      → b ≡ record a { phases = set a.phases i idle; answered = a.answered ++ r ∷ [] }
      → Step a b
  reads :
      (i : ℕ) (message : Bytes) (done : Outcome)
      → At i idle a
      → message_writes message ≡ []
      → run_message message a.shared.hash_map a.shared.pers ≡ ok done
      → b ≡ record a {
        replies =
            a.replies
            ++ record { message = message; response = done.response; seen = a.written } ∷ [];
      }
      → Step a b
  snapshots :
      (p : Persistence)
      → create_snapshot true true true a.shared.hash_map a.shared.pers ≡ (ok tt, p)
      → b ≡ record a { shared = record a.shared { pers = p } }
      → Step a b

pub data Reach (a : Jobs) : Jobs → Type 0 where
  here : Reach a a
  next : {b c : Jobs} → Reach a b → Step b c → Reach a c

-- A start with this many workers over a database.
unfoldable pub resting : ℕ → HashMap → Persistence → Jobs
resting size m p = record {
  shared = record { hash_map = m; pers = p; pending = [] };
  phases = replicate size idle;
  written = [];
  journal = [];
  answered = [];
  replies = [];
}
