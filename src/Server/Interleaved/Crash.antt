-- ===== src/Server/Interleaved/Crash.antt =====
-- src/Server/Server.cpp, `messageHandler` on many workers: what a stop of the process at any moment
-- leaves, and what the clients were told.
use kv_database.Prelude.{◌≡◌, ◌∙◌, true, Bytes, All, ℕ}
use kv_database.Result.{Result, ok}
use kv_database.HashMap.{HashMap, new, default_capacity}
use kv_database.HashMap.Map.{Map, IsValid, view}
use kv_database.Persistence.{Persistence, load_data_on_startup}
use kv_database.Persistence.Records.{Record}
use kv_database.Persistence.Durable.{IsDurable, restart-Loads}
use kv_database.Server.Interleaved.{Jobs, Reach, resting}
use kv_database.Server.Interleaved.Keys.{KeyKept}
use kv_database.Server.Interleaved.Consistent.{In, Fits, Reach-IsConsistent}

-- A start over the files of `b` returned a valid map. It has at each key what the writes of the key in
-- the log and the first so many of those in the map alone make of `start`. The log has every write that
-- was answered, and every other response is right for the writes that the map had then.
pub record Survives (start : Map) (b : Jobs) (r : Result HashMap) : Type 0 where
  pub after : HashMap
  pub returns : r ≡ ok after
  pub valid : IsValid after
  pub kept : (q : Bytes) → KeyKept start (view after) q b.written b.journal b.shared.pending
  pub answered : All (λ (w : Record). In w b.journal) b.answered
  pub replies : All (Fits start b.written) b.replies

-- From a durable database, after any interleaving of the workers' parsing, map writes, log lines
-- and responses, with whole snapshots between them, in which the lines of each key keep the order
-- of its map writes, a start over the files returns a valid map; at each key it has what the
-- writes of the key in the log, in the order of the map, and the first so many of those in the map
-- alone make. The log has every answered write, and every response to a message without a write is
-- right for the writes that the map had then.
pub Reach-Survives :
    (size : ℕ) (m : HashMap) (p : Persistence) {b : Jobs}
    → IsDurable m p
    → Reach (resting size m p) b
    → Survives (view m) b (load_data_on_startup true true b.shared.pers (new default_capacity))
Reach-Survives size m p {b} d r =
    let (f, h) = Reach-IsConsistent size m p d r in
    let l = restart-Loads f b.shared.pers h.behind.files in
    record {
      after = l.after;
      returns = l.returns;
      valid = l.valid;
      kept = λ q.
          let k = h.kept q in
          record {
            order = k.order;
            early = k.early;
            late = k.late;
            cut = k.cut;
            reads = l.reads q ∙ k.reads;
          };
      answered = h.answered;
      replies = h.replies;
    }
