-- ===== src/Persistence/Lifecycle.antt =====
-- The life of the database: start, writes, snapshots and restarts in any order.
-- A snapshot that throws ends the process (the exception leaves the scheduler's thread), so only a
-- restart follows it.
use kv_database.Prelude.{
  ◌≡◌, refl, ap, sym, ◌∙◌, inr, Bool, true, List, [], ◌∷◌, ◌++◌, arith, Bytes, insert_word,
  delete_word, none, some,
}
use kv_database.Result.{ok, ◌>>=◌, ok-injective}
use kv_database.HashMap.{HashMap, new, default_capacity, insert, remove}
use kv_database.HashMap.Map.{
  Map, IsValid, insert-Writes, remove-Writes, new-IsValid, view, view-new,
}
use kv_database.Stream.Words.{IsToken, IsWord}
use kv_database.Persistence.{
  Persistence, construct, opened, append_to_log, create_snapshot, load_data_on_startup, write_rdb,
}
use kv_database.Persistence.Records.{Record, put, del, replay, replay-append, apply, replay_congr}
use kv_database.Persistence.Log.{Loads, log_text}
use kv_database.Persistence.Recovery.{puts, no_keys}
use kv_database.Persistence.Durable.{
  Restores, IsRestorable, IsDurable, restart-Loads, insert-IsDurable, remove-IsDurable,
}
use kv_database.Persistence.Snapshot.{
  same_files, write_rdb-IsRestorable, create_snapshot-IsRestorable, create_snapshot-IsDurable,
}

pub record Database : Type 0 where
  pub hash_map : HashMap
  pub pers : Persistence

-- What the files may hold when the process has ended.
pub data Stopped (a : Database) (files : Persistence) : Type 0 where
  at_rest : files ≡ a.pers → Stopped a files
  -- `createSnapshot` returned or threw
  after_snapshot :
      (rdb_opens resizes reopens : Bool)
      → files ≡ (create_snapshot rdb_opens resizes reopens a.hash_map a.pers).1
      → Stopped a files
  -- the process was killed when `createSnapshot` had written the snapshot and not reset the log
  within_snapshot : files ≡ (write_rdb true a.hash_map a.pers).1 → Stopped a files

-- One event in the life of the database.
pub data Step (a b : Database) : Type 0 where
  -- `hashMap.insert` and `pers.appendToLog` of an INSERT
  inserts :
      (k v : Bytes)
      → IsWord k
      → IsWord v
      → insert a.hash_map k v ≡ ok b.hash_map
      → b.pers ≡ append_to_log insert_word k v a.pers
      → Step a b
  -- `hashMap.remove` and `pers.appendToLog` of a DELETE
  removes :
      (k : Bytes)
      → IsToken k
      → remove a.hash_map k ≡ ok b.hash_map
      → b.pers ≡ append_to_log delete_word k [] a.pers
      → Step a b
  -- a snapshot that succeeds
  snapshots :
      b.hash_map ≡ a.hash_map
      → create_snapshot true true true a.hash_map a.pers ≡ (ok tt, b.pers)
      → Step a b
  -- a stop, perhaps in the middle of a snapshot, and a new start
  restarts :
      (files : Persistence)
      → Stopped a files
      → construct true files.aof files.rdb ≡ ok b.pers
      → load_data_on_startup true true b.pers (new default_capacity) ≡ ok b.hash_map
      → Step a b

pub data Reach (a : Database) : Database → Type 0 where
  here : Reach a a
  next : {b c : Database} → Reach a b → Step b c → Reach a c

-- The first start, with no files.
abbrev pub IsFirst : Database → Type 0
IsFirst a = (a.hash_map ≡ new default_capacity) × (construct true none none ≡ ok a.pers)

abbrev pub IsKept : Database → Type 0
IsKept a = IsDurable a.hash_map a.pers

pub Stopped-IsRestorable :
    {a : Database} {files : Persistence}
    → IsKept a
    → Stopped a files
    → IsRestorable a.hash_map files
Stopped-IsRestorable d (at_rest e) = rw e d.restorable
Stopped-IsRestorable {a} d (after_snapshot x y z e) =
    rw e (create_snapshot-IsRestorable a.hash_map a.pers d x y z)
Stopped-IsRestorable {a} d (within_snapshot e) =
    rw e (write_rdb-IsRestorable a.hash_map a.pers d true)

pub constructed :
    {f : Map} (files p : Persistence)
    → Restores f files
    → construct true files.aof files.rdb ≡ ok p
    → (p.aof_stream ≡ true) × Restores f p
unfolding construct
constructed files p r run =
    let same_aof : p.aof ≡ files.aof = ground (arith, r.files.aof_text) in
    (ground arith, same_files files p (ground arith) same_aof r)

module _ {a b : Database} (d : IsKept a) where
  snapshots-IsKept :
      b.hash_map ≡ a.hash_map
      → create_snapshot true true true a.hash_map a.pers ≡ (ok tt, b.pers)
      → IsKept b
  snapshots-IsKept same run =
      let (p', run', kept, empty) = create_snapshot-IsDurable a.hash_map a.pers d in
      let e : b.pers ≡ p' = cc in rw (same, e) kept

  module _ (files : Persistence) (stopped : Stopped a files)
      (opens : construct true files.aof files.rdb ≡ ok b.pers)
      (loads : load_data_on_startup true true b.pers (new default_capacity) ≡ ok b.hash_map) where
    pub restarts-restores :
        IsValid b.hash_map × ((q : Bytes) → view b.hash_map q ≡ view a.hash_map q)
    restarts-restores =
        let (stream, r) = constructed files b.pers (Stopped-IsRestorable d stopped) opens in
        let l = restart-Loads (view a.hash_map) b.pers r in
        let e : l.after ≡ b.hash_map = cc (l.returns) in (rw e at l.valid, rw e at l.reads)

    pub restarts-IsKept : IsKept b
    restarts-IsKept =
        let (stream, r) = constructed files b.pers (Stopped-IsRestorable d stopped) opens in
        let (valid, reads) = restarts-restores in
        record {
          valid = valid;
          words = λ q v e. d.words q v (sym (reads q) ∙ e);
          stream_open = stream;
          restorable = record {
            saved = r.saved;
            logged = r.logged;
            files = r.files;
            reads = λ q. reads q ∙ r.reads q;
          };
        }

Step-IsKept : {a b : Database} → Step a b → IsKept a → IsKept b
Step-IsKept {a} {b} (inserts k v hk hv run e) d =
    rw e (insert-IsDurable a.hash_map b.hash_map a.pers k v hk hv d run)
Step-IsKept {a} {b} (removes k hk run e) d =
    rw e (remove-IsDurable a.hash_map b.hash_map a.pers k hk d run)
Step-IsKept (snapshots same run) d = snapshots-IsKept d same run
Step-IsKept (restarts files left opens loads) d = restarts-IsKept d files left opens loads

pub first-IsKept : (a : Database) → IsFirst a → IsKept a
unfolding construct puts replay log_text
first-IsKept a (made, opens) = record {
  valid = rw made (new-IsValid default_capacity (omega arith));
  words = λ q v e. absurd (ground (arith, e, made, view-new default_capacity q));
  stream_open = ground arith;
  restorable = record {
    saved = [];
    logged = [];
    files = record {
      rdb_text = inr (ground arith, refl);
      aof_text = ground arith;
      saved_printable = tt;
      logged_printable = tt;
    };
    reads = λ q. rw made (view-new default_capacity q);
  };
}

-- Whatever sequence of inserts, deletes, snapshots and restarts has followed a start without
-- files, the database is durable: the map is valid and holds words, the log is open, and the files
-- restore the map.
pub Reach-IsDurable : {a b : Database} → IsFirst a → Reach a b → IsDurable b.hash_map b.pers
Reach-IsDurable {a} first here = first-IsKept a first
Reach-IsDurable first (next r st) = Step-IsKept st (Reach-IsDurable first r)

-- The write that an event makes, if any.
abbrev pub step_writes : {a b : Database} → Step a b → List Record
step_writes (inserts k v hk hv run e) = put k v ∷ []
step_writes (removes k hk run e) = del k ∷ []
step_writes (snapshots same run) = []
step_writes (restarts files stopped opens loads) = []

-- The writes of a life, from the first to the last.
abbrev pub writes : {a b : Database} → Reach a b → List Record
writes here = []
writes (next r st) = writes r ++ step_writes st

Step-reads :
    {a b : Database} (st : Step a b)
    → IsKept a
    → (q : Bytes) → view b.hash_map q ≡ replay (step_writes st) (view a.hash_map) q
unfolding replay apply
Step-reads {a} (inserts k v hk hv run e) d q =
    let w = insert-Writes a.hash_map k v d.valid in
    ap (λ (m : HashMap). view m q) (ok-injective (sym run ∙ w.returns)) ∙ w.reads q
Step-reads {a} (removes k hk run e) d q =
    let w = remove-Writes a.hash_map k d.valid in
    ap (λ (m : HashMap). view m q) (ok-injective (sym run ∙ w.returns)) ∙ w.reads q
Step-reads (snapshots same run) d q = rw same
Step-reads (restarts files stopped opens loads) d q =
    (restarts-restores d files stopped opens loads).1 q

-- The map is what the writes since the first start make of an empty one, whatever snapshots, stops and
-- restarts lay between them.
pub Reach-reads :
    {a b : Database}
    → IsFirst a
    → (r : Reach a b) → (q : Bytes) → view b.hash_map q ≡ replay (writes r) no_keys q
unfolding replay
Reach-reads first here q = rw first.0 (view-new default_capacity q)
Reach-reads first (next r st) q =
    Step-reads st (Reach-IsDurable first r) q
    ∙ replay_congr (step_writes st) _ _ (Reach-reads first r) q
    ∙ ap (λ (f : Map). f q) (sym (replay-append (writes r) (step_writes st) no_keys))

-- After any sequence of inserts and deletes of words (a deleted key may be empty), snapshots and
-- restarts from the first start, and a stop that may be after a failed snapshot or between the two
-- parts of one, a start whose files open returns, and its map is valid and is what the writes make
-- of an empty map.
pub recovery :
    {a b : Database} {files : Persistence}
    → IsFirst a
    → (r : Reach a b) → Stopped b files
    → Loads (replay (writes r) no_keys) (
        construct true files.aof files.rdb >>= λ p.
        load_data_on_startup true true p (new default_capacity))
recovery {a} {b} {files} first r stopped =
    let d = Reach-IsDurable first r in
    let old = Stopped-IsRestorable d stopped in
    let p : Persistence = record {
      aof_stream = true;
      aof = some (opened files.aof);
      rdb = files.rdb;
    } in
    let (stream, kept) = constructed files p old (unfold construct in refl) in
    let l = restart-Loads (view b.hash_map) p kept in
    record {
      after = l.after;
      returns = unfold construct in l.returns;
      valid = l.valid;
      reads = λ q. l.reads q ∙ Reach-reads first r q;
    }
