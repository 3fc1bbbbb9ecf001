-- ===== src/Persistence/Races.antt =====
-- Interleavings of src/Server/Server.cpp and src/Storage/Persistence.cpp that the locks allow: a
-- write of the map and its line in the log are two critical sections, and so are the two parts of
-- `createSnapshot`. Each theorem runs the operations of two threads in one such order.
use kv_database.Prelude.{
  ◌≡◌, refl, ap, sym, ◌∙◌, inl, true, List, [], arith, Bytes, insert_word, some, ===_refl,
}
use kv_database.Result.{Result, ok, ok-injective}
use kv_database.HashMap.{Chain, HashMap, new, default_capacity, insert}
use kv_database.HashMap.Map.{insert-Writes, new-IsValid, view-new, view, update}
use kv_database.Stream.Words.{IsWord}
use kv_database.Persistence.{
  Persistence, append_text, append_to_log, write_rdb, reset_aof, truncate_rdb, load_data_on_startup,
}
use kv_database.Persistence.Records.{Record, replay, replay_congr}
use kv_database.Persistence.Log.{Loads, Loads-congr, log_text}
use kv_database.Persistence.Recovery.{
  puts, no_keys, Files, snapshotted, write_rdb-snapshotted, load-Loads,
}
use kv_database.Persistence.Durable.{IsDurable, restart-Loads, insert-IsDurable}
use kv_database.Persistence.Snapshot.{emptied, emptied-IsRestorable}

-- The scheduler writes the snapshot; then a worker inserts `k`, logs it and answers the client; then
-- the scheduler resets the log.
abbrev pub insert_within_snapshot : HashMap → Persistence → Bytes → Bytes → Persistence
insert_within_snapshot m p k v =
    (reset_aof true true (append_to_log insert_word k v (write_rdb true m p).1)).1

reset-append :
    (m : HashMap) (p : Persistence) (line : Bytes) (d : IsDurable m p)
    → p.aof_stream ≡ true
    → (reset_aof true true (record (snapshotted m p) { aof = append_text p.aof line })).1
      ≡ emptied m p d true
unfolding reset_aof emptied
reset-append m p line d e = rw d.restorable.files.aof_text

insert_within_snapshot-emptied :
    (m : HashMap) (p : Persistence) (k v : Bytes) (d : IsDurable m p)
    → insert_within_snapshot m p k v ≡ emptied m p d true
unfolding append_to_log emptied reset_aof
insert_within_snapshot-emptied m p k v d =
    ap
      (λ (r : Result (Unit {0}) × Persistence).
        (reset_aof true true (append_to_log insert_word k v r.1)).1)
      (write_rdb-snapshotted m p)
    ∙ rw d.stream_open (reset-append m p _ d d.stream_open)

-- If an insert is logged between the two parts of a snapshot of a durable database, a restart
-- brings back the map without the insert.
pub insert_within_snapshot-lost :
    (m : HashMap) (p : Persistence) (k v : Bytes)
    → IsDurable m p
    → Loads
        (view m)
        (load_data_on_startup true true (insert_within_snapshot m p k v) (new default_capacity))
insert_within_snapshot-lost m p k v d =
    rw (insert_within_snapshot-emptied m p k v d)
      (restart-Loads (view m) (emptied m p d true) (emptied-IsRestorable m p d true))

-- Two workers write `k`: the map gets `v` before `w`, the log gets `w` before `v`.
abbrev pub crossed_log : Persistence → Bytes → Bytes → Bytes → Persistence
crossed_log p k v w = append_to_log insert_word k v (append_to_log insert_word k w p)

-- If two workers write words to one key of a durable database in one order and log them in the
-- other, the map and the map after a restart have the values of different writers at that key.
pub crossed_inserts-differ :
    (m m' m'' : HashMap) (p : Persistence) (k v w : Bytes)
    → IsDurable m p
    → IsWord k
    → IsWord v
    → IsWord w
    → insert m k v ≡ ok m'
    → insert m' k w ≡ ok m''
    → (view m'' k ≡ some w)
      × Loads
          (update (view m) k (some v))
          (load_data_on_startup true true (crossed_log p k v w) (new default_capacity))
crossed_inserts-differ m m' m'' p k v w d hk hv hw first second =
    let one = insert-Writes m k v d.valid in
    let same : one.after ≡ m' = ok-injective (sym one.returns ∙ first) in
    let two = insert-Writes m' k w (rw same at one.valid) in
    let log_w = insert-Writes m k w d.valid in
    let dw = insert-IsDurable m log_w.after p k w hk hw d log_w.returns in
    let log_v = insert-Writes log_w.after k v dw.valid in
    let dv =
      insert-IsDurable log_w.after log_v.after (append_to_log insert_word k w p) k v hk hv dw
        log_v.returns in
    (
      ap (λ (x : HashMap). view x k) (ok-injective (sym second ∙ two.returns))
          ∙ two.reads k
          ∙ rw (===_refl k),
      Loads-congr (update (view m) k (some v))
          (restart-Loads (view log_v.after) (crossed_log p k v w) dv.restorable)
          (λ q. ground (arith, log_v.reads q, log_w.reads q)),
    )

-- If the process ends when a snapshot has opened and so emptied its file, over files that were
-- well formed, a start restores what the log alone says.
pub truncate_rdb-loses :
    (p : Persistence) (saved : Chain) (logged : List Record)
    → Files p saved logged
    → Loads
        (replay logged no_keys)
        (load_data_on_startup true true (truncate_rdb p) (new default_capacity))
unfolding truncate_rdb log_text puts replay
truncate_rdb-loses p saved logged files =
    let l =
      load-Loads (truncate_rdb p) [] logged (new default_capacity)
        (record {
          rdb_text = inl refl;
          aof_text = files.aof_text;
          saved_printable = tt;
          logged_printable = files.logged_printable;
        })
        (new-IsValid default_capacity (omega arith)) in
    Loads-congr (replay logged no_keys) l (replay_congr logged _ _ (view-new default_capacity))
