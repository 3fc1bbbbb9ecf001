-- ===== src/Persistence/Snapshot.antt =====
-- src/Storage/Persistence.cpp, `createSnapshot`: what it leaves in the files, also where it throws
-- or is cut off between its two parts.
use kv_database.Prelude.{
  ◌⊎◌, inr, ◌≡◌, refl, ap, sym, ◌∙◌, inl, Bool, true, false, [], ◌∷◌, arith, Bytes, All, some,
  ===_iff, ===_refl,
}
use mathlib.Core.Option.{or_else}
use kv_database.Result.{
  ok, fault, Fault, aof_reopen_failed, aof_resize_failed, snapshot_open_failed,
}
use kv_database.HashMap.{Chain, HashMap}
use kv_database.HashMap.Chain.{find, IsDistinct}
use kv_database.HashMap.Map.{Map, IsValid, view}
use kv_database.HashMap.Entries.{entries, entries-view}
use kv_database.Stream.Words.{IsWord}
use kv_database.Persistence.{Persistence, write_rdb, reset_aof, create_snapshot}
use kv_database.Persistence.Records.{IsPrintable, replay, replay_twice}
use kv_database.Persistence.Log.{log_text}
use kv_database.Persistence.Recovery.{
  puts, no_keys, snapshotted, write_rdb-snapshotted, replay-puts,
}
use kv_database.Persistence.Durable.{Restores, IsRestorable, IsDurable}

IsPrintable-puts :
    (c : Chain)
    → IsDistinct c
    → ((q v : Bytes) → find q c ≡ some v → IsWord q × IsWord v)
    → All IsPrintable (puts c)
unfolding puts find
IsPrintable-puts [] d h = tt
IsPrintable-puts (n ∷ c) d h = (
  h n.key n.value (ground (arith, ===_refl n.key)),
  IsPrintable-puts c d.1
      (λ q v e. h q v (ground (arith, e, d.0, ===_iff n.key q, ap (λ (b : Bytes). find b c)))),
)

-- Only the two files count for a restart.
pub same_files :
    {f : Map} (p p' : Persistence) → p'.rdb ≡ p.rdb → p'.aof ≡ p.aof → Restores f p → Restores f p'
same_files p p' er ea r = record {
  saved = r.saved;
  logged = r.logged;
  files = record {
    rdb_text = rw er r.files.rdb_text;
    aof_text = ea ∙ r.files.aof_text;
    saved_printable = r.files.saved_printable;
    logged_printable = r.files.logged_printable;
  };
  reads = r.reads;
}

module _ (m : HashMap) (valid : IsValid m)
    (words : (q v : Bytes) → view m q ≡ some v → IsWord q × IsWord v) where
  entries-reads : (q : Bytes) → view m q ≡ replay (puts (entries m.table)) no_keys q
  unfolding or_else
  entries-reads q =
      let (distinct, reads) = entries-view m valid in
      ground (arith, reads q, replay-puts (entries m.table) no_keys q distinct)

  entries-IsPrintable : All IsPrintable (puts (entries m.table))
  entries-IsPrintable =
      let (distinct, reads) = entries-view m valid in
      IsPrintable-puts (entries m.table) distinct (λ q v e. words q v (sym (reads q) ∙ e))

  -- The entries of the map in the snapshot and an empty log.
  fresh-Restores :
      (p : Persistence)
      → p.rdb ≡ some (log_text (puts (entries m.table)))
      → p.aof ≡ some []
      → Restores (view m) p
  unfolding replay log_text
  fresh-Restores p rdb aof = record {
    saved = entries m.table;
    logged = [];
    files = record {
      rdb_text = inl rdb;
      aof_text = aof;
      saved_printable = entries-IsPrintable;
      logged_printable = tt;
    };
    reads = entries-reads;
  }

  -- Whatever the log said, a snapshot whose system calls succeed puts the map in the files.
  pub create_snapshot-Restores :
      (p : Persistence) (text : Bytes)
      → p.aof ≡ some text
      → (p' : Persistence) × (create_snapshot true true true m p ≡ (ok tt, p'))
        × (p'.aof_stream ≡ true)
        × Restores (view m) p'
  unfolding create_snapshot reset_aof
  create_snapshot-Restores p text e = (
    record (snapshotted m p) { aof_stream = true; aof = some [] },
    rw (write_rdb-snapshotted m p, e),
    refl,
    fresh-Restores _ refl refl,
  )

module _ (m : HashMap) (p : Persistence) (d : IsDurable m p) where
  -- The snapshot under the log that there was.
  snapshotted-IsRestorable : IsRestorable m (snapshotted m p)
  snapshotted-IsRestorable =
      let old = d.restorable in
      record {
        saved = entries m.table;
        logged = old.logged;
        files = record {
          rdb_text = inl refl;
          aof_text = old.files.aof_text;
          saved_printable = entries-IsPrintable m d.valid d.words;
          logged_printable = old.files.logged_printable;
        };
        reads = λ q.
            old.reads q
            ∙ sym (
                replay_twice old.logged (replay (puts old.saved) no_keys)
                  (replay (puts (entries m.table)) no_keys) q
                  (λ j. sym (entries-reads m d.valid d.words j) ∙ old.reads j));
      }

  -- Cut off after its first part, a snapshot still restores the map: the old log is replayed over it.
  pub write_rdb-IsRestorable : (opens : Bool) → IsRestorable m (write_rdb opens m p).1
  write_rdb-IsRestorable false = unfold write_rdb in d.restorable
  write_rdb-IsRestorable true = rw (write_rdb-snapshotted m p) snapshotted-IsRestorable

  -- The snapshot under an empty log.
  unfoldable pub emptied : Bool → Persistence
  emptied is_open = record (snapshotted m p) { aof_stream = is_open; aof = some [] }

  pub emptied-IsRestorable : (is_open : Bool) → IsRestorable m (emptied is_open)
  unfolding emptied
  emptied-IsRestorable is_open = fresh-Restores m d.valid d.words (emptied is_open) refl refl

  reset_aof-emptied :
      (reset_aof true false (snapshotted m p) ≡ (fault aof_reopen_failed, emptied false))
      × (reset_aof true true (snapshotted m p) ≡ (ok tt, emptied true))
  unfolding reset_aof emptied
  reset_aof-emptied = (rw d.restorable.files.aof_text, rw d.restorable.files.aof_text)

  create_snapshot-ok : create_snapshot true true true m p ≡ (ok tt, emptied true)
  unfolding create_snapshot
  create_snapshot-ok = rw (write_rdb-snapshotted m p) (reset_aof-emptied.1)

  -- Of a durable database the files restore the map after createSnapshot, whether it returns or
  -- throws at any of its three system calls.
  pub create_snapshot-IsRestorable :
      (rdb_opens resizes reopens : Bool)
      → IsRestorable m (create_snapshot rdb_opens resizes reopens m p).1
  unfolding create_snapshot
  create_snapshot-IsRestorable false resizes reopens = unfold write_rdb in d.restorable
  create_snapshot-IsRestorable true false reopens =
      rw (write_rdb-snapshotted m p)
        (unfold reset_aof in same_files (snapshotted m p) _ refl refl snapshotted-IsRestorable)
  create_snapshot-IsRestorable true true false =
      rw (write_rdb-snapshotted m p, reset_aof-emptied.0) (emptied-IsRestorable false)
  create_snapshot-IsRestorable true true true =
      rw (write_rdb-snapshotted m p, reset_aof-emptied.1) (emptied-IsRestorable true)

  -- A snapshot of a durable database whose system calls succeed returns, keeps the database
  -- durable with the same map, and leaves an empty log.
  pub create_snapshot-IsDurable :
      (p' : Persistence) × (create_snapshot true true true m p ≡ (ok tt, p'))
      × IsDurable m p'
      × (p'.aof ≡ some [])
  unfolding emptied
  create_snapshot-IsDurable = (
    emptied true,
    create_snapshot-ok,
    record {
      valid = d.valid;
      words = d.words;
      stream_open = refl;
      restorable = emptied-IsRestorable true;
    },
    refl,
  )

  -- It returns, with the database durable, or throws.
  pub create_snapshot-cases :
      (rdb_opens resizes reopens : Bool)
      → let r = create_snapshot rdb_opens resizes reopens m p in
        ((p' : Persistence) × (r ≡ (ok tt, p')) × IsDurable m p')
        ⊎ ((e : Fault) × (r ≡ (fault e, r.1)))
  unfolding create_snapshot
  create_snapshot-cases true true true =
      let (p', run, kept, empty) = create_snapshot-IsDurable in inl (p', run, kept)
  create_snapshot-cases false resizes reopens = inr (snapshot_open_failed, unfold write_rdb in refl)
  create_snapshot-cases true false reopens =
      rw (write_rdb-snapshotted m p) (inr (aof_resize_failed, unfold reset_aof in refl))
  create_snapshot-cases true true false =
      rw (write_rdb-snapshotted m p, reset_aof-emptied.0) (inr (aof_reopen_failed, refl))
