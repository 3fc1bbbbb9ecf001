-- ===== src/Persistence/Recovery.antt =====
-- src/Storage/Persistence.cpp, `loadDataOnStartup`: reading the snapshot and the log back.
use kv_database.Prelude.{
  ◌≡◌, refl, ap, ◌∙◌, ◌⊎◌, inl, inr, true, List, [], ◌∷◌, ◌++◌, arith, Bytes, All, append_assoc,
  append-nil, insert_word, none, some, ===_iff,
}
use mathlib.Core.Option.{or_else}
use kv_database.Result.{ok}
use kv_database.HashMap.{Chain, HashMap, for_each_chain}
use kv_database.HashMap.Chain.{find, IsDistinct}
use kv_database.HashMap.Map.{Map, IsValid, insert-Writes, view, update}
use kv_database.HashMap.Entries.{entries, for_each-entries}
use kv_database.Stream.{lines}
use kv_database.Persistence.{
  Persistence, log_line, truncate_rdb, write_entry, write_rdb, load_rdb_lines, load_rdb,
  load_data_on_startup,
}
use kv_database.Persistence.Records.{Record, put, IsPrintable, apply, replay, replay_congr}
use kv_database.Persistence.Log.{
  record_text, log_text, Loads, lines-log_text, load_rdb_line-put, load_aof_lines-Loads,
}

-- The entries of a snapshot as records.
unfoldable pub puts : Chain → List Record
puts [] = []
puts (n ∷ c) = put n.key n.value ∷ puts c

abbrev pub no_keys : Map
no_keys q = none

for_each_chain-write_entry :
    (c : Chain) (p : Persistence) (written : Bytes)
    → p.rdb ≡ some written
    → for_each_chain write_entry c p ≡ record p { rdb = some (written ++ log_text (puts c)) }
unfolding for_each_chain puts log_text record_text write_entry
for_each_chain-write_entry [] p written e = rw (append-nil written, ← e)
for_each_chain-write_entry (n ∷ c) p written e =
    for_each_chain-write_entry c (write_entry n.key n.value p)
      (written ++ log_line insert_word n.key n.value) (rw e)
    ∙ rw (append_assoc written (log_line insert_word n.key n.value) (log_text (puts c)))

-- The files with the entries of the map as the snapshot.
abbrev pub snapshotted : HashMap → Persistence → Persistence
snapshotted m p = record p { rdb = some (log_text (puts (entries m.table))) }

-- The first part of `createSnapshot` writes the log of the entries of the map.
pub write_rdb-snapshotted :
    (m : HashMap) (p : Persistence) → write_rdb true m p ≡ (ok tt, snapshotted m p)
unfolding write_rdb
write_rdb-snapshotted m p =
    ap (λ (r : Persistence). (ok tt, r))
      (for_each-entries write_entry m (truncate_rdb p)
        ∙ for_each_chain-write_entry (entries m.table) (truncate_rdb p) [] refl)

-- Replaying distinct entries puts each at its key.
pub replay-puts :
    (c : Chain) (f : Map) (q : Bytes)
    → IsDistinct c
    → replay (puts c) f q ≡ or_else (find q c) (f q)
unfolding replay puts find apply or_else
replay-puts [] f q d = refl
replay-puts (n ∷ c) f q d =
    replay-puts c (update f n.key (some n.value)) q d.1
    ∙ ground (arith, d.0, ===_iff n.key q, ap (λ (b : Bytes). find b c))

pub load_rdb_lines-Loads :
    (c : Chain) (m : HashMap)
    → All IsPrintable (puts c)
    → IsValid m
    → Loads (replay (puts c) (view m)) (load_rdb_lines (lines (log_text (puts c))) m)
unfolding load_rdb_lines log_text replay lines puts apply
load_rdb_lines-Loads [] m h valid = record {
  after = m;
  returns = refl;
  valid = valid;
  reads = λ q. refl;
}
load_rdb_lines-Loads (n ∷ c) m h valid =
    let one = insert-Writes m n.key n.value valid in
    let rest = load_rdb_lines-Loads c one.after h.1 one.valid in
    record {
      after = rest.after;
      returns =
          rw
            (
              lines-log_text (put n.key n.value) (log_text (puts c)) h.0,
              load_rdb_line-put n.key n.value m h.0,
              one.returns,
            )
            rest.returns;
      valid = rest.valid;
      reads = λ q. rest.reads q ∙ replay_congr (puts c) _ _ one.reads q;
    }

-- The files hold `saved` as the snapshot, perhaps for want of one, and `logged` as the log.
pub record Files (p : Persistence) (saved : Chain) (logged : List Record) : Type 0 where
  pub rdb_text : (p.rdb ≡ some (log_text (puts saved))) ⊎ ((p.rdb ≡ none) × (saved ≡ []))
  pub aof_text : p.aof ≡ some (log_text logged)
  pub saved_printable : All IsPrintable (puts saved)
  pub logged_printable : All IsPrintable logged

load_rdb-Loads :
    (p : Persistence) (saved : Chain) (logged : List Record) (m : HashMap)
    → Files p saved logged
    → IsValid m
    → Loads (replay (puts saved) (view m)) (load_rdb true p.rdb m)
unfolding load_rdb replay puts
load_rdb-Loads p saved logged m files valid = elim files.rdb_text [
  | inl e ↦ rw e (load_rdb_lines-Loads saved m files.saved_printable valid)
  | inr (e, e') ↦
      rw (e, e') (record { after = m; returns = refl; valid = valid; reads = λ q. refl })
]

-- `loadDataOnStartup` into a valid map replays the snapshot and then the log.
pub load-Loads :
    (p : Persistence) (saved : Chain) (logged : List Record) (m : HashMap)
    → Files p saved logged
    → IsValid m
    → Loads (replay logged (replay (puts saved) (view m))) (load_data_on_startup true true p m)
unfolding load_data_on_startup
load-Loads p saved logged m files valid =
    let one = load_rdb-Loads p saved logged m files valid in
    let two = load_aof_lines-Loads logged one.after files.logged_printable one.valid in
    record {
      after = two.after;
      returns = rw (one.returns, files.aof_text) two.returns;
      valid = two.valid;
      reads = λ q. two.reads q ∙ replay_congr logged _ _ one.reads q;
    }
