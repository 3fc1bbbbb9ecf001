-- ===== src/Persistence/Durable.antt =====
-- src/Storage/Persistence.cpp with the map that it stores: when a start from the files brings the
-- map back, and the writes that keep it so.
use kv_database.Prelude.{
  ◌≡◌, ap, sym, ◌∙◌, true, List, [], ◌∷◌, ◌++◌, arith, Bytes, All-append, insert_word, delete_word,
  none, some, ===_iff,
}
use kv_database.Result.{ok}
use kv_database.HashMap.{Chain, HashMap, new, default_capacity, insert, remove}
use kv_database.HashMap.Map.{
  Map, IsValid, insert-Writes, remove-Writes, new-IsValid, view-new, view, update,
}
use kv_database.Stream.Words.{IsToken, IsWord}
use kv_database.Persistence.{Persistence, append_to_log, load_data_on_startup}
use kv_database.Persistence.Records.{
  Record, put, del, IsPrintable, apply, replay, replay-append, replay_congr, apply_congr,
}
use kv_database.Persistence.Log.{record_text, log_text, Loads, log_text-append}
use kv_database.Persistence.Recovery.{puts, no_keys, Files, load-Loads}

-- What the files say is the map `f`.
pub record Restores (f : Map) (p : Persistence) : Type 0 where
  pub saved : Chain
  pub logged : List Record
  pub files : Files p saved logged
  pub reads : (q : Bytes) → f q ≡ replay logged (replay (puts saved) no_keys) q

-- A start from the files brings back the map.
abbrev pub IsRestorable : HashMap → Persistence → Type 0
IsRestorable m p = Restores (view m) p

-- The map is valid and holds words only, the log is open, and the files are in step.
pub record IsDurable (m : HashMap) (p : Persistence) : Type 0 where
  pub valid : IsValid m
  pub words : (q v : Bytes) → view m q ≡ some v → IsWord q × IsWord v
  pub stream_open : p.aof_stream ≡ true
  pub restorable : IsRestorable m p

-- One more record in the log and the same change to the map.
pub log-Restores :
    (f f' : Map) (p p' : Persistence) (r : Record)
    → IsPrintable r
    → Restores f p
    → ((q : Bytes) → f' q ≡ apply r f q)
    → p'.rdb ≡ p.rdb
    → ((text : Bytes) → p.aof ≡ some text → p'.aof ≡ some (text ++ record_text r))
    → Restores f' p'
unfolding replay
log-Restores f f' p p' r printable old change same_rdb longer = record {
  saved = old.saved;
  logged = old.logged ++ r ∷ [];
  files = record {
    rdb_text = rw same_rdb old.files.rdb_text;
    aof_text =
        longer (log_text old.logged) old.files.aof_text
        ∙ ap some (sym (log_text-append old.logged r));
    saved_printable = old.files.saved_printable;
    logged_printable =
        All-append IsPrintable old.logged (r ∷ []) old.files.logged_printable (printable, tt);
  };
  reads = λ q.
      change q
      ∙ apply_congr r f _ old.reads q
      ∙ ap (λ (g : Map). g q)
          (sym (replay-append old.logged (r ∷ []) (replay (puts old.saved) no_keys)));
}

-- A start into an empty map restores what the files hold.
pub restart-Loads :
    (f : Map) (p : Persistence)
    → Restores f p
    → Loads f (load_data_on_startup true true p (new default_capacity))
restart-Loads f p r =
    let l =
      load-Loads p r.saved r.logged (new default_capacity) r.files
        (new-IsValid default_capacity (omega arith)) in
    record {
      after = l.after;
      returns = l.returns;
      valid = l.valid;
      reads = λ q.
          l.reads q
          ∙ replay_congr r.logged _ _ (replay_congr (puts r.saved) _ _ (view-new default_capacity))
              q
          ∙ sym (r.reads q);
    }

-- INSERT: the map is written, then the log.
pub insert-IsDurable :
    (m m' : HashMap) (p : Persistence) (k v : Bytes)
    → IsWord k
    → IsWord v
    → IsDurable m p
    → insert m k v ≡ ok m'
    → IsDurable m' (append_to_log insert_word k v p)
unfolding append_to_log record_text apply
insert-IsDurable m m' p k v hk hv d run =
    let w = insert-Writes m k v d.valid in
    let same : w.after ≡ m' = cc (w.returns) in
    let reads : (q : Bytes) → view m' q ≡ update (view m) k (some v) q = rw same at w.reads in
    record {
      valid = rw same at w.valid;
      words = λ q x e. ground (arith, reads q, d.words q x, ===_iff k q);
      stream_open = rw d.stream_open;
      restorable =
          log-Restores (view m) (view m') p _ (put k v) (hk, hv) d.restorable reads
            (rw d.stream_open) (λ text e. rw (d.stream_open, e));
    }

-- DELETE: the map is written, then the log.
pub remove-IsDurable :
    (m m' : HashMap) (p : Persistence) (k : Bytes)
    → IsToken k
    → IsDurable m p
    → remove m k ≡ ok m'
    → IsDurable m' (append_to_log delete_word k [] p)
unfolding append_to_log record_text apply
remove-IsDurable m m' p k hk d run =
    let w = remove-Writes m k d.valid in
    let same : w.after ≡ m' = cc (w.returns) in
    let reads : (q : Bytes) → view m' q ≡ update (view m) k none q = rw same at w.reads in
    record {
      valid = rw same at w.valid;
      words = λ q x e. ground (arith, reads q, d.words q x);
      stream_open = rw d.stream_open;
      restorable =
          log-Restores (view m) (view m') p _ (del k) hk d.restorable reads (rw d.stream_open)
            (λ text e. rw (d.stream_open, e));
    }
