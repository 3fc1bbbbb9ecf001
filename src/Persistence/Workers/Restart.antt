-- ===== src/Persistence/Workers/Restart.antt =====
-- src/Server/Server.cpp, INSERT and DELETE on many workers: what the files say while writes of the
-- map wait for their lines in the log.
use kv_database.Prelude.{
  ◌≡◌, refl, ap, sym, ◌∙◌, true, List, [], ◌∷◌, ◌++◌, arith, Bytes, All, All-append, All-at,
  All-without, some, ===_iff,
}
use kv_database.Result.{Result, ok}
use kv_database.HashMap.{HashMap, new, default_capacity}
use kv_database.HashMap.Map.{Map, IsValid, insert-Writes, remove-Writes, view}
use kv_database.Stream.Words.{IsWord}
use kv_database.Persistence.{Persistence, append_to_log, create_snapshot, load_data_on_startup}
use kv_database.Persistence.Records.{
  Record, put, del, IsPrintable, apply, replay, replay-append, replay_congr, apply_congr,
  replay_twice,
}
use kv_database.Persistence.Log.{record_text}
use kv_database.Persistence.Durable.{Restores, IsDurable, log-Restores, restart-Loads}
use kv_database.Persistence.Snapshot.{create_snapshot-Restores}
use kv_database.Persistence.Workers.{
  write_map, write_line, key_written, Shared, Spares, Step, writes, logs, snapshots, Reach, here,
  next,
}

-- Writes of two keys can change places.
apply_swap :
    (r s : Record) (f : Map) (q : Bytes)
    → Spares (key_written r) s
    → apply r (apply s f) q ≡ apply s (apply r f) q
unfolding apply
apply_swap (put k v) (put j w) f q other = ground (arith, ===_iff k q, ===_iff j q)
apply_swap (put k v) (del j) f q other = ground (arith, ===_iff k q, ===_iff j q)
apply_swap (del k) (put j w) f q other = ground (arith, ===_iff k q, ===_iff j q)
apply_swap (del k) (del j) f q other = ground (arith, ===_iff k q, ===_iff j q)

replay_early :
    (before after : List Record) (r : Record) (f : Map) (q : Bytes)
    → All (Spares (key_written r)) before
    → replay (before ++ r ∷ after) f q ≡ replay (before ++ after) (apply r f) q
unfolding replay
replay_early [] after r f q h = refl
replay_early (s ∷ before) after r f q h =
    replay_early before after r (apply s f) q h.1
    ∙ replay_congr (before ++ after) _ _ (λ j. apply_swap r s f j h.0) q

-- The files restore `restored`, and the map holds the pending writes over it.
pub record IsBehind (restored : Map) (a : Shared) : Type 0 where
  pub valid : IsValid a.hash_map
  pub words : (q v : Bytes) → view a.hash_map q ≡ some v → IsWord q × IsWord v
  pub stream_open : a.pers.aof_stream ≡ true
  pub files : Restores restored a.pers
  pub printable : All IsPrintable a.pending
  pub reads : (q : Bytes) → view a.hash_map q ≡ replay a.pending restored q

pub write_map-applies :
    (r : Record) (m m' : HashMap)
    → IsValid m
    → write_map r m ≡ ok m'
    → IsValid m' × ((q : Bytes) → view m' q ≡ apply r (view m) q)
unfolding write_map apply
write_map-applies (put k v) m m' valid run =
    let w = insert-Writes m k v valid in
    let same : w.after ≡ m' = cc (w.returns) in (rw same at w.valid, rw same at w.reads)
write_map-applies (del k) m m' valid run =
    let w = remove-Writes m k valid in
    let same : w.after ≡ m' = cc (w.returns) in (rw same at w.valid, rw same at w.reads)

apply-words :
    (r : Record) (f g : Map)
    → IsPrintable r
    → ((q v : Bytes) → f q ≡ some v → IsWord q × IsWord v)
    → ((q : Bytes) → g q ≡ apply r f q)
    → (q v : Bytes) → g q ≡ some v
    → IsWord q × IsWord v
unfolding apply
apply-words (put k v) f g (hk, hv) words reads q x e =
    ground (arith, reads q, words q x, ===_iff k q)
apply-words (del k) f g hk words reads q x e = ground (arith, reads q, words q x)

write_line-Restores :
    (r : Record) (f : Map) (p : Persistence)
    → IsPrintable r
    → p.aof_stream ≡ true
    → Restores f p
    → ((write_line r p).aof_stream ≡ true) × Restores (apply r f) (write_line r p)
unfolding write_line append_to_log record_text
write_line-Restores (put k v) f p printable is_open old = (
  rw is_open,
  log-Restores f (apply (put k v) f) p _ (put k v) printable old (λ q. refl) (rw is_open)
      (λ text e. rw (is_open, e)),
)
write_line-Restores (del k) f p printable is_open old = (
  rw is_open,
  log-Restores f (apply (del k) f) p _ (del k) printable old (λ q. refl) (rw is_open)
      (λ text e. rw (is_open, e)),
)

module _ {f : Map} {a b : Shared} (h : IsBehind f a) where
  pub writes-IsBehind :
      (r : Record)
      → IsPrintable r
      → write_map r a.hash_map ≡ ok b.hash_map
      → b.pers ≡ a.pers
      → b.pending ≡ a.pending ++ r ∷ []
      → IsBehind f b
  unfolding replay
  writes-IsBehind r printable run same_files grown =
      let (valid, reads) = write_map-applies r a.hash_map b.hash_map h.valid run in
      record {
        valid = valid;
        words = apply-words r (view a.hash_map) (view b.hash_map) printable h.words reads;
        stream_open = rw same_files h.stream_open;
        files = rw same_files h.files;
        printable =
            rw grown (All-append IsPrintable a.pending (r ∷ []) h.printable (printable, tt));
        reads = λ q.
            reads q
            ∙ apply_congr r (view a.hash_map) (replay a.pending f) h.reads q
            ∙ rw (grown, replay-append a.pending (r ∷ []) f) refl;
      }

  pub logs-IsBehind :
      (r : Record) (before after : List Record)
      → a.pending ≡ before ++ r ∷ after
      → All (Spares (key_written r)) before
      → b.hash_map ≡ a.hash_map
      → b.pers ≡ write_line r a.pers
      → b.pending ≡ before ++ after
      → IsBehind (apply r f) b
  logs-IsBehind r before after split alone same_map logged shrunk =
      let pending = rw split at h.printable in
      let line =
        write_line-Restores r f a.pers (All-at IsPrintable before after r pending) h.stream_open
          h.files in
      record {
        valid = rw same_map h.valid;
        words = rw same_map h.words;
        stream_open = rw logged line.0;
        files = rw logged line.1;
        printable = rw shrunk (All-without IsPrintable before after r pending);
        reads = λ q.
            rw (same_map, shrunk)
              (h.reads q
                ∙ ap (λ (rs : List Record). replay rs f q) split
                ∙ replay_early before after r f q alone);
      }

  pub snapshots-IsBehind :
      b.hash_map ≡ a.hash_map
      → create_snapshot true true true a.hash_map a.pers ≡ (ok tt, b.pers)
      → b.pending ≡ a.pending
      → IsBehind (view a.hash_map) b
  snapshots-IsBehind same_map run same_pending =
      let (p, run', is_open, files) =
        create_snapshot-Restores a.hash_map h.valid h.words a.pers _ h.files.files.aof_text in
      let same : p ≡ b.pers = cc in
      record {
        valid = rw same_map h.valid;
        words = rw same_map h.words;
        stream_open = rw same at is_open;
        files = rw same at files;
        printable = rw same_pending h.printable;
        reads = λ q.
            rw (same_map, same_pending)
              (h.reads q ∙ sym (replay_twice a.pending f (view a.hash_map) q h.reads));
      }

Step-IsBehind : {f : Map} {a b : Shared} → Step a b → IsBehind f a → (g : Map) × IsBehind g b
Step-IsBehind {f} (writes r printable run e e') h = (f, writes-IsBehind h r printable run e e')
Step-IsBehind {f} (logs r before after split alone e e' e'') h =
    (apply r f, logs-IsBehind h r before after split alone e e' e'')
Step-IsBehind {a = a} (snapshots e run e') h = (view a.hash_map, snapshots-IsBehind h e run e')

Reach-IsBehind : {f : Map} {a b : Shared} → Reach a b → IsBehind f a → (g : Map) × IsBehind g b
Reach-IsBehind {f} here h = (f, h)
Reach-IsBehind (next r st) h = Step-IsBehind st (Reach-IsBehind r h).1

-- A durable database without pending writes.
pub calm-IsBehind :
    {a : Shared} → IsDurable a.hash_map a.pers → a.pending ≡ [] → IsBehind (view a.hash_map) a
unfolding replay
calm-IsBehind d none_pending = record {
  valid = d.valid;
  words = d.words;
  stream_open = d.stream_open;
  files = d.restorable;
  printable = rw none_pending tt;
  reads = λ q. rw none_pending;
}

-- A start over the files of `b` returns a valid map, and the map of `b` is what its pending writes make
-- of that one.
pub record Restarts (b : Shared) (r : Result HashMap) : Type 0 where
  pub after : HashMap
  pub returns : r ≡ ok after
  pub valid : IsValid after
  pub reads : (q : Bytes) → view b.hash_map q ≡ replay b.pending (view after) q

-- From a durable database with no write pending, after any interleaving of the workers' map
-- writes, log lines and whole snapshots in which the lines of each key keep the order of its map
-- writes, a start over the files returns a valid map, and the served map is what the writes
-- without a line yet make of it.
pub Reach-Restarts :
    {a b : Shared}
    → IsDurable a.hash_map a.pers
    → a.pending ≡ []
    → Reach a b
    → Restarts b (load_data_on_startup true true b.pers (new default_capacity))
Reach-Restarts {a} {b} d none_pending r =
    let (g, h) = Reach-IsBehind r (calm-IsBehind d none_pending) in
    let l = restart-Loads g b.pers h.files in
    record {
      after = l.after;
      returns = l.returns;
      valid = l.valid;
      reads = λ q. h.reads q ∙ replay_congr b.pending _ _ (λ j. sym (l.reads j)) q;
    }
