-- ===== src/System/Life.antt =====
-- The life of the server: starts, the events of its threads, and stops of the process, perhaps in
-- the middle of a snapshot.
use kv_database.Prelude.{
  ℕ, ◌≡◌, refl, sym, ◌∙◌, true, Option, none, some, List, [], ◌++◌, arith, Bytes,
}
use kv_database.Result.{Result, ok, ◌>>=◌, ok-injective}
use kv_database.HashMap.{new, default_capacity}
use kv_database.HashMap.Map.{Map, view, view-new}
use kv_database.Persistence.{Persistence, construct, opened}
use kv_database.Persistence.Records.{replay, replay-append, replay_congr}
use kv_database.Persistence.Recovery.{no_keys}
use kv_database.Persistence.Durable.{restart-Loads}
use kv_database.Persistence.Lifecycle.{
  Database, IsKept, Stopped, at_rest, Stopped-IsRestorable, constructed, restarts-IsKept,
  first-IsKept,
}
use kv_database.Limiter.{default_limiter}
use kv_database.EventLoop.{EventLoop}
use kv_database.Server.{Server}
use kv_database.Server.Start.{create, start}
use kv_database.Server.Writes.{all_writes, all_writes-append}
use kv_database.System.{Step}
use kv_database.System.Sound.{IsSound, Step-IsSound}
use kv_database.System.Served.{step_messages, Step-Answers}

-- The constructor's default limit on all requests.
abbrev pub default_limit : ℕ
default_limit = 1000

-- The first start finds no files, which is as if it found an empty log.
abbrev first : Database
first = record {
  hash_map = new default_capacity;
  pers = record { aof_stream = true; aof = some []; rdb = none };
}

module _ {L : Type 0} ⦃loop : EventLoop L⦄ where
  abbrev pub database : Server L → Database
  database s = record { hash_map = s.hash_map; pers = s.pers }

  -- A start over these files, in which the system calls succeed.
  abbrev pub boot : Option Bytes → Option Bytes → ℕ → L → ℕ → Result (Server L)
  boot aof rdb sock l now = create true aof rdb (some sock) l now >>= start true true true true

  -- The start returned a sound server whose map reads as `f`.
  pub record Boots (f : Map) (r : Result (Server L)) : Type 0 where
    pub after : Server L
    pub returns : r ≡ ok after
    pub sound : IsSound default_limit after
    pub reads : (q : Bytes) → view after.hash_map q ≡ f q

  boot-Boots :
      (a : Database) (files : Persistence) (sock : ℕ) (l : L) (now : ℕ)
      → IsKept a
      → Stopped a files
      → Boots (view a.hash_map) (boot files.aof files.rdb sock l now)
  unfolding create start
  boot-Boots a files sock l now d stopped =
      let p : Persistence = record {
        aof_stream = true;
        aof = some (opened files.aof);
        rdb = files.rdb;
      } in
      let old = Stopped-IsRestorable d stopped in
      let (stream, kept) = constructed files p old (unfold construct in refl) in
      let m = restart-Loads (view a.hash_map) p kept in
      let b : Database = record { hash_map = m.after; pers = p } in
      record {
        after = record {
          running = true;
          server_socket = sock;
          hash_map = m.after;
          pers = p;
          rt = default_limiter now;
          sessions = [];
          objects = [];
          connections = [];
          event_loop = l;
          expired_sockets = [];
          jobs = [];
          sent = [];
          closed = [];
        };
        returns = unfold construct in rw m.returns;
        sound = record {
          linked = record { links = tt; jobs = tt };
          durable =
              restarts-IsKept {a = a} {b = b} d files stopped (unfold construct in refl) m.returns;
          tidy = record {
            unique = tt;
            counted = unfold default_limiter in record { limited = refl; counted = omega arith };
          };
        };
        reads = m.reads;
      }

  -- The states that a server goes through, with the complete messages that were handled since the first
  -- start: a start without files, an event of a thread, or a stop of the process and a new start.
  pub data Alive : List (ℕ × Bytes) → Server L → Type 0 where
    born :
        {t : Server L} (sock : ℕ) (l : L) (now : ℕ) → boot none none sock l now ≡ ok t → Alive [] t
    moves :
        {ms ns : List (ℕ × Bytes)} {s t : Server L}
        → Alive ns s
        → (st : Step s t) → ms ≡ ns ++ step_messages st
        → Alive ms t
    reborn :
        {ms : List (ℕ × Bytes)} {s t : Server L}
        → Alive ms s
        → (files : Persistence) (sock : ℕ) (l : L) (now : ℕ) → Stopped (database s) files
        → boot files.aof files.rdb sock l now ≡ ok t
        → Alive ms t

  -- What holds of each of them.
  pub record Remembers (ms : List (ℕ × Bytes)) (t : Server L) : Type 0 where
    pub sound : IsSound default_limit t
    pub reads : (q : Bytes) → view t.hash_map q ≡ replay (all_writes ms) no_keys q

  Boots-Remembers :
      (ms : List (ℕ × Bytes)) (f : Map) (r : Result (Server L)) (t : Server L)
      → Boots f r
      → r ≡ ok t
      → ((q : Bytes) → f q ≡ replay (all_writes ms) no_keys q)
      → Remembers ms t
  Boots-Remembers ms f r t b e h =
      let same = ok-injective (sym b.returns ∙ e) in
      let kept : Remembers ms b.after = record { sound = b.sound; reads = λ q. b.reads q ∙ h q } in
      rw same at kept

  pub first-Boots :
      (sock : ℕ) (l : L) (now : ℕ) → Boots (view (new default_capacity)) (boot none none sock l now)
  unfolding create start construct
  first-Boots sock l now =
      boot-Boots first first.pers sock l now (first-IsKept first (refl, refl)) (at_rest refl)

  pub Alive-Remembers : {ms : List (ℕ × Bytes)} {t : Server L} → Alive ms t → Remembers ms t
  unfolding replay
  Alive-Remembers {t = t} (born sock l now e) =
      Boots-Remembers [] _ _ t (first-Boots sock l now) e (view-new default_capacity)
  Alive-Remembers (moves alive st e) =
      let r = Alive-Remembers alive in
      record {
        sound = Step-IsSound default_limit st r.sound;
        reads = λ q.
            rw (e, all_writes-append, replay-append)
              ((Step-Answers st r.sound.durable.valid).reads q
                ∙ replay_congr (all_writes (step_messages st)) _ _ r.reads q);
      }
  Alive-Remembers {ms} {t} (reborn {s = s} alive files sock l now stopped e) =
      let r = Alive-Remembers alive in
      Boots-Remembers ms _ _ t (boot-Boots (database s) files sock l now r.sound.durable stopped) e
        r.reads

  -- After any run of starts whose system calls succeed, events of the threads in any order with
  -- snapshots that succeed, and stops of the process, each perhaps after a snapshot that failed or
  -- between the two parts of one, a start over the files whose system calls succeed returns; its
  -- state is sound, and its map is what the writes of all complete messages handled since the
  -- first start make of an empty map.
  pub reborn-Boots :
      {ms : List (ℕ × Bytes)} {s : Server L} (files : Persistence) (sock : ℕ) (l : L) (now : ℕ)
      → Alive ms s
      → Stopped (database s) files
      → Boots (replay (all_writes ms) no_keys) (boot files.aof files.rdb sock l now)
  reborn-Boots {s = s} files sock l now alive stopped =
      let r = Alive-Remembers alive in
      let b = boot-Boots (database s) files sock l now r.sound.durable stopped in
      record {
        after = b.after;
        returns = b.returns;
        sound = b.sound;
        reads = λ q. b.reads q ∙ r.reads q;
      }
