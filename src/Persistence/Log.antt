-- ===== src/Persistence/Log.antt =====
-- src/Storage/Persistence.cpp, the text of the log: the lines of records, and how they are read.
use kv_database.Prelude.{
  ◌≡◌, refl, ap, ◌∙◌, true, List, [], ◌∷◌, ◌++◌, arith, Bytes, All, All-append, append_assoc,
  append-nil, newline, space, insert_word, delete_word, ◌===◌,
}
use kv_database.Result.{Result, ok}
use kv_database.HashMap.{HashMap, insert, remove}
use kv_database.HashMap.Map.{Map, IsValid, insert-Writes, remove-Writes, view}
use kv_database.Stream.{is_space, read_word, lines}
use kv_database.Stream.Words.{IsToken, IsWord, read_word-append, read_word-all, read_word-space}
use kv_database.Stream.Lines.{IsLine, lines-append}
use kv_database.Persistence.Records.{Record, put, del, IsPrintable, apply, replay, replay_congr}
use kv_database.Persistence.{log_line, load_rdb_line, load_aof_line, load_aof_lines}

-- The line without its end.
unfoldable pub record_line : Record → Bytes
record_line (put k v) = insert_word ++ space ∷ k ++ space ∷ v
record_line (del k) = delete_word ++ space ∷ k ++ space ∷ []

-- The text that `appendToLog` writes for a record.
unfoldable pub record_text : Record → Bytes
unfolding log_line
record_text (put k v) = log_line insert_word k v
record_text (del k) = log_line delete_word k []

unfoldable pub log_text : List Record → Bytes
log_text [] = []
log_text (r ∷ rs) = record_text r ++ log_text rs

pub log_text-append :
    (rs : List Record) (r : Record) → log_text (rs ++ r ∷ []) ≡ log_text rs ++ record_text r
unfolding log_text
log_text-append [] r = simp append-nil
log_text-append (s ∷ rs) r = simp (log_text-append rs r, append_assoc)

record_text-line : (r : Record) → record_text r ≡ record_line r ++ newline ∷ []
unfolding record_text record_line
record_text-line (put k v) = simp append_assoc
record_text-line (del k) = simp append_assoc

IsToken-IsLine : (s : Bytes) → IsToken s → IsLine s
unfolding is_space
IsToken-IsLine [] h = tt
IsToken-IsLine (c ∷ s) h = ground (arith, IsToken-IsLine s)

record_line-IsLine : (r : Record) → IsPrintable r → IsLine (record_line r)
unfolding record_line
record_line-IsLine (put k v) h =
    let tail =
      All-append _ k (space ∷ v) (IsToken-IsLine k h.0.token) (refl, IsToken-IsLine v h.1.token) in
    All-append _ insert_word (space ∷ k ++ space ∷ v) (ground arith) (refl, tail)
record_line-IsLine (del k) h =
    let tail = All-append _ k (space ∷ []) (IsToken-IsLine k h) (refl, tt) in
    All-append _ delete_word (space ∷ k ++ space ∷ []) (ground arith) (refl, tail)

-- The first line of a text that begins with a record is the record's.
pub lines-log_text :
    (r : Record) (rest : Bytes)
    → IsPrintable r
    → lines (record_text r ++ rest) ≡ record_line r ∷ lines rest
lines-log_text r rest h =
    ap lines (
      ap (λ (t : Bytes). t ++ rest) (record_text-line r)
      ∙ append_assoc (record_line r) (newline ∷ []) rest)
    ∙ lines-append (record_line r) rest (record_line-IsLine r h)

insert_word-IsWord : IsWord insert_word
unfolding is_space
insert_word-IsWord = record { nonempty = λ e. cc; token = ground arith }

delete_word-IsWord : IsWord delete_word
unfolding is_space
delete_word-IsWord = record { nonempty = λ e. cc; token = ground arith }

space-is_space : is_space space ≡ true
unfolding is_space
space-is_space = refl

-- A word behind a space, and another one behind it.
read_word-next :
    (w rest : Bytes) → IsWord w → read_word (space ∷ w ++ space ∷ rest) ≡ (w, space ∷ rest)
read_word-next w rest h =
    read_word-space space (w ++ space ∷ rest) space-is_space
    ∙ read_word-append w space rest h space-is_space

read_word-last : (w : Bytes) → IsToken w → read_word (space ∷ w) ≡ (w, [])
read_word-last w h = read_word-space space w space-is_space ∙ read_word-all w h

-- The line of a record does to the map what the record says.
load_aof_line-put :
    (k v : Bytes) (m : HashMap)
    → IsPrintable (put k v)
    → load_aof_line (record_line (put k v)) m ≡ insert m k v
unfolding load_aof_line record_line ◌===◌
load_aof_line-put k v m h = rw (
  read_word-append insert_word space (k ++ space ∷ v) insert_word-IsWord space-is_space,
  read_word-next k v h.0,
  read_word-last v h.1.token,
)

-- The key of a deletion, which may be empty.
read_word-key : (k : Bytes) → IsToken k → (read_word (space ∷ k ++ space ∷ [])).0 ≡ k
unfolding read_word
read_word-key [] h = refl
read_word-key (a ∷ k) h =
    ap (λ (r : Bytes × Bytes). r.0)
      (read_word-next (a ∷ k) [] (record { nonempty = λ e. cc; token = h }))

load_aof_line-del :
    (k : Bytes) (m : HashMap) → IsToken k → load_aof_line (record_line (del k)) m ≡ remove m k
unfolding load_aof_line record_line ◌===◌
load_aof_line-del k m h =
    rw (read_word-append delete_word space (k ++ space ∷ []) delete_word-IsWord space-is_space)
      (ap (remove m) (read_word-key k h))

pub load_rdb_line-put :
    (k v : Bytes) (m : HashMap)
    → IsPrintable (put k v)
    → load_rdb_line (record_line (put k v)) m ≡ insert m k v
unfolding load_rdb_line record_line
load_rdb_line-put k v m h = rw (
  read_word-append insert_word space (k ++ space ∷ v) insert_word-IsWord space-is_space,
  read_word-next k v h.0,
  read_word-last v h.1.token,
)

-- The load returned a valid map that reads as `f`.
pub record Loads (f : Map) (r : Result HashMap) : Type 0 where
  pub after : HashMap
  pub returns : r ≡ ok after
  pub valid : IsValid after
  pub reads : (q : Bytes) → view after q ≡ f q

pub Loads-congr :
    {f : Map} (g : Map) {r : Result HashMap} → Loads f r → ((q : Bytes) → f q ≡ g q) → Loads g r
Loads-congr g l h = record {
  after = l.after;
  returns = l.returns;
  valid = l.valid;
  reads = λ q. l.reads q ∙ h q;
}

load_aof_line-Loads :
    (r : Record) (m : HashMap)
    → IsPrintable r
    → IsValid m
    → Loads (apply r (view m)) (load_aof_line (record_line r) m)
unfolding apply
load_aof_line-Loads (put k v) m h valid =
    let w = insert-Writes m k v valid in
    record {
      after = w.after;
      returns = load_aof_line-put k v m h ∙ w.returns;
      valid = w.valid;
      reads = w.reads;
    }
load_aof_line-Loads (del k) m h valid =
    let w = remove-Writes m k valid in
    record {
      after = w.after;
      returns = load_aof_line-del k m h ∙ w.returns;
      valid = w.valid;
      reads = w.reads;
    }

-- Loading the text that was written for a list of printable records into a valid map returns the
-- valid map that replaying the records gives.
pub load_aof_lines-Loads :
    (rs : List Record) (m : HashMap)
    → All IsPrintable rs
    → IsValid m
    → Loads (replay rs (view m)) (load_aof_lines (lines (log_text rs)) m)
unfolding load_aof_lines log_text replay lines
load_aof_lines-Loads [] m h valid = record {
  after = m;
  returns = refl;
  valid = valid;
  reads = λ q. refl;
}
load_aof_lines-Loads (r ∷ rs) m h valid =
    let one = load_aof_line-Loads r m h.0 valid in
    let rest = load_aof_lines-Loads rs one.after h.1 one.valid in
    record {
      after = rest.after;
      returns = rw (lines-log_text r (log_text rs) h.0, one.returns) rest.returns;
      valid = rest.valid;
      reads = λ q. rest.reads q ∙ replay_congr rs _ _ one.reads q;
    }
