-- ===== src/Server/Interleaved/Consistent.antt =====
-- src/Server/Server.cpp, `messageHandler` on many workers: what each critical section keeps of the
-- database, the log and the responses.
use kv_database.Prelude.{
  ◌≡◌, refl, ap, sym, ◌∙◌, ◌⊎◌, inl, inr, true, List, [], ◌∷◌, ◌++◌, Bytes, All, All-append,
  All-map, All-set, All-replicate, All-get_elem?, ℕ, set, append_assoc, append-nil,
}
use kv_database.Result.{ok, ok-injective}
use kv_database.HashMap.{HashMap}
use kv_database.HashMap.Map.{Map, view}
use kv_database.Persistence.{Persistence, create_snapshot}
use kv_database.Persistence.Records.{Record, IsPrintable, apply, replay, replay-append, apply_congr}
use kv_database.Persistence.Durable.{IsDurable}
use kv_database.Persistence.Workers.{write_map, write_line, Spares, key_written}
use kv_database.Persistence.Workers.Restart.{
  IsBehind, writes-IsBehind, logs-IsBehind, snapshots-IsBehind, calm-IsBehind, write_map-applies,
}
use kv_database.Server.{Outcome, run_message}
use kv_database.Server.Writes.{message_writes, message_writes-IsPrintable}
use kv_database.Server.Responses.{respond, respond_congr, run_message-Tells}
use kv_database.Server.Interleaved.{
  Phase, idle, parsed, in_map, in_log, Reply, Jobs, At, Step, parses, stores, logs, answers, reads,
  snapshots, Reach, here, next, resting,
}
use kv_database.Server.Interleaved.Keys.{KeyKept, stores-KeyKept, snapshots-KeyKept, logs-KeyKept}

abbrev pub In : Record → List Record → Type 0
In r [] = ⊥
In r (s ∷ ss) = (s ≡ r) ⊎ In r ss

In-append : (r : Record) (rs ss : List Record) → In r rs → In r (rs ++ ss)
In-append r [] ss h = absurd h
In-append r (s ∷ rs) ss (inl same) = inl same
In-append r (s ∷ rs) ss (inr h) = inr (In-append r rs ss h)

In-last : (r : Record) (rs : List Record) → In r (rs ++ r ∷ [])
In-last r [] = inl refl
In-last r (s ∷ rs) = inr (In-last r rs)

abbrev IsAtWork : List Record → Phase → Type 0
IsAtWork journal idle = Unit
IsAtWork journal (parsed r) = IsPrintable r
IsAtWork journal (in_map r) = Unit
IsAtWork journal (in_log r) = In r journal

-- The response is the one that the map calls for which the writes seen make, and these are the first of
-- all writes.
pub record Fits (start : Map) (written : List Record) (reply : Reply) : Type 0 where
  pub response : reply.response ≡ respond reply.message (replay reply.seen start)
  pub later : List Record
  pub seen : written ≡ reply.seen ++ later

pub record IsConsistent (start f : Map) (a : Jobs) : Type 0 where
  pub behind : IsBehind f a.shared
  pub shown : (q : Bytes) → view a.shared.hash_map q ≡ replay a.written start q
  pub kept : (q : Bytes) → KeyKept start f q a.written a.journal a.shared.pending
  pub at_work : All (IsAtWork a.journal) a.phases
  pub answered : All (λ (r : Record). In r a.journal) a.answered
  pub replies : All (Fits start a.written) a.replies

module _ (start f : Map) (a : Jobs) (h : IsConsistent start f a) where
  parses-IsConsistent :
      (i : ℕ) (message : Bytes) (r : Record) (b : Jobs)
      → message_writes message ≡ r ∷ []
      → b ≡ record a { phases = set a.phases i (parsed r) }
      → IsConsistent start f b
  parses-IsConsistent i message r b asks e = rw e (record {
    behind = h.behind;
    shown = h.shown;
    kept = h.kept;
    at_work =
        All-set (IsAtWork a.journal) a.phases i (parsed r)
          (rw asks at (message_writes-IsPrintable message)).0 h.at_work;
    answered = h.answered;
    replies = h.replies;
  })

  Fits-longer :
      (r : Record) (reply : Reply)
      → Fits start a.written reply
      → Fits start (a.written ++ r ∷ []) reply
  Fits-longer r reply k = record {
    response = k.response;
    later = k.later ++ r ∷ [];
    seen =
        ap (λ (rs : List Record). rs ++ r ∷ []) k.seen ∙ append_assoc reply.seen k.later (r ∷ []);
  }

  stores-IsConsistent :
      (i : ℕ) (r : Record) (m : HashMap) (b : Jobs)
      → At i (parsed r) a
      → write_map r a.shared.hash_map ≡ ok m
      → b ≡ record a {
        shared = record a.shared { hash_map = m; pending = a.shared.pending ++ r ∷ [] };
        phases = set a.phases i (in_map r);
        written = a.written ++ r ∷ [];
      }
      → IsConsistent start f b
  unfolding replay
  stores-IsConsistent i r m b at run e =
      let (valid, applied) = write_map-applies r a.shared.hash_map m h.behind.valid run in
      rw e (record {
        behind =
            writes-IsBehind h.behind r
              (All-get_elem? (IsAtWork a.journal) a.phases i (parsed r) at h.at_work) run refl refl;
        shown = λ q.
            applied q
            ∙ apply_congr r (view a.shared.hash_map) (replay a.written start) h.shown q
            ∙ ap (λ (g : Map). g q) (sym (replay-append a.written (r ∷ []) start));
        kept = λ q. stores-KeyKept start f q a.written a.journal a.shared.pending r (h.kept q);
        at_work = All-set (IsAtWork a.journal) a.phases i (in_map r) tt h.at_work;
        answered = h.answered;
        replies =
            All-map (Fits start a.written) (Fits start (a.written ++ r ∷ [])) a.replies
              (Fits-longer r) h.replies;
      })

  IsAtWork-longer :
      (r : Record) (t : Phase) → IsAtWork a.journal t → IsAtWork (a.journal ++ r ∷ []) t
  IsAtWork-longer r idle k = k
  IsAtWork-longer r (parsed s) k = k
  IsAtWork-longer r (in_map s) k = k
  IsAtWork-longer r (in_log s) k = In-append s a.journal (r ∷ []) k

  logs-IsConsistent :
      (i : ℕ) (r : Record) (before after : List Record) (b : Jobs)
      → a.shared.pending ≡ before ++ r ∷ after
      → All (Spares (key_written r)) before
      → b ≡ record a {
        shared = record a.shared { pers = write_line r a.shared.pers; pending = before ++ after };
        phases = set a.phases i (in_log r);
        journal = a.journal ++ r ∷ [];
      }
      → IsConsistent start (apply r f) b
  logs-IsConsistent i r before after b split alone e = rw e (record {
    behind = logs-IsBehind h.behind r before after split alone refl refl refl;
    shown = h.shown;
    kept =
        λ q. logs-KeyKept start f q a.written a.journal before after r (rw split at h.kept q) alone;
    at_work = All-set (IsAtWork (a.journal ++ r ∷ [])) a.phases i (in_log r) (In-last r a.journal) (
        All-map (IsAtWork a.journal) (IsAtWork (a.journal ++ r ∷ [])) a.phases (IsAtWork-longer r)
          h.at_work);
    answered =
        All-map (λ (s : Record). In s a.journal) (λ (s : Record). In s (a.journal ++ r ∷ []))
          a.answered (λ s k. In-append s a.journal (r ∷ []) k) h.answered;
    replies = h.replies;
  })

  answers-IsConsistent :
      (i : ℕ) (r : Record) (b : Jobs)
      → At i (in_log r) a
      → b ≡ record a { phases = set a.phases i idle; answered = a.answered ++ r ∷ [] }
      → IsConsistent start f b
  answers-IsConsistent i r b at e = rw e (record {
    behind = h.behind;
    shown = h.shown;
    kept = h.kept;
    at_work = All-set (IsAtWork a.journal) a.phases i idle tt h.at_work;
    answered =
        All-append (λ (s : Record). In s a.journal) a.answered (r ∷ []) h.answered
          (All-get_elem? (IsAtWork a.journal) a.phases i (in_log r) at h.at_work, tt);
    replies = h.replies;
  })

  reads-IsConsistent :
      (message : Bytes) (done : Outcome) (b : Jobs)
      → run_message message a.shared.hash_map a.shared.pers ≡ ok done
      → b ≡ record a {
        replies =
            a.replies
            ++ record { message = message; response = done.response; seen = a.written } ∷ [];
      }
      → IsConsistent start f b
  reads-IsConsistent message done b run e =
      let t = run_message-Tells message a.shared.hash_map a.shared.pers h.behind.valid in
      let same : t.done ≡ done = ok-injective (sym t.returns ∙ run) in
      rw e (record {
        behind = h.behind;
        shown = h.shown;
        kept = h.kept;
        at_work = h.at_work;
        answered = h.answered;
        replies = All-append (Fits start a.written) a.replies _ h.replies (
          record {
            response =
                ap (λ (o : Outcome). o.response) (sym same)
                ∙ t.tells
                ∙ respond_congr message (view a.shared.hash_map) (replay a.written start) h.shown;
            later = [];
            seen = sym (append-nil a.written);
          },
          tt,
        );
      })

  snapshots-IsConsistent :
      (p : Persistence) (b : Jobs)
      → create_snapshot true true true a.shared.hash_map a.shared.pers ≡ (ok tt, p)
      → b ≡ record a { shared = record a.shared { pers = p } }
      → IsConsistent start (view a.shared.hash_map) b
  snapshots-IsConsistent p b run e = rw e (record {
    behind = snapshots-IsBehind h.behind refl run refl;
    shown = h.shown;
    kept = λ q.
        snapshots-KeyKept start f q a.written a.journal a.shared.pending (view a.shared.hash_map)
          h.shown (h.kept q);
    at_work = h.at_work;
    answered = h.answered;
    replies = h.replies;
  })

Step-IsConsistent :
    (start f : Map) {a b : Jobs}
    → Step a b
    → IsConsistent start f a
    → (g : Map) × IsConsistent start g b
Step-IsConsistent start f {a} {b} (parses i message r at asks e) h =
    (f, parses-IsConsistent start f a h i message r b asks e)
Step-IsConsistent start f {a} {b} (stores i r m at run e) h =
    (f, stores-IsConsistent start f a h i r m b at run e)
Step-IsConsistent start f {a} {b} (logs i r before after at split alone e) h =
    (apply r f, logs-IsConsistent start f a h i r before after b split alone e)
Step-IsConsistent start f {a} {b} (answers i r at e) h =
    (f, answers-IsConsistent start f a h i r b at e)
Step-IsConsistent start f {a} {b} (reads i message done at asks run e) h =
    (f, reads-IsConsistent start f a h message done b run e)
Step-IsConsistent start f {a} {b} (snapshots p run e) h =
    (view a.shared.hash_map, snapshots-IsConsistent start f a h p b run e)

resting-IsConsistent :
    (size : ℕ) (m : HashMap) (p : Persistence)
    → IsDurable m p
    → IsConsistent (view m) (view m) (resting size m p)
unfolding resting replay
resting-IsConsistent size m p d = record {
  behind = calm-IsBehind d refl;
  shown = λ q. refl;
  kept = λ q. record { order = refl; early = []; late = []; cut = refl; reads = refl };
  at_work = All-replicate (IsAtWork []) size idle tt;
  answered = tt;
  replies = tt;
}

-- Each state of a run from a durable database is consistent with some map in the files.
pub Reach-IsConsistent :
    (size : ℕ) (m : HashMap) (p : Persistence) {b : Jobs}
    → IsDurable m p
    → Reach (resting size m p) b
    → (f : Map) × IsConsistent (view m) f b
Reach-IsConsistent size m p d here = (view m, resting-IsConsistent size m p d)
Reach-IsConsistent size m p d (next r st) =
    let (f, h) = Reach-IsConsistent size m p d r in Step-IsConsistent (view m) f st h
