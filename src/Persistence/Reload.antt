-- ===== src/Persistence/Reload.antt =====
-- src/Storage/Persistence.cpp, a start into a table of any capacity: what the new map holds is equal
-- to what the old one held.
use kv_database.Prelude.{ℕ, ◌<◌, ◌≡◌, sym, ◌∙◌, true, [], some}
use mathlib.Core.Quot
use kv_database.Result.{ok}
use kv_database.HashMap.{HashMap, new}
use kv_database.HashMap.Map.{IsValid, new-IsValid, view-new}
use kv_database.HashMap.Contents.{Contents, contents}
use kv_database.Persistence.{Persistence, load_data_on_startup, create_snapshot}
use kv_database.Persistence.Records.{replay_congr}
use kv_database.Persistence.Recovery.{puts, load-Loads}
use kv_database.Persistence.Durable.{IsDurable}
use kv_database.Persistence.Snapshot.{create_snapshot-IsDurable}

-- A start into a new table returns a valid map with these contents.
pub record Reloads (size : ℕ) (p : Persistence) (c : Contents) : Type 0 where
  pub after : HashMap
  pub returns : load_data_on_startup true true p (new size) ≡ ok after
  pub valid : IsValid after
  pub same : contents after valid ≡ c

durable-Reloads :
    (m : HashMap) (p : Persistence) (size : ℕ) (d : IsDurable m p) (valid : IsValid m)
    → 0 < size
    → Reloads size p (contents m valid)
durable-Reloads m p size d valid positive =
    let r = d.restorable in
    let l = load-Loads p r.saved r.logged (new size) r.files (new-IsValid size positive) in
    record {
      after = l.after;
      returns = l.returns;
      valid = l.valid;
      same = Quot.sound (λ q.
          l.reads q
          ∙ replay_congr r.logged _ _ (replay_congr (puts r.saved) _ _ (view-new size)) q
          ∙ sym (r.reads q));
    }

-- Of a durable database, a start over the files into an empty map, and one over the files that a
-- snapshot without failures leaves, with an empty log, into an empty map of another capacity, both
-- return a valid map whose contents equal those of the old map, as elements of the quotient that
-- forgets capacities, chains and the order of calls.
pub snapshot-Reloads :
    (m : HashMap) (p : Persistence) (size larger : ℕ) (d : IsDurable m p)
    → 0 < size
    → 0 < larger
    → Reloads size p (contents m d.valid)
      × ((p' : Persistence) × (create_snapshot true true true m p ≡ (ok tt, p'))
          × (p'.aof ≡ some [])
          × Reloads larger p' (contents m d.valid))
snapshot-Reloads m p size larger d positive positive' =
    let (p', run, kept, empty) = create_snapshot-IsDurable m p d in
    (
      durable-Reloads m p size d d.valid positive,
      (p', run, empty, durable-Reloads m p' larger kept d.valid positive'),
    )
