-- ===== src/Server/Commits.antt =====
-- src/Server/Server.cpp, the command part of `messageHandler` and its two critical sections: the write of
-- the map and the line in the log, which kv_database.Persistence.Workers interleaves.
use kv_database.Prelude.{
  ◌≡◌, refl, List, [], ◌∷◌, Bytes, ◌===◌, Bool-cases, inl, inr, insert_word, get_word, delete_word,
}
use kv_database.Result.{Result, ok, fault, ◌>>=◌}
use kv_database.HashMap.{HashMap}
use kv_database.HashMap.Map.{IsValid, insert-Writes, remove-Writes, get-view}
use kv_database.Persistence.{Persistence}
use kv_database.Persistence.Records.{Record, del}
use kv_database.Persistence.Workers.{write_map, write_line}
use kv_database.Server.{Outcome, insert_command, get_command, delete_command, run_message}
use kv_database.Server.Command.{first_word, second_word, third_word}
use kv_database.Server.Writes.{insert_writes, message_writes}

-- Each write in turn: the map, then the log.
unfoldable pub commit : List Record → HashMap → Persistence → Result (HashMap × Persistence)
commit [] m p = ok (m, p)
commit (r ∷ rs) m p = do m' ← write_map r m; commit rs m' (write_line r p)

-- The database of an outcome, without the response.
abbrev pub stored : Result Outcome → Result (HashMap × Persistence)
stored (ok done) = ok (done.hash_map, done.pers)
stored (fault e) = fault e

module _ (message : Bytes) (m : HashMap) (p : Persistence) (valid : IsValid m) where
  insert_command-commit :
      (key value : Bytes)
      → stored (insert_command key value m p) ≡ commit (insert_writes key value) m p
  unfolding insert_command insert_writes commit write_map write_line
  insert_command-commit key [] = refl
  insert_command-commit key (c ∷ v) = rw (insert-Writes m key (c ∷ v) valid).returns

  get_command-commit : (key : Bytes) → stored (get_command key m p) ≡ commit [] m p
  unfolding get_command commit
  get_command-commit key = rw (get-view m key valid)

  delete_command-commit :
      (key : Bytes) → stored (delete_command key m p) ≡ commit (del key ∷ []) m p
  unfolding delete_command commit write_map write_line
  delete_command-commit key = rw (remove-Writes m key valid).returns

  -- On a valid map the command part of the handler, whatever the message, changes the database as
  -- the writes that the message asks for do when each is made in the map and then in the log, the
  -- two critical sections that the workers interleave.
  pub run_message-commit : stored (run_message message m p) ≡ commit (message_writes message) m p
  unfolding run_message message_writes commit
  run_message-commit = elim (Bool-cases (first_word message === insert_word)) [
    | inl e ↦ rw e (insert_command-commit (second_word message) (third_word message))
    | inr e ↦ elim (Bool-cases (first_word message === get_word)) [
      | inl e' ↦ rw (e, e') (get_command-commit (second_word message))
      | inr e' ↦ elim (Bool-cases (first_word message === delete_word)) [
        | inl e'' ↦ rw (e, e', e'') (delete_command-commit (second_word message))
        | inr e'' ↦ rw (e, e', e'')
      ]
    ]
  ]
