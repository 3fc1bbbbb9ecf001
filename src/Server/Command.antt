-- ===== src/Server/Command.antt =====
-- src/Server/Server.cpp, the command part of `messageHandler`: what a message does to the database
-- and what the client is told.
use kv_database.Prelude.{
  ◌≡◌, refl, [], ◌∷◌, Bytes, ◌===◌, Bool-cases, inl, inr, insert_word, get_word, delete_word,
}
use kv_database.Result.{Result, ok}
use kv_database.HashMap.{HashMap}
use kv_database.HashMap.Chain.{or_empty}
use kv_database.HashMap.Map.{insert-Writes, remove-Writes, get-view, view}
use kv_database.Persistence.{Persistence, append_to_log}
use kv_database.Persistence.Durable.{IsDurable, insert-IsDurable, remove-IsDurable}
use kv_database.Stream.{read_word}
use kv_database.Stream.Words.{IsToken, read_word-IsToken, read_word-nothing}
use kv_database.Server.{
  Outcome, insert_command, get_command, delete_command, run_message, get_response, insert_response,
  delete_response, empty_value_response, unknown_response,
}

abbrev pub first_word : Bytes → Bytes
first_word message = (read_word message).0

abbrev pub second_word : Bytes → Bytes
second_word message = (read_word (read_word message).1).0

abbrev pub third_word : Bytes → Bytes
third_word message = (read_word (read_word (read_word message).1).1).0

-- If there is no key there is no value.
pub third-empty : (message : Bytes) → second_word message ≡ [] → third_word message ≡ []
third-empty message e = read_word-nothing (read_word message).1 e

-- The command returned, and what it leaves is durable.
pub record Serves (r : Result Outcome) : Type 0 where
  pub done : Outcome
  pub returns : r ≡ ok done
  pub durable : IsDurable done.hash_map done.pers

abbrev pub inserted : Bytes → Bytes → HashMap → Persistence → Outcome
inserted key value m' p = record {
  hash_map = m';
  pers = append_to_log insert_word key value p;
  response = insert_response;
}

abbrev pub deleted : Bytes → HashMap → Persistence → Outcome
deleted key m' p = record {
  hash_map = m';
  pers = append_to_log delete_word key [] p;
  response = delete_response;
}

insert_command-Serves :
    (key value : Bytes) (m : HashMap) (p : Persistence)
    → IsToken key
    → IsToken value
    → (key ≡ [] → value ≡ [])
    → IsDurable m p
    → Serves (insert_command key value m p)
unfolding insert_command
insert_command-Serves key [] m p hk hv last d = record {
  done = record { hash_map = m; pers = p; response = empty_value_response };
  returns = refl;
  durable = d;
}
insert_command-Serves key (c ∷ v) m p hk hv last d =
    let w = insert-Writes m key (c ∷ v) d.valid in
    record {
      done = inserted key (c ∷ v) w.after p;
      returns = rw w.returns;
      durable =
          insert-IsDurable m w.after p key (c ∷ v)
            (record { nonempty = λ e. cc (last e); token = hk })
            (record { nonempty = λ e. cc; token = hv }) d w.returns;
    }

get_command-Serves :
    (key : Bytes) (m : HashMap) (p : Persistence) → IsDurable m p → Serves (get_command key m p)
unfolding get_command
get_command-Serves key m p d = record {
  done = record { hash_map = m; pers = p; response = get_response (or_empty (view m key)) };
  returns = rw (get-view m key d.valid);
  durable = d;
}

delete_command-Serves :
    (key : Bytes) (m : HashMap) (p : Persistence)
    → IsToken key
    → IsDurable m p
    → Serves (delete_command key m p)
unfolding delete_command
delete_command-Serves key m p hk d =
    let w = remove-Writes m key d.valid in
    record {
      done = deleted key w.after p;
      returns = rw w.returns;
      durable = remove-IsDurable m w.after p key hk d w.returns;
    }

-- Whatever bytes a message has, the command part of the handler returns on a durable database and
-- leaves it durable.
pub run_message-Serves :
    (message : Bytes) (m : HashMap) (p : Persistence)
    → IsDurable m p
    → Serves (run_message message m p)
unfolding run_message
run_message-Serves message m p d =
    let key = second_word message in
    elim (Bool-cases (first_word message === insert_word)) [
      | inl e ↦ rw e (
          insert_command-Serves key (third_word message) m p (read_word-IsToken _)
            (read_word-IsToken _) (third-empty message) d)
      | inr e ↦ elim (Bool-cases (first_word message === get_word)) [
        | inl e' ↦ rw (e, e') (get_command-Serves key m p d)
        | inr e' ↦ elim (Bool-cases (first_word message === delete_word)) [
          | inl e'' ↦ rw (e, e', e'') (delete_command-Serves key m p (read_word-IsToken _) d)
          | inr e'' ↦
              rw (e, e', e'')
                (record {
                  done = record { hash_map = m; pers = p; response = unknown_response };
                  returns = refl;
                  durable = d;
                })
        ]
      ]
    ]
