-- ===== src/Server/Responses.antt =====
-- src/Server/Server.cpp, the command part of `messageHandler` against a server of one abstract map: what
-- the client is told.
use kv_database.Prelude.{
  ◌++◌, codes, newline, Option, none, some, ◌≡◌, refl, [], ◌∷◌, Bytes, if◌then◌else◌, ◌===◌,
  Bool-cases, inl, inr, insert_word, get_word, delete_word,
}
use kv_database.Result.{Result, ok}
use kv_database.HashMap.{HashMap}
use kv_database.HashMap.Chain.{or_empty}
use kv_database.HashMap.Map.{Map, IsValid, insert-Writes, remove-Writes, get-view, view}
use kv_database.Persistence.{Persistence}
use kv_database.Server.{
  Outcome, insert_command, get_command, delete_command, run_message, get_response, insert_response,
  delete_response, missing_response, empty_value_response, unknown_response,
}
use kv_database.Server.Command.{first_word, second_word, third_word, inserted, deleted}

-- The response to an INSERT with this value.
unfoldable pub insert_reply : Bytes → Bytes
insert_reply [] = empty_value_response
insert_reply (c ∷ v) = insert_response

-- The line for a value, and the reply to a GET: the value of the map, with the empty string for none.
unfoldable pub found_response : Bytes → Bytes
found_response value = codes "Get command was successful: " ++ (value ++ newline ∷ [])

unfoldable pub get_reply : Option Bytes → Bytes
unfolding found_response
get_reply none = missing_response
get_reply (some []) = missing_response
get_reply (some (c ∷ v)) = found_response (c ∷ v)

pub get_response-or_empty : (v : Option Bytes) → get_response (or_empty v) ≡ get_reply v
unfolding get_reply found_response
get_response-or_empty none = refl
get_response-or_empty (some []) = refl
get_response-or_empty (some (c ∷ v)) = refl

-- The response that a map calls for.
unfoldable pub respond : Bytes → Map → Bytes
unfolding insert_reply get_reply
respond message f =
    if first_word message === insert_word
    then insert_reply (third_word message)
    else if first_word message === get_word
    then get_reply (f (second_word message))
    else if first_word message === delete_word
    then delete_response
    else unknown_response

-- Maps that agree call for one response.
pub respond_congr :
    (message : Bytes) (f g : Map)
    → ((q : Bytes) → f q ≡ g q)
    → respond message f ≡ respond message g
unfolding respond
respond_congr message f g h = rw (h (second_word message))

-- The command returned with this response.
pub record Tells (response : Bytes) (r : Result Outcome) : Type 0 where
  pub done : Outcome
  pub returns : r ≡ ok done
  pub tells : done.response ≡ response

module _ (message : Bytes) (m : HashMap) (p : Persistence) (valid : IsValid m) where
  insert_command-Tells :
      (key value : Bytes) → Tells (insert_reply value) (insert_command key value m p)
  unfolding insert_command insert_reply
  insert_command-Tells key [] = record { done = _; returns = refl; tells = refl }
  insert_command-Tells key (c ∷ v) =
      let w = insert-Writes m key (c ∷ v) valid in
      record { done = inserted key (c ∷ v) w.after p; returns = rw w.returns; tells = refl }

  get_command-Tells : (key : Bytes) → Tells (get_reply (view m key)) (get_command key m p)
  unfolding get_command
  get_command-Tells key = record {
    done = record { hash_map = m; pers = p; response = get_response (or_empty (view m key)) };
    returns = rw (get-view m key valid);
    tells = get_response-or_empty (view m key);
  }

  delete_command-Tells : (key : Bytes) → Tells delete_response (delete_command key m p)
  unfolding delete_command
  delete_command-Tells key =
      let w = remove-Writes m key valid in
      record { done = deleted key w.after p; returns = rw w.returns; tells = refl }

  pub run_message-Tells : Tells (respond message (view m)) (run_message message m p)
  unfolding run_message respond
  run_message-Tells = elim (Bool-cases (first_word message === insert_word)) [
    | inl e ↦ rw e (insert_command-Tells (second_word message) (third_word message))
    | inr e ↦ elim (Bool-cases (first_word message === get_word)) [
      | inl e' ↦ rw (e, e') (get_command-Tells (second_word message))
      | inr e' ↦ elim (Bool-cases (first_word message === delete_word)) [
        | inl e'' ↦ rw (e, e', e'') (delete_command-Tells (second_word message))
        | inr e'' ↦ rw (e, e', e'') (record { done = _; returns = refl; tells = refl })
      ]
    ]
  ]
