-- ===== src/Server/Protocol.antt =====
-- The protocol that src/Server/Server.cpp serves, from the text of a request to its response: the
-- requests of README.md, `INSERT key value`, `GET key` and `DELETE key`, each ended by a newline.
use kv_database.Prelude.{
  Bool-cases, inl, inr, ℕ, ◌≡◌, refl, sym, ◌∙◌, true, [], ◌∷◌, ◌++◌, arith, Bytes, ◌===◌,
  if◌then◌else◌, insert_word, get_word, delete_word, newline, space,
}
use kv_database.Result.{ok}
use kv_database.HashMap.{HashMap}
use kv_database.HashMap.Map.{IsValid, insert-Writes, remove-Writes, get-view, view}
use kv_database.Persistence.{Persistence}
use kv_database.Stream.{is_space, read_word}
use kv_database.Stream.Words.{IsWord, read_word-append, read_word-space}
use kv_database.Server.{
  Outcome, insert_command, get_command, delete_command, run_message, insert_response,
  delete_response, missing_response,
}
use kv_database.Server.Command.{inserted, deleted}
use kv_database.Server.Responses.{found_response, get_reply, get_response-or_empty}

-- The requests, as a client writes them, and the bytes that follow them in the buffer.
abbrev pub insert_request : Bytes → Bytes → Bytes → Bytes
insert_request key value rest = insert_word ++ space ∷ (key ++ space ∷ (value ++ newline ∷ rest))

abbrev pub get_request : Bytes → Bytes → Bytes
get_request key rest = get_word ++ space ∷ (key ++ newline ∷ rest)

abbrev pub delete_request : Bytes → Bytes → Bytes
delete_request key rest = delete_word ++ space ∷ (key ++ newline ∷ rest)

-- A word behind a space and before another.
read_word-between :
    (w : Bytes) (c : ℕ) (rest : Bytes)
    → IsWord w
    → is_space c ≡ true
    → read_word (space ∷ (w ++ c ∷ rest)) ≡ (w, c ∷ rest)
unfolding is_space
read_word-between w c rest h e =
    read_word-space space (w ++ c ∷ rest) refl ∙ read_word-append w c rest h e

module _ (m : HashMap) (p : Persistence) (key : Bytes) (hk : IsWord key) (rest : Bytes) where
  run-insert_request :
      (value : Bytes)
      → IsWord value
      → run_message (insert_request key value rest) m p ≡ insert_command key value m p
  unfolding run_message is_space ◌===◌
  run-insert_request value hv = rw (
    read_word-append insert_word space (key ++ space ∷ (value ++ newline ∷ rest))
        (record { nonempty = λ e. cc; token = ground arith }) refl,
    read_word-between key space (value ++ newline ∷ rest) hk refl,
    read_word-between value newline rest hv refl,
  )

  run-get_request : run_message (get_request key rest) m p ≡ get_command key m p
  unfolding run_message is_space ◌===◌
  run-get_request = rw (
    read_word-append get_word space (key ++ newline ∷ rest)
        (record { nonempty = λ e. cc; token = ground arith }) refl,
    read_word-between key newline rest hk refl,
  )

  run-delete_request : run_message (delete_request key rest) m p ≡ delete_command key m p
  unfolding run_message is_space ◌===◌
  run-delete_request = rw (
    read_word-append delete_word space (key ++ newline ∷ rest)
        (record { nonempty = λ e. cc; token = ground arith }) refl,
    read_word-between key newline rest hk refl,
  )

-- On a valid map, an INSERT request of two words succeeds, and after it a GET of a word is
-- answered under the written key with the line for a value that holds the new value, and under any
-- other key with that line for the value of the old map or, if that is missing or empty, with the
-- line for a missing key, whatever follows the two requests in the buffer.
pub get-insert :
    (m : HashMap) (p : Persistence) (key value q rest rest' : Bytes)
    → IsValid m
    → IsWord key
    → IsWord value
    → IsWord q
    → (done : Outcome) × (run_message (insert_request key value rest) m p ≡ ok done)
      × (done.response ≡ insert_response)
      × (run_message (get_request q rest') done.hash_map done.pers
          ≡ ok (record done {
            response = if key === q then found_response value else get_reply (view m q);
          }))
unfolding insert_command get_command get_reply
get-insert m p key [] q rest rest' valid hk hv hq = absurd (hv.nonempty refl)
get-insert m p key (c ∷ v) q rest rest' valid hk hv hq =
    let w = insert-Writes m key (c ∷ v) valid in
    (
      inserted key (c ∷ v) w.after p,
      run-insert_request m p key hk rest (c ∷ v) hv ∙ rw w.returns,
      refl,
      run-get_request w.after _ q hq rest'
          ∙ rw (get-view w.after q w.valid, get_response-or_empty, w.reads q)
              (elim (Bool-cases (key === q)) [ inl e ↦ rw e refl | inr e ↦ rw e refl ]),
    )

-- On a valid map, a DELETE request of a word succeeds, and after it a GET of a word is answered
-- under that key with the line for a missing key, and under any other key with the line for the
-- value of the old map or, if that is missing or empty, with the line for a missing key, whatever
-- follows the two requests in the buffer.
pub get-delete :
    (m : HashMap) (p : Persistence) (key q rest rest' : Bytes)
    → IsValid m
    → IsWord key
    → IsWord q
    → (done : Outcome) × (run_message (delete_request key rest) m p ≡ ok done)
      × (done.response ≡ delete_response)
      × (run_message (get_request q rest') done.hash_map done.pers
          ≡ ok (record done {
            response = if key === q then missing_response else get_reply (view m q);
          }))
unfolding delete_command get_command get_reply
get-delete m p key q rest rest' valid hk hq =
    let w = remove-Writes m key valid in
    (
      deleted key w.after p,
      run-delete_request m p key hk rest ∙ rw w.returns,
      refl,
      run-get_request w.after _ q hq rest'
          ∙ rw (get-view w.after q w.valid, get_response-or_empty, w.reads q)
              (elim (Bool-cases (key === q)) [ inl e ↦ rw e refl | inr e ↦ rw e refl ]),
    )

-- An INSERT line of a key that is a word, without a value and before a line that begins with a
-- word, acts as an INSERT of the first word of the next line.
pub insert_crosses_lines :
    (m : HashMap) (p : Persistence) (key next rest : Bytes)
    → IsWord key
    → IsWord next
    → run_message (insert_word ++ space ∷ (key ++ newline ∷ (next ++ newline ∷ rest))) m p
      ≡ run_message (insert_request key next []) m p
unfolding run_message is_space ◌===◌
insert_crosses_lines m p key next rest hk hn =
    rw
      (
        read_word-append insert_word space (key ++ newline ∷ (next ++ newline ∷ rest))
            (record { nonempty = λ e. cc; token = ground arith }) refl,
        read_word-between key newline (next ++ newline ∷ rest) hk refl,
        read_word-space newline (next ++ newline ∷ rest) refl,
        read_word-append next newline rest hn refl,
      )
      (sym (run-insert_request m p key hk [] next hn))
