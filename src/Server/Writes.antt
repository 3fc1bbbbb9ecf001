-- ===== src/Server/Writes.antt =====
-- src/Server/Server.cpp, the command part of `messageHandler` from the client's side: what a
-- message asks to be written, and the map after it.
use kv_database.Prelude.{
  ℕ, ◌≡◌, refl, ap, sym, ◌∙◌, List, [], ◌∷◌, ◌++◌, Bytes, if◌then◌else◌, ◌===◌, Bool-cases, inl,
  inr, length, ltb, All, insert_word, get_word, delete_word, append_assoc,
}
use kv_database.Result.{Result, ok, ok-injective}
use mathlib.Core.Path.{subst}
use kv_database.HashMap.{HashMap}
use kv_database.HashMap.Map.{IsValid, insert-Writes, remove-Writes, get-view, view}
use kv_database.Persistence.{Persistence}
use kv_database.Persistence.Records.{Record, put, del, IsPrintable, apply, replay}
use kv_database.Server.{
  Outcome, max_command_buffer_length, has_newline, insert_command, get_command, delete_command,
  run_message,
}
use kv_database.Server.Command.{first_word, second_word, third_word, third-empty}
use kv_database.Stream.Words.{IsToken, read_word-IsToken}

-- An INSERT without a value writes nothing.
unfoldable pub insert_writes : Bytes → Bytes → List Record
insert_writes key [] = []
insert_writes key (c ∷ v) = put key (c ∷ v) ∷ []

-- What a message asks to be written.
unfoldable pub message_writes : Bytes → List Record
unfolding insert_writes
message_writes message =
    if first_word message === insert_word
    then insert_writes (second_word message) (third_word message)
    else if first_word message === get_word
    then []
    else if first_word message === delete_word
    then del (second_word message) ∷ []
    else []

insert_writes-IsPrintable :
    (key value : Bytes)
    → IsToken key
    → IsToken value
    → (key ≡ [] → value ≡ [])
    → All IsPrintable (insert_writes key value)
unfolding insert_writes
insert_writes-IsPrintable key [] hk hv last = tt
insert_writes-IsPrintable key (c ∷ v) hk hv last = (
  (record { nonempty = λ e. cc (last e); token = hk }, record { nonempty = λ e. cc; token = hv }),
  tt,
)

pub message_writes-IsPrintable : (message : Bytes) → All IsPrintable (message_writes message)
unfolding message_writes
message_writes-IsPrintable message = elim (Bool-cases (first_word message === insert_word)) [
  | inl e ↦ rw e (
      insert_writes-IsPrintable (second_word message) (third_word message) (read_word-IsToken _)
        (read_word-IsToken _) (third-empty message))
  | inr e ↦ elim (Bool-cases (first_word message === get_word)) [
    | inl e' ↦ rw (e, e') tt
    | inr e' ↦ elim (Bool-cases (first_word message === delete_word)) [
      | inl e'' ↦ rw (e, e', e'') (read_word-IsToken _, tt)
      | inr e'' ↦ rw (e, e', e'') tt
    ]
  ]
]

abbrev pub all_writes : List (ℕ × Bytes) → List Record
all_writes [] = []
all_writes ((sock, m) ∷ ms) = message_writes m ++ all_writes ms

pub all_writes-append :
    (ms ns : List (ℕ × Bytes)) → all_writes (ms ++ ns) ≡ all_writes ms ++ all_writes ns
all_writes-append [] ns = refl
all_writes-append ((sock, m) ∷ ms) ns =
    ap (λ (rs : List Record). message_writes m ++ rs) (all_writes-append ms ns)
    ∙ sym (append_assoc (message_writes m) (all_writes ms) (all_writes ns))

-- The buffer of a socket is a complete message if it holds a newline and is not too long.
unfoldable pub complete : ℕ → Bytes → List (ℕ × Bytes)
complete sock buffer =
    if ltb max_command_buffer_length (length buffer)
    then []
    else if has_newline buffer
    then (sock, buffer) ∷ []
    else []

module _ (message : Bytes) (m : HashMap) (p : Persistence) (valid : IsValid m) where
  -- The map after the command.
  abbrev Reads : Result Outcome → List Record → Type 0
  Reads r writes =
      (done : Outcome) → r ≡ ok done → (q : Bytes) → view done.hash_map q ≡ replay writes (view m) q

  ok-Reads :
      (o : Outcome) (writes : List Record)
      → ((q : Bytes) → view o.hash_map q ≡ replay writes (view m) q)
      → Reads (ok o) writes
  ok-Reads o writes h done e q =
      subst (λ (d : Outcome). view d.hash_map q ≡ replay writes (view m) q) (ok-injective e) (h q)

  insert_command-Reads :
      (key value : Bytes) → Reads (insert_command key value m p) (insert_writes key value)
  unfolding insert_command insert_writes replay apply
  insert_command-Reads key [] = ok-Reads _ [] (λ q. refl)
  insert_command-Reads key (c ∷ v) =
      let w = insert-Writes m key (c ∷ v) valid in
      rw w.returns (ok-Reads _ (put key (c ∷ v) ∷ []) w.reads)

  get_command-Reads : (key : Bytes) → Reads (get_command key m p) []
  unfolding get_command replay
  get_command-Reads key = rw (get-view m key valid) (ok-Reads _ [] (λ q. refl))

  delete_command-Reads : (key : Bytes) → Reads (delete_command key m p) (del key ∷ [])
  unfolding delete_command replay apply
  delete_command-Reads key =
      let w = remove-Writes m key valid in rw w.returns (ok-Reads _ (del key ∷ []) w.reads)

  pub run_message-Reads : Reads (run_message message m p) (message_writes message)
  unfolding run_message message_writes replay
  run_message-Reads = elim (Bool-cases (first_word message === insert_word)) [
    | inl e ↦ rw e (insert_command-Reads (second_word message) (third_word message))
    | inr e ↦ elim (Bool-cases (first_word message === get_word)) [
      | inl e' ↦ rw (e, e') (get_command-Reads (second_word message))
      | inr e' ↦ elim (Bool-cases (first_word message === delete_word)) [
        | inl e'' ↦ rw (e, e', e'') (delete_command-Reads (second_word message))
        | inr e'' ↦ rw (e, e', e'') (ok-Reads _ [] (λ q. refl))
      ]
    ]
  ]
