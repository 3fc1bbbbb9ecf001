-- ===== src/Server/Answers.antt =====
-- src/Server/Server.cpp, `messageHandler` from the client's side: the complete message that a job
-- handles, the map after it, and the response.
use kv_database.Prelude.{
  sym, ◌∙◌, ℕ, ◌≡◌, refl, ap, none, some, List, [], ◌∷◌, ◌++◌, Bytes, Bool-cases, Option-cases, inl,
  inr, length, get_elem?, ltb, set, append-nil,
}
use kv_database.Result.{Result, ok, fault, ◌>>=◌, ok-injective}
use mathlib.Core.Path.{subst}
use kv_database.HashMap.Map.{Map, view, IsValid}
use kv_database.Persistence.Records.{replay, replay-append, replay_congr}
use kv_database.EventLoop.{EventLoop}
use kv_database.Server.{
  Connection, Server, Outcome, Recv, bytes, would_block, recv_error, max_command_buffer_length,
  has_newline, run_message, close_connection, rearm_socket, handle_message, check_buffer,
  with_received, receive, handle_connection, message_handler,
}
use kv_database.Server.Handler.{Leaves, close_connection-Leaves, rearm_socket-Leaves}
use kv_database.Server.Stable.{served}
use kv_database.Server.Writes.{complete, message_writes, all_writes, run_message-Reads}
use kv_database.Server.Responses.{respond, respond_congr, run_message-Tells}

-- The complete message that a job handles, if any, with the socket of its client.
unfoldable pub connection_messages : Recv → Connection → List (ℕ × Bytes)
unfolding complete
connection_messages (bytes []) conn = []
connection_messages (bytes (b ∷ received)) conn =
    complete conn.socket (conn.command_buffer ++ b ∷ received)
connection_messages would_block conn = []
connection_messages recv_error conn = []

-- What the clients of the messages are told, one after the other, by a map that starts as this one.
abbrev pub responses : List (ℕ × Bytes) → Map → List (ℕ × Bytes)
responses [] f = []
responses ((sock, message) ∷ rest) f =
    (sock, respond message f) ∷ responses rest (replay (message_writes message) f)

pub responses_congr :
    (ms : List (ℕ × Bytes)) (f g : Map)
    → ((q : Bytes) → f q ≡ g q)
    → responses ms f ≡ responses ms g
responses_congr [] f g same = refl
responses_congr ((sock, m) ∷ ms) f g same =
    rw (respond_congr m f g same, responses_congr ms _ _ (replay_congr (message_writes m) f g same))
      refl

pub responses-append :
    (ms ns : List (ℕ × Bytes)) (f : Map)
    → responses (ms ++ ns) f ≡ responses ms f ++ responses ns (replay (all_writes ms) f)
unfolding replay
responses-append [] ns f = refl
responses-append ((sock, m) ∷ ms) ns f =
    rw
      (
        replay-append (message_writes m) (all_writes ms) f,
        responses-append ms ns (replay (message_writes m) f),
      )
      refl

module _ {L : Type 0} ⦃loop : EventLoop L⦄ where
  unfoldable pub job_messages : Recv → ℕ → Server L → List (ℕ × Bytes)
  unfolding connection_messages
  job_messages received ref s = elim (get_elem? s.objects ref) [
    | none ↦ []
    | some conn ↦ connection_messages received conn
  ]

  -- From `s` to `t` the messages were written to the map, and each was answered, to its client and as
  -- the map called for then.
  pub record Answers (messages : List (ℕ × Bytes)) (s t : Server L) : Type 0 where
    pub reads : (q : Bytes) → view t.hash_map q ≡ replay (all_writes messages) (view s.hash_map) q
    pub answered : t.sent ≡ s.sent ++ responses messages (view s.hash_map)

  pub quiet-Answers : (s t : Server L) → t.hash_map ≡ s.hash_map → t.sent ≡ s.sent → Answers [] s t
  unfolding replay
  quiet-Answers s t same_map same_sent = record {
    reads = λ q. rw same_map;
    answered = same_sent ∙ sym (append-nil s.sent);
  }

  abbrev AnswersIf : List (ℕ × Bytes) → Server L → Result (Server L) → Type 0
  AnswersIf messages s r = (t : Server L) → r ≡ ok t → Answers messages s t

  ok-Answers :
      (messages : List (ℕ × Bytes)) (s u : Server L)
      → Answers messages s u
      → AnswersIf messages s (ok u)
  ok-Answers messages s u h t e = subst (Answers messages s) (ok-injective e) h

  closes-Answers : (sock : ℕ) (s : Server L) → AnswersIf [] s (ok (close_connection sock s))
  closes-Answers sock s =
      let l = close_connection-Leaves sock s in
      ok-Answers [] s _ (quiet-Answers s _ l.hash_map l.sent)

  rearms-Answers : (sock : ℕ) (s : Server L) → AnswersIf [] s (ok (rearm_socket sock s))
  rearms-Answers sock s =
      let l = rearm_socket-Leaves sock s in ok-Answers [] s _ (quiet-Answers s _ l.hash_map l.sent)

  -- What comes behind the responses leaves them alone.
  Leaves-Answers :
      (messages : List (ℕ × Bytes)) (s t u : Server L)
      → Answers messages s t
      → Leaves t u
      → Answers messages s u
  Leaves-Answers messages s t u h l = record {
    reads = λ q. rw l.hash_map (h.reads q);
    answered = l.sent ∙ h.answered;
  }

  then-Answers :
      (messages : List (ℕ × Bytes)) (s : Server L) (r : Result Outcome)
      (f : Outcome → Result (Server L))
      → ((done : Outcome) → r ≡ ok done → AnswersIf messages s (f done))
      → AnswersIf messages s (r >>= f)
  then-Answers messages s (ok done) f h t e = h done refl t e
  then-Answers messages s (fault x) f h t e = absurd (cc e)

  told :
      (message : Bytes) (s : Server L) (done : Outcome)
      → IsValid s.hash_map
      → run_message message s.hash_map s.pers ≡ ok done
      → done.response ≡ respond message (view s.hash_map)
  told message s done valid run =
      let t = run_message-Tells message s.hash_map s.pers valid in
      ap (λ (o : Outcome). o.response) (ok-injective (sym run ∙ t.returns)) ∙ t.tells

  served-Answers :
      (now ref : ℕ) (conn : Connection) (done : Outcome) (s : Server L)
      → IsValid s.hash_map
      → run_message conn.command_buffer s.hash_map s.pers ≡ ok done
      → Answers ((conn.socket, conn.command_buffer) ∷ []) s (served now ref conn done s)
  served-Answers now ref conn done s valid run = record {
    reads = λ q.
        rw append-nil (run_message-Reads conn.command_buffer s.hash_map s.pers valid done run q);
    answered =
        ap (λ (response : Bytes). s.sent ++ (conn.socket, response) ∷ [])
          (told conn.command_buffer s done valid run);
  }

  handle_message-Answers :
      (now ref : ℕ) (conn : Connection) (s : Server L)
      → IsValid s.hash_map
      → AnswersIf ((conn.socket, conn.command_buffer) ∷ []) s (handle_message now ref conn s)
  unfolding handle_message
  handle_message-Answers now ref conn s valid =
      then-Answers ((conn.socket, conn.command_buffer) ∷ []) s
        (run_message conn.command_buffer s.hash_map s.pers) _
        (λ done run. ok-Answers ((conn.socket, conn.command_buffer) ∷ []) s _ (
          Leaves-Answers ((conn.socket, conn.command_buffer) ∷ []) s (served now ref conn done s) _
            (served-Answers now ref conn done s valid run) (rearm_socket-Leaves conn.socket _)))

  check_buffer-Answers :
      (now ref : ℕ) (conn : Connection) (s : Server L)
      → IsValid s.hash_map
      → AnswersIf (complete conn.socket conn.command_buffer) s (check_buffer now ref conn s)
  unfolding check_buffer complete
  check_buffer-Answers now ref conn s valid =
      elim (Bool-cases (ltb max_command_buffer_length (length conn.command_buffer))) [
        | inl x ↦ rw x (closes-Answers conn.socket s)
        | inr x ↦ elim (Bool-cases (has_newline conn.command_buffer)) [
          | inl y ↦ rw (x, y) (handle_message-Answers now ref conn s valid)
          | inr y ↦ rw (x, y) (rearms-Answers conn.socket s)
        ]
      ]

  -- The changed object plays no part.
  receive-Answers :
      (now ref : ℕ) (conn : Connection) (received : Bytes) (s : Server L)
      → IsValid s.hash_map
      → AnswersIf
          (complete conn.socket (conn.command_buffer ++ received))
          s
          (receive now ref conn received s)
  unfolding receive
  receive-Answers now ref conn received s valid t e =
      let s' = record s { objects = set s.objects ref (with_received conn received) } in
      let a = check_buffer-Answers now ref (with_received conn received) s' valid t e in
      record { reads = a.reads; answered = a.answered }

  handle_connection-Answers :
      (received : Recv) (now ref : ℕ) (conn : Connection) (s : Server L)
      → IsValid s.hash_map
      → AnswersIf (connection_messages received conn) s (handle_connection received now ref conn s)
  unfolding handle_connection connection_messages
  handle_connection-Answers (bytes []) now ref conn s valid = closes-Answers conn.socket s
  handle_connection-Answers (bytes (b ∷ received)) now ref conn s valid =
      receive-Answers now ref conn (b ∷ received) s valid
  handle_connection-Answers would_block now ref conn s valid = rearms-Answers conn.socket s
  handle_connection-Answers recv_error now ref conn s valid = closes-Answers conn.socket s

  pub message_handler-Answers :
      (received : Recv) (now ref : ℕ) (s : Server L)
      → IsValid s.hash_map
      → AnswersIf (job_messages received ref s) s (message_handler received now ref s)
  unfolding message_handler job_messages
  message_handler-Answers received now ref s valid = elim (Option-cases (get_elem? s.objects ref)) [
    | inl e ↦
        rw (e, message_handler, job_messages) (ok-Answers [] s s (quiet-Answers s s refl refl))
    | inr (conn, e) ↦
        rw (e, message_handler, job_messages)
          (handle_connection-Answers received now ref conn s valid)
  ]
