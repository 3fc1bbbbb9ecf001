-- ===== src/EventLoop/Iocp.antt =====
-- src/Networking/IocpEventLoop.h and IocpEventLoop.cpp: the Windows event loop, over a completion
-- port, which is a parameter. A context holds the memory of a receive of no bytes; here it is the
-- socket that it is kept under.
use kv_database.Prelude.{
  ℕ, ◌≡◌, refl, Bool, true, false, Option, none, some, List, [], ◌∷◌, arith, ◌==◌, ==_iff,
  if◌then◌else◌,
}
use kv_database.EventLoop.{EventLoopEntry, readable, error}

-- What `GetQueuedCompletionStatus` reports: nothing (its overlapped pointer is null), or that a receive on a
-- socket has ended, with success or without.
pub data Completion : Type 0 where
  nothing : Completion
  ended : (sock : ℕ) (success : Bool) → Completion

-- The calls of a completion port, and what their manual pages say. `pending` says that a receive was
-- posted on a socket and has not ended.
pub record Port (K : Type 0) : Type 0 where
  pub associate : ℕ → K → K
  -- `WSARecv`, and whether the receive was started
  pub post_recv : ℕ → K → Bool × K
  pub dequeue : K → Completion × K
  pub pending : ℕ → K → Bool
  -- "a value of zero or WSA_IO_PENDING indicates that the overlapped operation has been initiated"
  pub post_recv-pending :
      (sock : ℕ) (k : K) → (post_recv sock k).0 ≡ true → pending sock (post_recv sock k).1 ≡ true

pub record IocpEventLoop (K : Type 0) : Type 0 where
  pub iocp_handle : K
  pub contexts : List ℕ

-- `contexts.find(sock) != contexts.end()`
unfoldable pub has_context : ℕ → List ℕ → Bool
has_context sock [] = false
has_context sock (x ∷ xs) = if x == sock then true else has_context sock xs

-- `contexts[sock] = …`
unfoldable pub put_context : ℕ → List ℕ → List ℕ
unfolding has_context
put_context sock xs = if has_context sock xs then xs else sock ∷ xs

-- `contexts.erase(sock)`
unfoldable pub erase_context : ℕ → List ℕ → List ℕ
erase_context sock [] = []
erase_context sock (x ∷ xs) =
    let rest = erase_context sock xs in if x == sock then rest else x ∷ rest

has_context-erase_context :
    (sock : ℕ) (xs : List ℕ) → has_context sock (erase_context sock xs) ≡ false
unfolding has_context erase_context
has_context-erase_context sock [] = refl
has_context-erase_context sock (x ∷ xs) = ground (arith, has_context-erase_context sock xs)

has_context-put_context : (sock : ℕ) (xs : List ℕ) → has_context sock (put_context sock xs) ≡ true
unfolding put_context
has_context-put_context sock xs = ground (arith, ==_iff sock sock)

module _ {K : Type 0} ⦃port : Port K⦄ where
  -- What `WSARecv` returns is not looked at.
  unfoldable pub arm_read : ℕ → IocpEventLoop K → IocpEventLoop K
  arm_read sock l =
      if has_context sock l.contexts
      then record l { iocp_handle = (port.post_recv sock l.iocp_handle).1 }
      else l

  unfoldable pub add : ℕ → IocpEventLoop K → IocpEventLoop K
  unfolding arm_read put_context
  add sock l = arm_read sock (record {
    iocp_handle = port.associate sock l.iocp_handle;
    contexts = put_context sock l.contexts;
  })

  unfoldable pub remove : ℕ → IocpEventLoop K → IocpEventLoop K
  unfolding erase_context
  remove sock l = record l { contexts = erase_context sock l.contexts }

  -- `wait`: the state after it, and the entries that it put into `out`, `none` for -1.
  unfoldable pub wait : IocpEventLoop K → IocpEventLoop K × Option (List EventLoopEntry)
  wait l =
      let (completion, k) = port.dequeue l.iocp_handle in
      let l' = record l { iocp_handle = k } in
      elim completion [
        | nothing ↦ (l', none)
        | ended sock success ↦
            (l', some (record { socket = sock; event = if success then readable else error } ∷ []))
      ]

  unfoldable pub rearm : ℕ → IocpEventLoop K → Bool × IocpEventLoop K
  unfolding arm_read
  rearm sock l = (true, arm_read sock l)

  -- Under the Windows loop a rearm of a socket that was removed reports success and changes
  -- nothing; the removal has freed the socket's context and left a receive that was pending as it
  -- was.
  pub rearm-remove :
      (sock : ℕ) (l : IocpEventLoop K)
      → (rearm sock (remove sock l) ≡ (true, remove sock l))
        × (has_context sock (remove sock l).contexts ≡ false)
        × (port.pending sock (remove sock l).iocp_handle ≡ port.pending sock l.iocp_handle)
  unfolding rearm remove
  rearm-remove sock l = (
    rw (has_context-erase_context sock l.contexts),
    has_context-erase_context sock l.contexts,
    refl,
  )

  -- A socket that was added, with a receive that was started, is watched, and again after `rearm`.
  pub add-pending :
      (sock : ℕ) (l : IocpEventLoop K)
      → (port.post_recv sock (port.associate sock l.iocp_handle)).0 ≡ true
      → (has_context sock (add sock l).contexts ≡ true)
        × (port.pending sock (add sock l).iocp_handle ≡ true)
  unfolding add arm_read
  add-pending sock l posted = rw (has_context-put_context sock l.contexts) (
    has_context-put_context sock l.contexts,
    port.post_recv-pending sock (port.associate sock l.iocp_handle) posted,
  )

  pub rearm-pending :
      (sock : ℕ) (l : IocpEventLoop K)
      → has_context sock l.contexts ≡ true
      → (port.post_recv sock l.iocp_handle).0 ≡ true
      → port.pending sock (rearm sock l).1.iocp_handle ≡ true
  unfolding rearm
  rearm-pending sock l known posted = rw known (port.post_recv-pending sock l.iocp_handle posted)
