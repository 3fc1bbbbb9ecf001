-- ===== src/EventLoop/Epoll/OneShot/Exclusive.antt =====
-- src/Networking/EpollEventLoop.cpp with the jobs of src/Server/Server.cpp: a socket has one job at
-- a time.
use kv_database.Prelude.{
  ℕ, ◌≡◌, refl, ap, ◌⊎◌, inl, inr, true, false, none, some, List, [], ◌∷◌, ◌++◌, arith, ◌==◌,
  ==_iff, Bool-cases, Option-cases, contains-apart, contains, NoRepeat, contains-append,
  NoRepeat-append, contains-without, NoRepeat-without, All, All-contains,
}
use mathlib.Core.Path.{subst}
use mathlib.Core.Option.{some-injective}
use kv_database.EventLoop.{EventLoopEntry}
use kv_database.EventLoop.Epoll.{Epoll, read_once, entries_of, add, remove, rearm, wait}
use kv_database.EventLoop.Epoll.OneShot.{
  sockets_of, descriptors, is_once, OneShot, Flight, Step, adds, reports, fails, rearms, closes,
  ends, expires, Reach, here, next, IsMuted,
}

sockets_of-entries_of : (ready : List (ℕ × ℕ)) → sockets_of (entries_of ready) ≡ descriptors ready
unfolding entries_of
sockets_of-entries_of [] = refl
sockets_of-entries_of ((fd, events) ∷ rest) =
    ap (λ (xs : List ℕ). fd ∷ xs) (sockets_of-entries_of rest)

module _ {K : Type 0} ⦃epoll : Epoll K⦄ where
  -- No socket has two jobs, and a socket with a job is not reported.
  record IsExclusive (f : Flight K) : Type 0 where
    apart : NoRepeat f.jobs
    muted : (sock : ℕ) → contains sock f.jobs ≡ true → IsMuted f.kernel sock
    once : (sock : ℕ) → is_once (epoll.interest sock f.kernel) ≡ true

  wait-kernel : (k : K) → (wait k).0 ≡ (epoll.epoll_wait k).0
  unfolding wait
  wait-kernel k = elim (Option-cases (epoll.epoll_wait k).1) [
    | inl e ↦ rw (e, wait) refl
    | inr (ready, e) ↦ rw (e, wait) refl
  ]

  wait-ready :
      (k : K) (entries : List EventLoopEntry)
      → (wait k).1 ≡ some entries
      → ((wait k).0 ≡ (epoll.epoll_wait k).0)
        × ((ready : List (ℕ × ℕ)) × ((epoll.epoll_wait k).1 ≡ some ready)
            × (entries ≡ entries_of ready))
  unfolding wait
  wait-ready k entries got = elim (Option-cases (epoll.epoll_wait k).1) [
    | inl e ↦ absurd (ground (arith, e, got))
    | inr (ready, e) ↦ (wait-kernel k, (ready, e, some-injective _ _ (ground (arith, e, got))))
  ]

  module _ (laws : OneShot K) where
    del-IsMuted : (sock other : ℕ) (k : K) → IsMuted k other → IsMuted (remove sock k) other
    unfolding remove
    del-IsMuted sock other k h = elim (Bool-cases (sock == other)) [
      | inl e ↦
          subst (λ (o : ℕ). IsMuted (epoll.ctl_del sock k) o) ((==_iff sock other).0 e)
            (rw (epoll.ctl_del-interest sock k) refl)
      | inr e ↦ rw (laws.ctl_del-other sock other k e) h
    ]

    -- A call for one descriptor that sets `read_once` there, removes it, or fails.
    call-once :
        (sock : ℕ) (k k' : K)
        → ((other : ℕ) → (sock == other) ≡ false → epoll.interest other k' ≡ epoll.interest other k)
        → is_once (epoll.interest sock k') ≡ true
        → ((other : ℕ) → is_once (epoll.interest other k) ≡ true)
        → (other : ℕ) → is_once (epoll.interest other k') ≡ true
    call-once sock k k' others same h other = elim (Bool-cases (sock == other)) [
      | inl e ↦
          subst (λ (o : ℕ). is_once (epoll.interest o k') ≡ true) ((==_iff sock other).0 e) same
      | inr e ↦ rw (others other e) (h other)
    ]

    set-once :
        (sock : ℕ) (k k' : K)
        → (epoll.interest sock k' ≡ some read_once)
          ⊎ (epoll.interest sock k' ≡ epoll.interest sock k)
        → is_once (epoll.interest sock k) ≡ true
        → is_once (epoll.interest sock k') ≡ true
    set-once sock k k' (inl e) h = rw e refl
    set-once sock k k' (inr e) h = rw e h

    remove-once :
        (sock : ℕ) (k : K)
        → ((other : ℕ) → is_once (epoll.interest other k) ≡ true)
        → (other : ℕ) → is_once (epoll.interest other (remove sock k)) ≡ true
    unfolding remove
    remove-once sock k h =
        call-once sock k _ (λ other e. laws.ctl_del-other sock other k e)
          (rw (epoll.ctl_del-interest sock k) refl) h

    Step-IsExclusive : {a b : Flight K} → IsExclusive a → Step a b → IsExclusive b
    unfolding add rearm
    Step-IsExclusive {a} h (adds sock new e) = rw e (record {
      apart = h.apart;
      muted = λ other inside.
          rw
            (laws.ctl_add-other sock other read_once a.kernel
              (contains-apart sock other a.jobs new inside))
            (h.muted other inside);
      once =
          call-once sock a.kernel _ (λ other e. laws.ctl_add-other sock other read_once a.kernel e)
            (set-once sock a.kernel _ (laws.ctl_add-same sock read_once a.kernel) (h.once sock))
            h.once;
    })
    Step-IsExclusive {a} h (reports entries got e) =
        let (kernel, (ready, reported, same)) = wait-ready a.kernel entries got in
        rw (e, kernel, same, sockets_of-entries_of ready)
          (record {
            apart =
                NoRepeat-append (descriptors ready) a.jobs (laws.once a.kernel ready reported)
                  h.apart
                  (λ sock inside. elim (Bool-cases (contains sock a.jobs)) [
                    | inl both ↦ absurd (
                        ground (
                          arith,
                          h.muted sock both,
                          laws.reported a.kernel ready sock reported inside,
                        ))
                    | inr out ↦ out
                  ]);
            muted = λ sock inside. elim (Bool-cases (contains sock (descriptors ready))) [
              | inl e ↦ laws.disabled a.kernel ready sock reported e (h.once sock)
              | inr e ↦ laws.wait-reading a.kernel sock (
                  h.muted sock
                    (ground (arith, e, inside, contains-append sock (descriptors ready) a.jobs)))
            ];
            once = λ sock. laws.wait-once a.kernel sock (h.once sock);
          })
    Step-IsExclusive {a} h (fails got e) =
        rw (e, wait-kernel a.kernel)
          (record {
            apart = h.apart;
            muted = λ sock inside. laws.wait-reading a.kernel sock (h.muted sock inside);
            once = λ sock. laws.wait-once a.kernel sock (h.once sock);
          })
    Step-IsExclusive {a} h (rearms before after sock split e) =
        let (rest, out) = NoRepeat-without sock before after (subst NoRepeat split h.apart) in
        rw e (record {
          apart = rest;
          muted = λ other inside.
              rw
                (laws.ctl_mod-other sock other read_once a.kernel
                  (contains-apart sock other (before ++ after) out inside))
                (h.muted other (rw split (contains-without other sock before after inside)));
          once =
              call-once sock a.kernel _
                (λ other e. laws.ctl_mod-other sock other read_once a.kernel e)
                (set-once sock a.kernel _ (laws.ctl_mod-same sock read_once a.kernel) (h.once sock))
                h.once;
        })
    Step-IsExclusive {a} h (closes before after sock split e) =
        let (rest, out) = NoRepeat-without sock before after (subst NoRepeat split h.apart) in
        rw e (record {
          apart = rest;
          muted = λ other inside.
              del-IsMuted sock other a.kernel
                (h.muted other (rw split (contains-without other sock before after inside)));
          once = remove-once sock a.kernel h.once;
        })
    Step-IsExclusive {a} h (ends before after sock split e) =
        let (rest, out) = NoRepeat-without sock before after (subst NoRepeat split h.apart) in
        rw e (record {
          apart = rest;
          muted = λ other inside.
              h.muted other (rw split (contains-without other sock before after inside));
          once = h.once;
        })
    Step-IsExclusive {a} h (expires sock e) = rw e (record {
      apart = h.apart;
      muted = λ other inside. del-IsMuted sock other a.kernel (h.muted other inside);
      once = remove-once sock a.kernel h.once;
    })

    Reach-IsExclusive : {a b : Flight K} → IsExclusive a → Reach a b → IsExclusive b
    Reach-IsExclusive h here = h
    Reach-IsExclusive h (next r s) = Step-IsExclusive (Reach-IsExclusive h r) s

    -- In any run of the Linux loop from an empty interest list and no jobs, with a kernel that
    -- keeps what the manual pages say of EPOLLONESHOT, if no socket is accepted under the number
    -- of a job, then no socket has two jobs at a time, and no socket with a job is enabled for a
    -- report.
    pub Reach-Exclusive :
        (a b : Flight K)
        → a.jobs ≡ []
        → ((sock : ℕ) → epoll.interest sock a.kernel ≡ none)
        → Reach a b
        → NoRepeat b.jobs × All (IsMuted b.kernel) b.jobs
    Reach-Exclusive a b none_yet empty r =
        let h =
          Reach-IsExclusive
            (record {
              apart = rw none_yet tt;
              muted = λ sock inside. absurd (ground (arith, none_yet, inside));
              once = λ sock. rw (empty sock) refl;
            })
            r in
        (h.apart, All-contains (IsMuted b.kernel) b.jobs h.muted)
