-- ===== src/Kevent/Accept.antt =====
-- What becomes of an accepted connection.
use tag_sim.Common.{ℕ, ◌<◌, ◌≡◌, refl, ap, ◌∙◌, false, some, ◌∷◌, ◌++◌, ℤ, ◌==ℤ◌, length, ==ℤ_refl}
use tag_sim.Machine.{Returned, Returned-bind, Returned-map, ◌>>=◌}
use tag_sim.Kevent.State.{null, Socket, Os, State, Log, calloc, accept, update}
use tag_sim.Kevent.Lifecycle.{dispose, upcall}
use tag_sim.Kevent.Ready.{process_accept_ready, accept_by, accept_with, accepted_socket}
use tag_sim.Kevent.Sockets.{closes, Same, upcall-Same}
use tag_sim.Kevent.Chain.{Cells, has, Chain, Chain-frame, descriptors, spared}
use tag_sim.Kevent.Dispose.{Disposed, dispose-Disposed, last_closed}

module _ (os : Os) where
  -- The address of the new socket, and its contents.
  abbrev pub client_of : State → ℤ
  client_of s = os.sys s.log calloc

  abbrev allocated : State → Log
  allocated s = (calloc, client_of s) ∷ s.log

  abbrev pub connected : State → Socket → Socket
  connected s server =
      accepted_socket (os.sys (allocated s) (accept server.sock)) (os.address (allocated s))

  -- The new socket is in memory, and all else is as it was.
  abbrev opened : State → Socket → State
  opened s server =
      let fd = os.sys (allocated s) (accept server.sock) in
      record s {
        heap = update s.heap (client_of s) (some (connected s server));
        log = (accept server.sock, fd) ∷ allocated s;
      }

  accept_with-Same :
      (proactor p : ℤ) (server : Socket) (cb : ℕ) (s : State)
      → (client_of s ==ℤ null) ≡ false
      → Returned (λ _ t. Same (opened s server) t) (accept_with os proactor p server cb s)
  unfolding accept_with
  accept_with-Same proactor p server cb s got = simp (got) (
      Returned-bind (λ _ t. Same (opened s server) t) (λ _ t. Same (opened s server) t)
        (upcall os proactor _ (opened s server)) _ (upcall-Same os proactor _ (opened s server) tt)
        (λ _ t h. h))

  accept_ready-Same :
      (proactor p : ℤ) (server : Socket) (cb : ℕ) (s : State)
      → (p ==ℤ null) ≡ false
      → s.heap p ≡ some server
      → server.accept_cb ≡ some cb
      → (client_of s ==ℤ null) ≡ false
      → Returned (λ _ t. Same (opened s server) t) (process_accept_ready os proactor p s)
  unfolding process_accept_ready accept_by
  accept_ready-Same proactor p server cb s given at has_cb got =
      simp (given, at, has_cb) (accept_with-Same proactor p server cb s got)

  pub record Leaked (xs : Cells) (server : Socket) (s t : State) : Type 0 where
    pub closed : closes t.log ≡ closes s.log ++ (descriptors xs ++ last_closed s.proactor)
    pub kept : t.heap (client_of s) ≡ some (connected s server)

  Leaked-of :
      (xs : Cells) (server : Socket) {s t u : State}
      → has (client_of s) xs ≡ false
      → Same (opened s server) t
      → Disposed xs t u
      → Leaked xs server s u
  Leaked-of xs server {s} {t} {u} new h k = record {
    closed =
        k.closed
        ∙ ap (λ r. r ++ (descriptors xs ++ last_closed t.proactor)) h.closed
        ∙ ap (λ p. closes s.log ++ (descriptors xs ++ last_closed p)) h.proactor;
    kept =
        k.heap (client_of s)
        ∙ rw new (ap (λ f. f (client_of s)) h.heap ∙ rw (==ℤ_refl (client_of s)) refl);
  }

  -- A socket with an accept callback is ready, the allocator answers with an address that is not null
  -- and not in the chain `xs` of the proactor's sockets, and then the proactor is disposed of, with more
  -- fuel than sockets in the chain: the descriptors closed are those of the chain, the wake pipe and the
  -- queue, whether the connection was accepted or not; so the new socket's descriptor is not closed on
  -- its account, and the new socket is still in memory.
  pub accepted_socket_leaks :
      (fuel : ℕ) (proactor p : ℤ) (server : Socket) (cb : ℕ) (xs : Cells) (s : State)
      → (proactor ==ℤ null) ≡ false
      → (p ==ℤ null) ≡ false
      → s.heap p ≡ some server
      → server.accept_cb ≡ some cb
      → (client_of s ==ℤ null) ≡ false
      → has (client_of s) xs ≡ false
      → Chain s.heap s.proactor.sockets xs
      → length xs < fuel
      → Returned
          (λ _ t. Leaked xs server s t)
          ((process_accept_ready os proactor p >>= λ rc. dispose os fuel proactor) s)
  accepted_socket_leaks fuel proactor p server cb xs s given listed at has_cb got new chain enough =
      Returned-bind (λ _ t. Same (opened s server) t) (λ _ t. Leaked xs server s t)
        (process_accept_ready os proactor p s) _
        (accept_ready-Same proactor p server cb s listed at has_cb got)
        (λ _ t h.
          Returned-map (λ _ u. Disposed xs t u) (λ _ u. Leaked xs server s u)
            (dispose os fuel proactor t) (λ _ u k. Leaked-of xs server new h k)
            (dispose-Disposed os proactor fuel xs t given
              (rw (ap (λ p. p.sockets) h.proactor) (
                Chain-frame chain
                  (λ q m. ap (λ f. f q) h.heap ∙ spared s.heap (client_of s) q xs (some _) new m)))
              enough))
