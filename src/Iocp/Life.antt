-- ===== src/Iocp/Life.antt =====
-- The whole run of a server: set up, the event loop, and the end.
use tag_sim.Common.{
  ℕ, suc, ◌≡◌, refl, true, false, some, List, [], ◌∷◌, ◌++◌, ◌∙◌, ap, ℤ, pos, arith, Bool-cases,
  inl, inr, ==ℤ_refl,
}
use tag_sim.Iocp.State.{
  accept, create_port, get_completion, on_accept, Call, Log, State, Os, initial, logged,
  wsa_startup, wsa_cleanup, socket, bind, listen, closesocket, close_handle, Request, null, invalid,
}
use tag_sim.Iocp.Setup.{
  init, start_server, cleanup, note_if, is_null, is_invalid, is_error, is_nonzero,
}
use tag_sim.Iocp.Api.{perform}
use tag_sim.Iocp.Events.{handle_data_event}
use tag_sim.Iocp.Loop.{run}
use tag_sim.Iocp.Keep.{Plain, need-After, handle_data_event-After, run-Along}
use tag_sim.Iocp.Leak.{Kept, run-Kept}
use tag_sim.Iocp.Stop.{asks_stop, run-Stopped}
use tag_sim.Iocp.Ready.{association}
use tag_sim.Machine.{After-bind, ◌>>=◌, After-map, Along-both, After-both, After}

-- The calls that give something back to the system, in their order.
abbrev pub closing : Log → List Call
closing [] = []
closing ((closesocket fd, r) ∷ log) = closing log ++ closesocket fd ∷ []
closing ((close_handle h, r) ∷ log) = closing log ++ close_handle h ∷ []
closing ((wsa_cleanup, r) ∷ log) = closing log ++ wsa_cleanup ∷ []
closing (_ ∷ log) = closing log

-- Whenever the loop waits, another thread asks for a stop meanwhile.
abbrev pub StopsAtOnce : Os → Type 0
StopsAtOnce os =
    (log : Log) (iocp : ℤ)
    → asks_stop (os.app ((get_completion iocp, os.sys log (get_completion iocp)) ∷ log)) ≡ true

-- Each wait ends: a completion arrives, or the call fails.
abbrev pub WaitsEnd : Os → Type 0
WaitsEnd os = (log : Log) → os.returns log ≡ true

module _ (os : Os) (s : State) where
  -- The sockets and the port are those of `s`, and nothing was given back since.
  abbrev Same : State → Type 0
  Same t =
      (t.iocp ≡ s.iocp)
      × (t.server_socket ≡ s.server_socket)
      × (t.client_socket ≡ s.client_socket)
      × (closing t.log ≡ closing s.log)

  Plain-Same : (c : Call) (r : ℤ) (t : State) → Plain c → Same t → Same (logged c r t)
  Plain-Same (accept fd) r t e h = h
  Plain-Same (create_port x port key) r t e h = h
  Plain-Same (get_completion port) r t e h = h
  Plain-Same (on_accept cb fd client d) r t e h = h
  Plain-Same _ r t e h = absurd e

  perform-Same : (q : Request) (t : State) → Same t → After Same (perform os q t)
  unfolding perform
  perform-Same (Request.send fd memory length) t h = ground arith
  perform-Same _ t h = h

  receives-Same : (fd : ℤ) (t : State) → Same t → After Same (handle_data_event os fd t)
  receives-Same fd t h =
      handle_data_event-After os Same fd t perform-Same (λ p r room. h)
        (λ cb bytes d p u some_read k. k)

  -- The state when the loop has ended.
  abbrev Left : State → Type 0
  Left t = Kept t × Same t

  run-Left :
      (fuel : ℕ) → Kept s → StopsAtOnce os → WaitsEnd os → After Left (run os (suc (suc fuel)) s)
  run-Left fuel kept stops ends =
      let loop = run os (suc (suc fuel)) s in
      After-map _ Left loop (λ t k. k.1)
        (After-both (λ t. t.stop ≡ true) Left loop
          (run-Stopped os fuel s (stops s.log s.iocp) (ends s.log))
          (Along-both Kept Same loop (run-Kept os (suc (suc fuel)) s kept) (
            run-Along os Same Plain-Same perform-Same (λ fd t _ h. receives-Same fd t h)
              (suc (suc fuel)) s (refl, refl, refl, refl))))

-- Set up: the listening socket is associated with the port, under its own descriptor as the key; there
-- is no socket of `connect`.
pub record SetUp (s : State) : Type 0 where
  pub kept : Kept s
  pub port : is_null s.iocp ≡ false
  pub server : is_invalid s.server_socket ≡ false
  pub client : is_invalid s.client_socket ≡ true
  pub none_closed : closing s.log ≡ []
  pub association : association s.log s.server_socket ≡ some (s.iocp, s.server_socket)

module _ (os : Os) where
  -- After `init`.
  abbrev Ready : State → Type 0
  Ready s =
      Kept s × (is_null s.iocp ≡ false) × (is_invalid s.client_socket ≡ true) × (closing s.log ≡ [])

  init-Ready : After Ready (init os initial)
  unfolding init
  init-Ready = need-After os Ready is_nonzero wsa_startup _ _ initial (λ r _.
      elim (Bool-cases
        (is_null (os.sys ((wsa_startup, r) ∷ []) (create_port invalid null (pos 0))))) [
          | inl failed ↦ rw failed tt
          | inr made ↦ rw made (refl, made, refl, refl)
        ])

  start_server-SetUp : (port : ℕ) (s : State) → Ready s → After SetUp (start_server os port s)
  unfolding start_server
  start_server-SetUp port s h = elim (Bool-cases (is_invalid (os.sys s.log socket))) [
    | inl failed ↦ rw failed tt
    | inr made ↦
        let fd = os.sys s.log socket in
        rw made (
          need-After os SetUp is_error (bind fd port) _ _ _ (λ r _.
            need-After os SetUp is_error (listen fd) _ _ _ (λ r _.
              need-After os SetUp is_null (create_port fd s.iocp fd) _ _ _ (λ r passed. record {
                kept = h.0;
                port = h.1;
                server = made;
                client = h.2;
                none_closed = h.3;
                association = simp (==ℤ_refl, passed);
              }))))
  ]

-- The run is over: the listening socket, the completion port and the library were given back, once each
-- and in this order, and nothing else was; no block was.
pub record Ended (s t : State) : Type 0 where
  pub closes : closing t.log ≡ closesocket s.server_socket ∷ close_handle s.iocp ∷ wsa_cleanup ∷ []
  pub kept : Kept t

cleanup-Ended :
    (s : State)
    → Kept s
    → is_null s.iocp ≡ false
    → is_invalid s.server_socket ≡ false
    → is_invalid s.client_socket ≡ true
    → closing s.log ≡ []
    → After (Ended s) (cleanup s)
unfolding cleanup note_if
cleanup-Ended s kept port server client none_closed =
    simp (port, server, client) (record { closes = simp none_closed refl; kept = kept })

module _ (os : Os) where
  cleanup-Left : (s t : State) → SetUp s → Left os s t → After (Ended s) (cleanup t)
  cleanup-Left s t h k =
      let same = k.1 in
      After-map (Ended t) (Ended s) (cleanup t)
        (λ u e. record { closes = e.closes ∙ simp (same.1, same.0); kept = e.kept })
        (cleanup-Ended t k.0 (ap is_null same.0 ∙ h.port) (ap is_invalid same.1 ∙ h.server)
          (ap is_invalid same.2 ∙ h.client) (same.3 ∙ h.none_closed))

  -- From the initial state, where another thread asks for a stop whenever the loop waits, and each wait
  -- ends, since a completion arrives or the call fails: `init`, `start_server`, the event loop and
  -- `cleanup`, called in this order, return or exit the process, whatever the completions are and the
  -- callbacks do. If the first two return, the listening socket is
  -- associated with the completion port under its own descriptor. If all return, the listening socket,
  -- the port and the library are given back, in this order and once each; no other socket is closed,
  -- the accepted ones included, and the block of every receive and send is still in use.
  pub winsock_life :
      (port fuel : ℕ)
      → StopsAtOnce os
      → WaitsEnd os
      → After
          (λ s.
            (association s.log s.server_socket ≡ some (s.iocp, s.server_socket))
            × After (Ended s) ((run os (suc (suc fuel)) >>= λ _. cleanup) s))
          ((init os >>= λ _. start_server os port) initial)
  winsock_life port fuel stops ends =
      After-bind (Ready os) _ (init os initial) _ (init-Ready os) (λ _ r ready.
        After-map SetUp _ (start_server os port r)
          (λ s h. (
            h.association,
            After-bind (Left os s) (Ended s) (run os (suc (suc fuel)) s) _
                (run-Left os s fuel h.kept stops ends) (λ _ t k. cleanup-Left s t h k),
          ))
          (start_server-SetUp os port r ready))
