-- ===== src/Epoll/Idle.antt =====
-- What the event loop does while connections are writable and nothing is to be written.
use tag_sim.Common.{
  inr, inl, Bool-cases, ℕ, zero, suc, ◌≡◌, refl, ap, ◌∙◌, false, none, List, [], ◌∷◌, ℤ, ◌==ℤ◌,
  take, All,
}
use tag_sim.Epoll.State.{Log, epoll_wait, max_events, Event, Os, State, fails, epollin, epollout}
use tag_sim.Epoll.Api.{perform_all}
use tag_sim.Epoll.Events.{has, dispatch, choose, handle_write_event, write_pending}
use tag_sim.Epoll.Loop.{dispatch_all, serve, round, run, run_goes_on}
use tag_sim.Machine.{done, going, and_then}

-- The event is that of a connection, and tells of no input: of room to write, of an error, or of the
-- peer's hang-up.
pub record IsNoInput (pipe server : ℤ) (e : Event) : Type 0 where
  pub not_pipe : (e.fd ==ℤ pipe) ≡ false
  pub not_server : (e.fd ==ℤ server) ≡ false
  pub not_in : has e.events epollin ≡ false

-- `epoll_wait` succeeds and reports only such events; no other thread asks for anything.
pub record Idle (os : Os) (pipe server : ℤ) : Type 0 where
  pub passes : (log : Log) (queue : ℤ) → fails (os.sys log (epoll_wait queue max_events)) ≡ false
  pub no_input : (log : Log) (n : ℕ) → All (IsNoInput pipe server) (take n (os.ready log))
  pub quiet : (log : Log) → os.app log ≡ []

-- A number of calls of `epoll_wait`.
abbrev pub waiting : Os → ℤ → ℕ → Log → Log
waiting os queue zero log = log
waiting os queue (suc n) log =
    waiting os queue n
      ((epoll_wait queue max_events, os.sys log (epoll_wait queue max_events)) ∷ log)

module _ (os : Os) where
  writable-idle :
      (fd : ℤ) (s : State) → s.current_send_request ≡ none → handle_write_event os fd s ≡ done tt s
  unfolding handle_write_event write_pending
  writable-idle fd s free = ap (λ r. write_pending os r fd s) free

  dispatch-idle :
      (s : State) (e : Event)
      → s.current_send_request ≡ none
      → IsNoInput s.wakeup_read s.server_socket e
      → dispatch os e s ≡ done tt s
  unfolding dispatch choose
  dispatch-idle s e free h =
      simp (h.not_pipe, h.not_server, h.not_in)
        (elim (Bool-cases (has e.events epollout)) [
          | inl room ↦ rw room (writable-idle e.fd s free)
          | inr other ↦ rw other refl
        ])

  dispatch_all-idle :
      (s : State) (es : List Event)
      → s.current_send_request ≡ none
      → All (IsNoInput s.wakeup_read s.server_socket) es
      → dispatch_all os es s ≡ done tt s
  unfolding dispatch_all
  dispatch_all-idle s [] free h = refl
  dispatch_all-idle s (e ∷ es) free h =
      ap (λ r. and_then r (λ _. dispatch_all os es)) (dispatch-idle s e free h.0)
      ∙ dispatch_all-idle s es free h.1

  round-Idle :
      (s : State)
      → s.current_send_request ≡ none
      → Idle os s.wakeup_read s.server_socket
      → round os s ≡ done tt (record s { log = waiting os s.epoll_fd 1 s.log })
  unfolding round perform_all serve
  round-Idle s free idle =
      rw (idle.quiet _, idle.passes _ _)
        (dispatch_all-idle (record s { log = waiting os s.epoll_fd 1 s.log }) _ free
          (idle.no_input _ _))

  -- While `epoll_wait` reports only events of connections that tell of no input, no request is pending,
  -- and nobody asks for anything, the loop does nothing but call `epoll_wait`, as often as it has
  -- fuel: no registration is changed, and no connection is closed.
  pub run-Idle :
      (fuel : ℕ) (s : State)
      → s.current_send_request ≡ none
      → s.stop ≡ false
      → Idle os s.wakeup_read s.server_socket
      → run os fuel s ≡ going (record s { log = waiting os s.epoll_fd fuel s.log })
  unfolding run
  run-Idle zero s free runs idle = refl
  run-Idle (suc fuel) s free runs idle =
      run_goes_on os fuel s runs
      ∙ ap (λ r. and_then r (λ _. run os fuel)) (round-Idle s free idle)
      ∙ run-Idle fuel (record s { log = waiting os s.epoll_fd 1 s.log }) free runs idle
