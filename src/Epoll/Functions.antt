-- ===== src/Epoll/Functions.antt =====
-- The back end as an implementation of Proactor: its functions and their laws.
use Prim.Native.String.{String}
use tag_sim.Common.{List, not, ℕ, suc, true, false, Option, none, some, [], ◌∷◌, ℤ, arith, Bool}
use tag_sim.Epoll.State as Epoll
use tag_sim.Epoll.State.{Log, Call, epoll_wait, Os, SendRequest, State, M, need, fails}
use tag_sim.Epoll.Setup.{init, cleanup, start_server, connect_to, free_request, close_if}
use tag_sim.Common.Blocks.{free_block}
use tag_sim.Epoll.Heap.{live, free_if, free_live}
use tag_sim.Epoll.Api.{perform}
use tag_sim.Epoll.Loop.{run, run_stopped}
use tag_sim.Proactor.{Functions, Resting, Rests, Laws, then-Rests}
use tag_sim.Machine.{◌>>◌, Ends}

-- How often the loop waited.
abbrev pub waits : Log → ℕ
waits [] = 0
waits ((epoll_wait queue n, r) ∷ log) = suc (waits log)
waits (_ ∷ log) = waits log

abbrev pub functions : Os → Functions
functions os = record {
  State = State;
  Request = Epoll.Request;
  init = init os;
  start_server = start_server os;
  connect_to = connect_to os;
  cleanup = cleanup;
  run = run os;
  perform = perform os;
  stop = Epoll.Request.stop;
  stopped = λ s. s.stop;
  waits = λ s. waits s.log;
}

module _ (os : Os) where
  init-Rests : Rests (functions os) (init os)
  unfolding init
  init-Rests n s h = ground arith

  start_server-Rests : (port : ℕ) → Rests (functions os) (start_server os port)
  unfolding start_server
  start_server-Rests port n s h = ground arith

  connect_to-Rests :
      (address : String) (port : ℕ) → Rests (functions os) (connect_to os address port)
  unfolding connect_to
  connect_to-Rests address port n s h = ground arith

  close_if-Rests : (b : Bool) (fd : ℤ) → Rests (functions os) (close_if b fd)
  unfolding close_if
  close_if-Rests true fd n s h = h
  close_if-Rests false fd n s h = h

  free_if-Rests : (l : Option (List ℤ)) (p : ℤ) → Rests (functions os) (free_if l p)
  free_if-Rests none p n s h = h
  free_if-Rests (some others) p n s h = h

  free_live-Rests : (p : ℤ) → Rests (functions os) (free_live p)
  unfolding free_live
  free_live-Rests p n s h = free_if-Rests (free_block p (live s.log)) p n s h

  free_request-Rests : (r : Option SendRequest) → Rests (functions os) (free_request r)
  unfolding free_request
  free_request-Rests none n s h = h
  free_request-Rests (some r) n s h =
      then-Rests (functions os) (free_live r.data_ptr) (λ _. free_live r.block)
        (free_live-Rests r.data_ptr) (λ _. free_live-Rests r.block) n s h

  -- Closing one descriptor and going on.
  closing-Rests :
      (b : Bool) (fd : ℤ) (rest : M (Unit {0}))
      → Rests (functions os) rest
      → Rests (functions os) (close_if b fd >> rest)
  closing-Rests b fd rest h =
      then-Rests (functions os) (close_if b fd) (λ _. rest) (close_if-Rests b fd) (λ _. h)

  cleanup-Rests : Rests (functions os) cleanup
  unfolding cleanup
  cleanup-Rests n s h =
      let last = Epoll.note (Epoll.close s.epoll_fd) >> free_request s.current_send_request in
      let piped = not (fails s.wakeup_read) in
      let writing = close_if piped s.wakeup_write >> last in
      let reading = close_if piped s.wakeup_read >> writing in
      let connected = not (fails s.client_socket) in
      let client = close_if connected s.client_socket >> reading in
      closing-Rests (not (fails s.server_socket)) s.server_socket client
        (closing-Rests connected s.client_socket reading (
          closing-Rests piped s.wakeup_read writing (
            closing-Rests piped s.wakeup_write last
              (λ n t k. free_request-Rests s.current_send_request n _ k))))
        n s h

  perform-Rests : (q : Epoll.Request) → Rests (functions os) (perform os q)
  unfolding perform
  perform-Rests (Epoll.Request.send fd bytes) n s h = ground arith
  perform-Rests _ n s h = ground arith

  run-Rests : (fuel : ℕ) → Rests (functions os) (run os (suc fuel))
  run-Rests fuel n s h = rw (run_stopped os fuel s h.0) h

  stop_stops :
      (s : State) → Ends (Resting (functions os) (waits s.log)) (perform os Epoll.Request.stop s)
  unfolding perform
  stop_stops s = ground arith

  pub laws : Laws (functions os)
  laws = record {
    init-Rests = init-Rests;
    start_server-Rests = start_server-Rests;
    connect_to-Rests = connect_to-Rests;
    cleanup-Rests = cleanup-Rests;
    perform-Rests = perform-Rests;
    run-Rests = run-Rests;
    stop_stops = stop_stops;
  }
