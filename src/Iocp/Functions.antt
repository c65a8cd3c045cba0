-- ===== src/Iocp/Functions.antt =====
-- The back end as an implementation of Proactor: its functions and their laws.
use Prim.Native.String.{String}
use tag_sim.Common.{ℕ, suc, [], ◌∷◌, arith}
use tag_sim.Iocp.State as Iocp
use tag_sim.Iocp.State.{Log, Call, get_completion, closesocket, close_handle, Os, State, M}
use tag_sim.Iocp.Setup.{init, cleanup, start_server, connect_to, note_if}
use tag_sim.Iocp.Api.{perform}
use tag_sim.Iocp.Loop.{run, run_stopped}
use tag_sim.Proactor.{Functions, Resting, Rests, Laws}
use tag_sim.Machine.{Ends}

-- How often the loop waited.
abbrev pub waits : Log → ℕ
waits [] = 0
waits ((get_completion port, r) ∷ log) = suc (waits log)
waits (_ ∷ log) = waits log

abbrev pub functions : Os → Functions
functions os = record {
  State = State;
  Request = Iocp.Request;
  init = init os;
  start_server = start_server os;
  connect_to = connect_to os;
  cleanup = cleanup;
  run = run os;
  perform = perform os;
  stop = Iocp.Request.stop;
  stopped = λ s. s.stop;
  waits = λ s. waits s.log;
}

module _ (os : Os) where
  init-Rests : Rests (functions os) (init os)
  unfolding init
  init-Rests n s h = ground arith

  start_server-Rests : (port : ℕ) → Rests (functions os) (start_server os port)
  unfolding start_server
  start_server-Rests port n s h = ground arith

  connect_to-Rests :
      (address : String) (port : ℕ) → Rests (functions os) (connect_to os address port)
  unfolding connect_to
  connect_to-Rests address port n s h = ground arith

  cleanup-Rests : Rests (functions os) cleanup
  unfolding cleanup note_if
  cleanup-Rests n s h = ground arith

  perform-Rests : (q : Iocp.Request) → Rests (functions os) (perform os q)
  unfolding perform
  perform-Rests (Iocp.Request.send fd memory length) n s h = ground arith
  perform-Rests _ n s h = ground arith

  run-Rests : (fuel : ℕ) → Rests (functions os) (run os (suc fuel))
  run-Rests fuel n s h = rw (run_stopped os fuel s h.0) h

  stop_stops :
      (s : State) → Ends (Resting (functions os) (waits s.log)) (perform os Iocp.Request.stop s)
  unfolding perform
  stop_stops s = ground arith

  pub laws : Laws (functions os)
  laws = record {
    init-Rests = init-Rests;
    start_server-Rests = start_server-Rests;
    connect_to-Rests = connect_to-Rests;
    cleanup-Rests = cleanup-Rests;
    perform-Rests = perform-Rests;
    run-Rests = run-Rests;
    stop_stops = stop_stops;
  }
