-- ===== src/Tests/Restart.antt =====
-- A server that is stopped, cleaned up and started again, on Linux and on Windows.
use tag_sim.Common.{true, ◌≡◌, refl, List, [], ◌∷◌, ℤ, pos}
use tag_sim.Machine.{Returned, ◌>>◌}
use tag_sim.Proactor.{Operation, operate, operate_all}
use tag_sim.Epoll.State as Epoll
use tag_sim.Epoll.Api.{stop as epoll_stop}
use tag_sim.Epoll.Setup.{init, start_server, cleanup}
use tag_sim.Epoll.Loop.{run}
use tag_sim.Epoll.Functions as Linux
use tag_sim.Iocp.State as Iocp
use tag_sim.Iocp.Api.{stop as iocp_stop}
use tag_sim.Iocp.Functions as Windows

-- Every call succeeds.
abbrev linux : Epoll.Os
linux = record {
  sys = λ log c. pos 5;
  pipe_fds = λ log. (pos 3, pos 4);
  input = λ log. [];
  ready = λ log. [];
  errno = λ log. 0;
  app = λ log. [];
}

abbrev startup_answer : Iocp.Log → Iocp.Call → ℤ
startup_answer log Iocp.Call.wsa_startup = pos 0
startup_answer log _ = pos 5

abbrev windows : Iocp.Os
windows = record {
  sys = startup_answer;
  last_error = λ log. 0;
  returns = λ log. true;
  bytes_received = λ log. 0;
  input = λ log. [];
  key = λ log. pos 7;
  app = λ log. [];
}

abbrev again_on_linux : List (Operation (Linux.functions linux))
again_on_linux =
    Operation.cleanup ∷ Operation.init ∷ Operation.start_server 80 ∷ Operation.run 3 ∷ []

abbrev again_on_windows : List (Operation (Windows.functions windows))
again_on_windows =
    Operation.cleanup ∷ Operation.init ∷ Operation.start_server 80 ∷ Operation.run 3 ∷ []

-- The second run is over before its first wait.
over_at_once :
    Returned
      (λ r t. Linux.waits t.log ≡ 0)
      ((epoll_stop linux >> operate_all (Linux.functions linux) again_on_linux) Epoll.initial)
unfolding epoll_stop operate operate_all init start_server cleanup run
over_at_once = refl
