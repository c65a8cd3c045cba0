-- ===== src/Tests/Iocp.antt =====
-- src/util/proactor_net_iocp.c over a small environment.
use tag_sim.Common.{true, false, ◌≡◌, refl, some, [], ◌∷◌, ℤ, pos, ◌+◌, length, ltb, if◌then◌else◌}
use tag_sim.Machine.{Returned, Along, After, ◌>>=◌}
use tag_sim.Iocp.State.{
  State, initial, Os, Log, Call, Request, malloc, accept, wsa_startup, wsa_cleanup, closesocket,
  close_handle,
}
use tag_sim.Iocp.Setup.{init, start_server, cleanup}
use tag_sim.Iocp.Api.{perform_all, perform}
use tag_sim.Iocp.Events.{handle_accept_event, dispatch, handle_data_event, upcall}
use tag_sim.Iocp.Loop.{run, round, serve}
use tag_sim.Iocp.Leak.{Kept, in_use, posted, run-Kept}
use tag_sim.Iocp.Lost.{heard, run-heard}
use tag_sim.Iocp.Ready.{association}
use tag_sim.Iocp.Life.{Ended, closing, winsock_life}
use tag_sim.Iocp.Accept.{read_for, accepted_unread}

-- Each allocation has an address of its own, connections get descriptor 9, and the rest succeeds.
abbrev answer : Log → Call → ℤ
answer log (malloc n) = pos (length log + 100)
answer log (accept fd) = pos 9
answer log wsa_startup = pos 0
answer log _ = pos 5

-- Each completion is for the socket 7; three bytes are there at once.
abbrev talkative : Os
talkative = record {
  sys = answer;
  last_error = λ log. 0;
  returns = λ log. true;
  bytes_received = λ log. 3;
  input = λ log. 1 ∷ 2 ∷ 3 ∷ 4 ∷ [];
  key = λ log. pos 7;
  app = λ log. if ltb (length log) 2 then Request.send (pos 7) (pos 300) 10 ∷ [] else [];
}

-- Every receive is pending, and another thread asks for a stop.
abbrev pending : Os
pending = record talkative {
  bytes_received = λ log. 0;
  app = λ log. Request.wake ∷ Request.stop ∷ [];
}

abbrev connected : State
connected = record initial {
  iocp = pos 5;
  client_socket = pos 7;
  server_socket = pos 6;
  receive_callback = some 1;
}

two_rounds :
    Along
      (λ t.
        (heard t.log ≡ (1 ∷ 2 ∷ 3 ∷ []) ∷ (1 ∷ 2 ∷ 3 ∷ []) ∷ [])
        × (in_use t.log ≡ some (pos 107 ∷ pos 103 ∷ pos 101 ∷ []))
        × (posted t.log ≡ pos 107 ∷ pos 103 ∷ pos 101 ∷ []))
      (run talkative 2 connected)
unfolding run round serve perform_all perform dispatch handle_data_event upcall
two_rounds = (refl, refl, refl)

run-Kept_example : Along Kept (run talkative 3 connected)
run-Kept_example = run-Kept talkative 3 connected refl

run-heard_example : Along (λ t. heard t.log ≡ heard connected.log) (run pending 3 connected)
run-heard_example = run-heard pending 3 connected (λ log. refl)

-- Each completion is for the connection that was accepted.
abbrev calling : Os
calling = record talkative { key = λ log. pos 9 }

accepted_unread_example :
    Along
      (λ t. read_for (pos 9) t.log ≡ 0)
      ((handle_accept_event calling (pos 6) >>= λ _. run calling 2) connected)
accepted_unread_example = accepted_unread calling (pos 6) 2 connected refl

-- No completion ever arrives.
abbrev silent : Os
silent = record pending { returns = λ log. false }

-- The completions are for the listening socket, and another thread asks for a stop at once.
abbrev accepting : Os
accepting = record pending { key = λ log. pos 5 }

-- The accepted socket 9 stays open.
whole_run :
    Returned
      (λ r t. closing t.log ≡ closesocket (pos 5) ∷ close_handle (pos 5) ∷ wsa_cleanup ∷ [])
      (((init accepting >>= λ _. start_server accepting 44818) >>= λ _.
          run accepting 2 >>= λ _. cleanup)
        initial)
unfolding init start_server run round serve perform_all perform dispatch handle_accept_event cleanup
whole_run = refl

winsock_life_example :
    After
      (λ s.
        (association s.log s.server_socket ≡ some (s.iocp, s.server_socket))
        × After (Ended s) ((run accepting 2 >>= λ _. cleanup) s))
      ((init accepting >>= λ _. start_server accepting 44818) initial)
winsock_life_example = winsock_life accepting 44818 0 (λ log iocp. refl) (λ log. refl)
