-- ===== src/Tests/Connection.antt =====
-- Connections of src/util/proactor_net_epoll.c that are written to, read from and left alone.
use tag_sim.Common.{
  List, zero, suc, ◌==ℤ◌, take, All, ℕ, ◌≡◌, refl, false, none, some, [], ◌∷◌, arith, ℤ, pos,
  minus_one, length, leb, if◌then◌else◌,
}
use tag_sim.Epoll.State.{on_receive, epollin, State, Os, Log, Call, write, Event, Request, epollout}
use tag_sim.Machine.{Returned}
use tag_sim.Epoll.Api.{perform_all}
use tag_sim.Epoll.Events.{upcall, dispatch, handle_data_event}
use tag_sim.Epoll.Loop.{dispatch_all, serve, round, run}
use tag_sim.Machine.{Along}
use tag_sim.Epoll.Finish.{Progresses, repeat}
use tag_sim.Tests.Epoll.{sender, start}
use tag_sim.Epoll.Idle.{Idle, IsNoInput, waiting, run-Idle}
use tag_sim.Epoll.Heard.{heard, arrived, nothing_unheard}
use tag_sim.Machine.{Every, going}
use tag_sim.Epoll.Misdirected.{sent}
use tag_sim.Epoll.Reply.{answered}
use tag_sim.Epoll.Lifecycle.{Succeeds}

-- Each wait reports that descriptor 7 is writable.
abbrev restless : Os
restless = record sender { sys = λ log c. pos 1; app = λ log. [] }

only_writable :
    (n : ℕ)
    → All (IsNoInput (pos 3) minus_one) (take n (record { fd = pos 7; events = epollout } ∷ []))
only_writable zero = tt
only_writable (suc zero) = (record { not_pipe = refl; not_server = refl; not_in = refl }, tt)
only_writable (suc (suc n)) = (record { not_pipe = refl; not_server = refl; not_in = refl }, tt)

restless-Idle : Idle restless (pos 3) minus_one
restless-Idle = record {
  passes = λ log queue. refl;
  no_input = λ log n. only_writable n;
  quiet = λ log. refl;
}

run-Idle_example :
    run restless 2 start
    ≡ going (record start { log = waiting restless start.epoll_fd 2 start.log })
run-Idle_example = run-Idle restless 2 start refl refl restless-Idle

-- Each read of descriptor 7 stores two bytes.
abbrev speaker : Os
speaker = record restless {
  sys = λ log c. pos 2;
  input = λ log. 5 ∷ 6 ∷ 7 ∷ [];
  ready =
      λ log. record { fd = pos 7; events = epollin } ∷ record { fd = pos 3; events = epollin } ∷ [];
}

abbrev hearing : State
hearing = record start { receive_callback = some 1 }

one_round_heard : Along (λ t. heard t.log ≡ (pos 7, 5 ∷ 6 ∷ []) ∷ []) (run speaker 1 hearing)
unfolding run round perform_all serve dispatch_all dispatch handle_data_event upcall
one_round_heard = refl

nothing_unheard_example :
    Every (λ t. heard t.log ≡ arrived speaker (pos 3) t.log) (run speaker 2 hearing)
nothing_unheard_example = nothing_unheard speaker (pos 3) 2 hearing refl tt (λ log. tt) refl

-- The receive callback answers with three bytes, of which `write` takes at most two at a time.
abbrev echo_answer : Log → Call → ℤ
echo_answer log (write fd bytes) = pos (if leb 2 (length bytes) then 2 else length bytes)
echo_answer log _ = pos 5

abbrev echo_app : Log → List Request
echo_app ((on_receive cb fd bytes d, r) ∷ log) = Request.send fd (1 ∷ 2 ∷ 3 ∷ []) ∷ []
echo_app _ = []

abbrev echo : Os
echo = record sender { sys = echo_answer; app = echo_app }

echo-Succeeds : Succeeds echo
echo-Succeeds log (write fd bytes) = refl
echo-Succeeds log _ = refl

echo-Progresses : Progresses echo
echo-Progresses log fd bytes =
    (if leb 2 (length bytes) then 2 else length bytes, refl, ground arith, ground arith)

abbrev heard_from : Event
heard_from = record { fd = pos 7; events = epollin }

abbrev has_room : Event
has_room = record { fd = pos 7; events = epollout }

answered_example :
    Returned
      (λ _ t.
        (sent (pos 7) t.log ≡ 1 ∷ 2 ∷ 3 ∷ [])
        × ((other : ℤ) → (pos 7 ==ℤ other) ≡ false → sent other t.log ≡ [])
        × (t.current_send_request ≡ none))
      (dispatch_all echo (heard_from ∷ repeat 4 has_room) hearing)
answered_example =
    answered echo heard_from has_room 1 4 (1 ∷ 2 ∷ 3 ∷ []) hearing echo-Succeeds (λ log n. refl)
      echo-Progresses (λ log cb fd d. refl) refl refl refl refl
      (record { not_pipe = refl; not_server = refl; not_in = refl; out = refl }) refl
      (λ log bytes d. refl)
