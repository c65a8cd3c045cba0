-- ===== src/Tests/Kevent.antt =====
-- src/util/proactor_net_kevent.c over a small environment.
use tag_sim.Common.{
  ◌≡◌, refl, ◌≤◌, false, Option, none, some, [], ◌∷◌, ℤ, pos, ltb, leb, length, if◌then◌else◌,
  minus_one, arith,
}
use tag_sim.Machine.{Returned, Every, ◌>>=◌}
use tag_sim.Status.Codes.{Status}
use tag_sim.Kevent.State.{
  null, Socket, zeroed, Proactor, Os, State, Log, Call, calloc, wait, recvfrom, evfilt_read,
  stop_request, update,
}
use tag_sim.Kevent.Lifecycle.{upcall, perform, perform_all, stop, wake, create, dispose}
use tag_sim.Kevent.Ready.{process_read_ready, read_by, read_into, received, process_accept_ready}
use tag_sim.Kevent.Loop.{
  rounds, turn, round, serve, dispatch_all, dispatch, by_filter, by_type, tick_sockets, run, ticks,
  tick_proactor,
}
use tag_sim.Kevent.Chain.{Cells, Chain, end, link}
use tag_sim.Kevent.Capacity.{capacity}
use tag_sim.Kevent.Listed.{ListClosed, run_then_dispose}
use tag_sim.Kevent.TickList.{Ticked, tickers}
use tag_sim.Kevent.Accept.{Leaked, accepted_socket_leaks}
use tag_sim.Kevent.Create.{Created, create-Created}
use tag_sim.Machine.{Faulted, going}
use tag_sim.Kevent.TickStart.{chained, nowhere, ticks_origin}
use tag_sim.Kevent.Receive.{Outcome, read_ready-Outcome}
use tag_sim.Kevent.Stop.{waits, run-waits}
use tag_sim.Kevent.Busy.{busy, run-busy}
use tag_sim.Kevent.Life.{proactor_life}
use tag_sim.Kevent.Sockets.{closes, frees}

-- At most two bytes arrive at a time.
abbrev answer : Log → Call → ℤ
answer log (recvfrom fd p n) = pos (if leb n 2 then n else 2)
answer log (wait kq n sec nsec) = pos 1
answer log calloc = pos 900
answer log _ = pos 5

-- The socket at 200 is always readable; the application asks for a stop in its second callback.
abbrev receiver : Os
receiver = record {
  sys = answer;
  pipe_fds = λ log. (pos 3, pos 4);
  address = λ log. 77;
  ready = λ log. record { ident = pos 21; filter = evfilt_read; udata = pos 200 } ∷ [];
  errno = λ log. 0;
  app = λ log. if ltb 4 (length log) then stop_request ∷ [] else [];
  garbage = λ log. null;
  handle = λ fd. fd;
}

-- The loop variable of the ticks points nowhere.
abbrev wild : Os
wild = record receiver { garbage = λ log. pos 555 }

abbrev listener : Socket
listener = record zeroed { next = pos 200; sock = pos 20; accept_cb = some 1; close_cb = some 2 }

abbrev client : Socket
client = record zeroed {
  sock = pos 21;
  socket_type = 1;
  buffer = some (record { buffer_data = pos 40; data_length = 10 });
  receive_cb = some 3;
  tick_cb = some 4;
}

abbrev sockets : Cells
sockets = (pos 100, listener) ∷ (pos 200, client) ∷ []

abbrev heap : ℤ → Option Socket
heap = update (update (λ q. none) (pos 200) (some client)) (pos 100) (some listener)

abbrev proactor : Proactor
proactor = record {
  kq = pos 9;
  wakeup_read = pos 3;
  wakeup_write = pos 4;
  tick_sec = 1;
  tick_nsec = 0;
  stop = false;
  proactor_status = Status.ok;
  event_cb = some 8;
  app_data = 0;
  sockets = pos 100;
}

abbrev two_sockets : State
two_sockets = record { proactor = proactor; heap = heap; log = [] }

two-Chain : Chain two_sockets.heap two_sockets.proactor.sockets sockets
two-Chain = link refl refl refl refl (link refl refl refl refl (end refl))

accepted_socket_leaks_example :
    Returned
      (λ _ t. Leaked receiver sockets listener two_sockets t)
      ((process_accept_ready receiver (pos 1) (pos 100) >>= λ rc. dispose receiver 3 (pos 1))
        two_sockets)
accepted_socket_leaks_example =
    accepted_socket_leaks receiver 3 (pos 1) (pos 100) listener 1 sockets two_sockets refl refl refl
      refl refl refl two-Chain (omega arith)

run_then_dispose_example :
    Every
      (λ t. Returned (λ _ u. ListClosed sockets two_sockets u) (dispose receiver 3 (pos 1) t))
      (run receiver 4 (pos 1) two_sockets)
run_then_dispose_example =
    run_then_dispose receiver sockets two_sockets 4 3 (pos 1) refl (λ log. refl) two-Chain
      (omega arith)

create-Created_example :
    Returned
      (λ p t. (p ≡ pos 900) × Created receiver (some 8) 6 2500 [] t.proactor)
      (create receiver (some 8) 5 6 2500 two_sockets)
create-Created_example = create-Created receiver (some 8) 5 6 2500 two_sockets refl

-- Ten bytes of room shrink to two.
shrunk : Returned (λ _ t. capacity (t.heap (pos 200)) ≡ 2) (run receiver 4 (pos 1) two_sockets)
unfolding run round serve dispatch_all dispatch by_filter by_type process_read_ready read_by
    read_into received upcall perform_all perform stop wake ticks tick_proactor tick_sockets rounds
    turn
shrunk = refl

-- The walk starts at the second socket, so that the first one is left out.
abbrev late : Os
late = record receiver { garbage = λ log. pos 200 }

ticks_origin_example :
    Returned
      (λ _ t. Ticked (tickers ((pos 200, client) ∷ [])) two_sockets t)
      (ticks late 2 (pos 1) two_sockets)
ticks_origin_example =
    ticks_origin late (pos 1) 1 (pos 200) two_sockets
      (chained ((pos 200, client) ∷ []) (link refl refl refl refl (end refl))) (λ log. refl)
      (omega arith)

lost_ticks : Faulted (ticks wild 2 (pos 1) two_sockets)
lost_ticks =
    ticks_origin wild (pos 1) 1 (pos 555) two_sockets (nowhere refl refl) (λ log. refl)
      (omega arith)

read_ready-Outcome_example :
    Outcome receiver
      (pos 200)
      client
      two_sockets
      client.receive_cb
      client.buffer
      (process_read_ready receiver (pos 1) (pos 200) two_sockets)
read_ready-Outcome_example =
    read_ready-Outcome receiver (pos 1) (pos 200) client two_sockets refl refl

proactor_life_example :
    Returned
      (λ p t.
        Every
          (λ u.
            Returned
              (λ _ v. (closes v.log ≡ pos 3 ∷ pos 4 ∷ pos 5 ∷ []) × (frees v.log ≡ []))
              (dispose receiver 1 p u))
          (run receiver 4 p t))
      (create receiver (some 8) 5 6 2500 two_sockets)
proactor_life_example = proactor_life receiver (some 8) 5 6 2500 4 0 two_sockets refl (λ log. refl)

-- Another thread asks for a stop whenever the loop waits, and so does each callback.
abbrev hurried : Os
hurried = record receiver { app = λ log. stop_request ∷ [] }

one_wait : Returned (λ _ t. waits t.log ≡ 1) (run hurried 4 (pos 1) two_sockets)
unfolding run round serve dispatch_all dispatch by_filter by_type process_read_ready read_by
    read_into received upcall perform_all perform stop wake ticks tick_proactor tick_sockets rounds
    turn
one_wait = refl

run-waits_example : Every (λ t. waits t.log ≤ 1) (run hurried 4 (pos 1) two_sockets)
run-waits_example = run-waits hurried 4 (pos 1) two_sockets refl

-- The queue is no longer valid (`EBADF`).
abbrev broken_answer : Log → Call → ℤ
broken_answer log (wait kq n sec nsec) = minus_one
broken_answer log _ = pos 5

abbrev broken : Os
broken = record receiver { sys = broken_answer; errno = λ log. 9; app = λ log. [] }

run-busy_example :
    run broken 3 (pos 1) two_sockets ≡ going (record two_sockets { log = busy proactor 3 [] })
run-busy_example =
    run-busy broken
      (record {
        fails = λ log kq n sec nsec. refl;
        no_signal = λ log. refl;
        quiet = λ log. refl;
        zeroed = λ log. refl;
      })
      (pos 1) 3 two_sockets refl refl
