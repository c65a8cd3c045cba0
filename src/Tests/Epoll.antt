-- ===== src/Tests/Epoll.antt =====
-- src/util/proactor_net_epoll.c over a small environment.
use tag_sim.Common.{
  ap, Option, zero, suc, ◌==ℤ◌, take, ◌≢◌, All, ◌+◌, ℕ, ◌≡◌, refl, Bool, false, none, some, [], ◌∷◌,
  arith, ℤ, pos, minus_one, length, leb, ltb, if◌then◌else◌,
}
use tag_sim.Epoll.State.{
  fails, State, initial, Os, Log, Call, write, malloc, epoll_wait, read, epoll_ctl, delete, modify,
  close, Event, Request, epollout,
}
use tag_sim.Machine.{Faulted, Returned, ◌>>=◌}
use tag_sim.Epoll.Heap.{free_live}
use tag_sim.Epoll.Setup.{free_request, close_if, init, start_server, cleanup}
use tag_sim.Epoll.Api.{perform_all, send, perform}
use tag_sim.Epoll.Events.{
  upcall, handle_write_event, dispatch, handle_data_event, handle_accept_event,
}
use tag_sim.Epoll.Interest.{interest}
use tag_sim.Epoll.Loop.{dispatch_all, serve, round, run}
use tag_sim.Machine.{Along, After, Exited}
use tag_sim.Epoll.Memory.{Owned, run-Owned}
use tag_sim.Epoll.Stream.{InOrder, run-InOrder}
use tag_sim.Epoll.Wire.{taken, submitted}
use tag_sim.Epoll.Simulate.{view}
use tag_sim.Epoll.Refine.{run-Reach}
use tag_sim.Epoll.Finish.{Progresses, repeat, writes_finish}
use tag_sim.Channel.{Reach}
use tag_sim.Epoll.Misdirected.{sent, misdirected}
use tag_sim.Epoll.Greeting.{RefusesUnknown, greeting_exits}
use tag_sim.Epoll.Descriptors.{opened, made}
use tag_sim.Epoll.Life.{StopsAtOnce, Ended, server_life}
use tag_sim.Epoll.Lifecycle.{reads, Serving, send_drops_input, closed_peer_exits, Succeeds}

-- `write` takes two bytes at a time, and a descriptor is taken out of the interest list only while
-- it is open.
abbrev answer : Log → Call → ℤ
answer log (write fd bytes) = pos (if leb 2 (length bytes) then 2 else length bytes)
answer log (malloc n) = pos (length log + 100)
answer log (epoll_wait queue n) = pos 1
answer log (read fd n) = pos 0
answer ((close fd', r) ∷ log) (epoll_ctl queue delete fd mask) = minus_one
answer log _ = pos 5

abbrev first_wait : Log → Bool
first_wait log = ltb (length log) 2

-- Descriptor 7 is always writable; during the first wait another thread sends three bytes to it.
abbrev pub sender : Os
sender = record {
  sys = answer;
  pipe_fds = λ log. (pos 3, pos 4);
  input = λ log. [];
  ready = λ log. record { fd = pos 7; events = epollout } ∷ [];
  errno = λ log. 0;
  app = λ log. if first_wait log then Request.send (pos 7) (1 ∷ 2 ∷ 3 ∷ []) ∷ [] else [];
}

-- Another thread asks for a stop.
abbrev stopper : Os
stopper = record sender { app = λ log. Request.wake ∷ Request.stop ∷ [] }

-- Every call succeeds.
abbrev steady : Os
steady = record sender { sys = λ log c. pos 5 }

seven_apart :
    (n : ℕ)
    → All {A = Event} (λ e. e.fd ≢ pos 4) (take n (record { fd = pos 7; events = epollout } ∷ []))
seven_apart zero = tt
seven_apart (suc zero) = (ground arith, tt)
seven_apart (suc (suc n)) = (ground arith, tt)

abbrev pub start : State
start = record initial { wakeup_read = pos 3; wakeup_write = pos 4 }

-- A request for one byte, of which nothing is written.
abbrev pending : State
pending = record start {
  current_send_request =
      some (record { block = pos 100; data_ptr = pos 101; content = 9 ∷ []; size = 1; offset = 0 });
  log = (malloc 1, pos 101) ∷ (malloc 32, pos 100) ∷ [];
}

two_rounds :
    Along
      (λ t.
        (taken (pos 4) t.log ≡ 1 ∷ 2 ∷ 3 ∷ [])
        × (submitted t.log ≡ 1 ∷ 2 ∷ 3 ∷ [])
        × (t.current_send_request ≡ none))
      (run sender 2 start)
unfolding run round perform_all perform serve dispatch_all dispatch handle_write_event upcall
two_rounds = (refl, refl, refl)

run-Owned_example : Along Owned (run sender 3 pending)
run-Owned_example = run-Owned sender 3 pending refl

run-InOrder_example : Along (InOrder (pos 4)) (run sender 3 start)
run-InOrder_example =
    run-InOrder sender (pos 4) (λ log fd bytes n e. ground arith) (λ log n. seven_apart n) 3 start
      (record { pipe = refl; fits = tt; order = refl })

run-Reach_example : Along (λ t. Reach (view (pos 4) start) (view (pos 4) t)) (run sender 3 start)
run-Reach_example =
    run-Reach sender (pos 4) (λ log fd bytes n e. ground arith) (λ log n. seven_apart n) 3 start
      refl tt

sender-Progresses : Progresses sender
sender-Progresses log fd bytes =
    (if leb 2 (length bytes) then 2 else length bytes, refl, ground arith, ground arith)

writes_finish_example :
    After
      (λ t. t.current_send_request ≡ none)
      (dispatch_all sender (repeat 2 (record { fd = pos 7; events = epollout })) pending)
writes_finish_example =
    writes_finish sender (record { fd = pos 7; events = epollout }) pending sender-Progresses
      (record { not_pipe = refl; not_server = refl; not_in = refl; out = refl }) (refl, omega arith)

send_drops_input_example :
    Returned
      (λ r t.
        (r ≡ pos 0)
        × (interest t.epoll_fd t.log (pos 7) ≡ some epollout)
        × (reads (interest t.epoll_fd t.log (pos 7)) ≡ false)
        × ((other : ℤ)
            → (pos 7 ==ℤ other) ≡ false
            → interest t.epoll_fd t.log other ≡ interest start.epoll_fd start.log other))
      (send steady (pos 7) (1 ∷ 2 ∷ []) start)
send_drops_input_example =
    send_drops_input steady (pos 7) (1 ∷ 2 ∷ []) start refl (λ log c. refl) (λ log n. refl)

closed_peer_exits_example : Exited (handle_data_event sender (pos 7) start)
closed_peer_exits_example =
    closed_peer_exits sender (pos 7) start (λ log r queue fd mask. refl) refl

stopper-StopsAtOnce : StopsAtOnce stopper
stopper-StopsAtOnce log queue = refl

server_life_example :
    After
      (λ s.
        Serving s
        × (opened stopper s.log ≡ made s)
        × After (Ended s) ((run stopper 2 >>= λ _. cleanup) s))
      ((init stopper >>= λ _. start_server stopper 80) initial)
server_life_example = server_life stopper 80 0 (λ log. refl) stopper-StopsAtOnce

-- The bytes are sent to descriptor 8 and go to 7, two of the three at first.
abbrev partial_writes : Log → Call → ℤ
partial_writes log (write fd bytes) = pos 2
partial_writes log _ = pos 5

abbrev partial : Os
partial = record sender { sys = partial_writes }

partial-Succeeds : Succeeds partial
partial-Succeeds log (write fd bytes) = refl
partial-Succeeds log _ = refl

misdirected_example :
    Returned
      (λ _ t.
        (sent (pos 7) t.log ≡ 1 ∷ 2 ∷ [])
        × ((other : ℤ) → (pos 7 ==ℤ other) ≡ false → sent other t.log ≡ []))
      ((send partial (pos 8) (1 ∷ 2 ∷ 3 ∷ []) >>= λ _.
          dispatch partial (record { fd = pos 7; events = epollout }))
        start)
misdirected_example =
    misdirected partial (pos 8) (1 ∷ 2 ∷ 3 ∷ []) (record { fd = pos 7; events = epollout }) 2 start
      refl partial-Succeeds (λ log n. refl)
      (record { not_pipe = refl; not_server = refl; not_in = refl; out = refl }) (λ log. refl)
      (omega arith)

-- A descriptor can be modified once it was added, and the accept callback sends a greeting.
abbrev if_there : Option ℕ → ℤ
if_there none = minus_one
if_there (some mask) = pos 0

abbrev strict_answer : Log → Call → ℤ
strict_answer log (epoll_ctl queue modify fd mask) = elim (interest queue log fd) [
  | none ↦ minus_one
  | some _ ↦ pos 0
]
strict_answer log _ = pos 9

abbrev greeter : Os
greeter = record sender { sys = strict_answer; app = λ log. Request.send (pos 9) (1 ∷ 2 ∷ []) ∷ [] }

abbrev listening : State
listening = record start { server_socket = pos 6; accept_callback = some 1 }

greeter-RefusesUnknown : RefusesUnknown greeter
greeter-RefusesUnknown log queue fd mask e = ap (λ o. fails (if_there o)) e

greeting_exits_example : Exited (handle_accept_event greeter (pos 6) listening)
greeting_exits_example =
    greeting_exits greeter (pos 6) 1 (1 ∷ 2 ∷ []) [] listening refl refl refl refl refl
      (λ log n. refl) greeter-RefusesUnknown

-- The pointer to the request is left as it was, so that a second `cleanup` frees it again.
cleanup_twice : Faulted ((cleanup >>= λ _. cleanup) pending)
unfolding cleanup free_request free_live close_if
cleanup_twice = tt
