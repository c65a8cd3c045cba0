-- ===== src/Tests/Transfer.antt =====
-- The last functions of src/util/proactor_net_kevent.c over a small environment.
use tag_sim.Common.{
  ◌≡◌, refl, ◌↔◌, none, some, [], ◌∷◌, ℤ, pos, minus_one, ◌+◌, arith, length, leb, if◌then◌else◌,
  List,
}
use tag_sim.Machine.{After, Faulted, exited}
use tag_sim.Kevent.Transfer.State.{
  State, Os, Log, Call, Request, External, malloc, write, read, perror,
}
use tag_sim.Kevent.Transfer.Handlers.{
  handle_data_event, handle_write_event, perform, perform_all, upcall,
}
use tag_sim.Kevent.Transfer.Keep.{Exits}
use tag_sim.Kevent.Transfer.Wire.{Sound, WriteBounded, view, taken, submitted, live}
use tag_sim.Kevent.Transfer.Sound.{Action, requested, readable, writable, act_all, act_all-Sound}
use tag_sim.Kevent.Transfer.Closed.{Ended, data_event-Faulted}

-- `write` takes two bytes at a time.
abbrev answer : Log → Call → ℤ
answer log (write fd bytes) = pos (if leb 2 (length bytes) then 2 else length bytes)
answer log (malloc n) = pos (length log + 100)
answer log (read fd n) = pos 3
answer log _ = pos 0

-- Each callback sends two bytes.
abbrev talker : Os
talker = record {
  sys = answer;
  input = λ log. 1 ∷ 2 ∷ 3 ∷ 4 ∷ [];
  fresh = λ log. record { block = pos 0; data_ptr = pos 0; content = []; size = 77; offset = 77 };
  app = λ log. Request.send (pos 7) (8 ∷ 9 ∷ []) ∷ [];
}

abbrev closing : Os
closing = record talker { sys = λ log c. minus_one }

abbrev posix : External
posix = record {
  buffer_size = 1024;
  handle_error = λ msg s. exited (record s { log = (perror msg, pos 0) ∷ s.log });
}

abbrev idle : State
idle = record {
  kq = pos 5;
  receive_callback = some 1;
  send_complete_callback = some 2;
  accept_callback = none;
  receive_user_data = 0;
  send_complete_user_data = 0;
  accept_user_data = 0;
  current_send_request = none;
  log = [];
}

-- Three bytes are sent in two parts; a send in between, and one in the callback, are refused. What is
-- read then makes the application send two bytes more.
abbrev session : List Action
session =
    requested (Request.send (pos 7) (1 ∷ 2 ∷ 3 ∷ []))
    ∷ writable (pos 7)
    ∷ requested (Request.send (pos 7) (4 ∷ []))
    ∷ writable (pos 7)
    ∷ readable (pos 7)
    ∷ writable (pos 7)
    ∷ []

session_bytes :
    After
      (λ t.
        (taken t.log ≡ 1 ∷ 2 ∷ 3 ∷ 8 ∷ 9 ∷ [])
        × (submitted t.log ≡ 1 ∷ 2 ∷ 3 ∷ 8 ∷ 9 ∷ [])
        × (live t.log ≡ some [])
        × (t.current_send_request ≡ none))
      (act_all talker posix session idle)
unfolding act_all perform_all handle_data_event handle_write_event perform upcall
session_bytes = (refl, refl, refl, refl)

posix-Exits : Exits posix
posix-Exits msg s = (_, refl)

talker-WriteBounded : WriteBounded talker
talker-WriteBounded log fd bytes n e = ground arith

act_all-Sound_example : After (Sound (view idle)) (act_all talker posix session idle)
act_all-Sound_example =
    act_all-Sound talker posix posix-Exits talker-WriteBounded (λ log fd. (3, refl, omega arith))
      session idle refl tt

data_event-Faulted_example :
    Faulted (handle_data_event closing posix (pos 7) idle)
    ↔ Ended (closing.sys [] (read (pos 7) 1024))
data_event-Faulted_example = data_event-Faulted closing posix posix-Exits (pos 7) idle
