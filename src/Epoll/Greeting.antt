-- ===== src/Epoll/Greeting.antt =====
-- An application that sends from its accept callback.
use tag_sim.Common.{◌≡◌, true, false, none, some, List, ◌∷◌, ℤ, pos, ℕ}
use tag_sim.Epoll.State.{
  Log, Bytes, accept, on_accept, modify, epoll_ctl, Request, Os, State, fails,
}
use tag_sim.Epoll.Api.{perform, perform_all}
use tag_sim.Epoll.Events.{handle_accept_event, upcall}
use tag_sim.Epoll.Interest.{interest}
use tag_sim.Epoll.Lifecycle.{Allocates}
use tag_sim.Machine.{Exited}

-- `epoll_ctl` does not modify a registration that is not there (`ENOENT`).
abbrev pub RefusesUnknown : Os → Type 0
RefusesUnknown os =
    (log : Log) (queue fd : ℤ) (mask : ℕ)
    → interest queue log fd ≡ none
    → fails (os.sys log (epoll_ctl queue modify fd mask)) ≡ true

-- The calls made when the accept callback returns to the application.
abbrev pub greeted : Os → ℕ → ℤ → State → Log
greeted os cb fd s =
    let client = os.sys s.log (accept fd) in
    (on_accept cb fd client s.accept_user_data, pos 0) ∷ (accept fd, client) ∷ s.log

-- The accept callback is called before the new connection is registered: where it sends to that
-- connection first, no request is pending, memory is there, and `epoll_ctl` refuses to modify a
-- registration that is not there, the process exits.
pub greeting_exits :
    (os : Os) (fd : ℤ) (cb : ℕ) (bytes : Bytes) (rest : List Request) (s : State)
    → s.accept_callback ≡ some cb
    → s.current_send_request ≡ none
    → fails (os.sys s.log (accept fd)) ≡ false
    → interest s.epoll_fd s.log (os.sys s.log (accept fd)) ≡ none
    → os.app (greeted os cb fd s) ≡ Request.send (os.sys s.log (accept fd)) bytes ∷ rest
    → Allocates os
    → RefusesUnknown os
    → Exited (handle_accept_event os fd s)
unfolding handle_accept_event upcall perform_all perform
greeting_exits os fd cb bytes rest s listens idle got unknown greets room refuses =
    rw got (simp (listens, greets, idle, room) (rw (refuses _ _ _ _ unknown) tt))
