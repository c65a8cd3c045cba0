-- ===== src/Epoll/Events.antt =====
-- The handlers of the events, and the choice among them.
use tag_sim.Common.{
  ℕ, ◌+◌, ◌-◌, Bool, not, Option, none, some, List, if◌then◌else◌, ◌==◌, leb, take, drop, bit_and,
  ℤ, pos, negsuc, ◌==ℤ◌,
}
use tag_sim.Epoll.State.{
  add, delete, epoll_ctl, accept, close, read, write, free, perror, Call, on_receive,
  on_send_complete, on_accept, Event, Os, SendRequest, State, M, note, fails, call, need, epollin,
  epollout, in_out, buffer_size,
}
use tag_sim.Machine.{fault, pure, ◌>>=◌, ◌>>◌, get, put}
use tag_sim.Epoll.Api.{perform_all}

-- `events & flag`
abbrev pub has : ℕ → ℕ → Bool
has events flag = not (bit_and events flag == 0)

module _ (os : Os) where
  -- A callback: the call, then what the application does before it returns.
  unfoldable pub upcall : Call → M (Unit {0})
  upcall c = do note c; s ← get; perform_all os (os.app s.log)

  -- The connection is closed, then taken out of the interest list.
  unfoldable pub drop_connection : ℤ → M (Unit {0})
  drop_connection fd = do
    note (close fd)
    s ← get
    r ← need os (epoll_ctl s.epoll_fd delete fd in_out) "epoll_ctl"
    pure tt

  unfoldable pub deliver : Option ℕ → ℤ → List ℕ → ℕ → M (Unit {0})
  deliver none fd bytes user_data = pure tt
  deliver (some callback) fd bytes user_data = upcall (on_receive callback fd bytes user_data)

  -- The branches on `bytes_read`; `buffer` is what `read` filled.
  unfoldable pub data_read : ℤ → List ℕ → ℤ → M (Unit {0})
  unfolding drop_connection deliver
  data_read fd buffer (negsuc n) = do note (perror "read"); drop_connection fd
  data_read fd buffer (pos n) =
      if n == 0
      then drop_connection fd
      else (do s ← get; deliver s.receive_callback fd (take n buffer) s.receive_user_data)

  unfoldable pub handle_data_event : ℤ → M (Unit {0})
  unfolding data_read
  handle_data_event fd = do
    before ← get
    bytes_read ← call os (read fd buffer_size)
    data_read fd (os.input before.log) bytes_read

  unfoldable pub completed : Option ℕ → ℤ → ℕ → M (Unit {0})
  completed none fd user_data = pure tt
  completed (some callback) fd user_data = upcall (on_send_complete callback fd user_data)

  -- `current_send_request` is read again after the callback.
  unfoldable pub release : Option SendRequest → M (Unit {0})
  release none = fault
  release (some r) = do
    note (free r.data_ptr)
    note (free r.block)
    put (λ s. record s { current_send_request = none })

  unfoldable pub finish_send : ℤ → M (Unit {0})
  unfolding completed release
  finish_send fd = do
    s ← get
    completed s.send_complete_callback fd s.send_complete_user_data
    s' ← get
    release s'.current_send_request

  -- The branches on `bytes_sent`.
  unfoldable pub data_sent : ℤ → SendRequest → ℤ → M (Unit {0})
  unfolding finish_send
  data_sent fd r (negsuc n) = note (perror "write")
  data_sent fd r (pos n) = do
    put (λ s. record s { current_send_request = some (record r { offset = r.offset + n }) })
    if leb r.size (r.offset + n) then finish_send fd else pure tt

  unfoldable pub write_pending : Option SendRequest → ℤ → M (Unit {0})
  unfolding data_sent
  write_pending none fd = pure tt
  write_pending (some r) fd = do
    bytes_sent ← call os (write fd (take (r.size - r.offset) (drop r.offset r.content)))
    data_sent fd r bytes_sent

  unfoldable pub handle_write_event : ℤ → M (Unit {0})
  unfolding write_pending
  handle_write_event fd = do s ← get; write_pending s.current_send_request fd

  unfoldable pub accepted : Option ℕ → ℤ → ℤ → ℕ → M (Unit {0})
  accepted none fd client user_data = pure tt
  accepted (some callback) fd client user_data = upcall (on_accept callback fd client user_data)

  -- `client_socket` is a local variable here: the static one of that name is left alone.
  unfoldable pub handle_accept_event : ℤ → M (Unit {0})
  unfolding accepted
  handle_accept_event fd = do
    client ← call os (accept fd)
    if fails client then note (perror "accept") else (do
      s ← get
      accepted s.accept_callback fd client s.accept_user_data
      s' ← get
      r ← need os (epoll_ctl s'.epoll_fd add client in_out) "epoll_ctl"
      pure tt)

  unfoldable pub choose : State → Event → M (Unit {0})
  choose s e =
      if e.fd ==ℤ s.wakeup_read
      then (do r ← call os (read s.wakeup_read 1); pure tt)
      else if e.fd ==ℤ s.server_socket
      then handle_accept_event e.fd
      else if has e.events epollin
      then handle_data_event e.fd
      else if has e.events epollout
      then handle_write_event e.fd
      else pure tt

  -- The body of the `for` loop over the events.
  unfoldable pub dispatch : Event → M (Unit {0})
  unfolding choose
  dispatch e = do s ← get; choose s e
