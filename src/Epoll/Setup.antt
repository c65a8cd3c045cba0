-- ===== src/Epoll/Setup.antt =====
-- Starting and ending: `proactor_tcp_epoll_init`, `_cleanup`, `_start_server` and `_connect`.
use Prim.Native.String.{String}
use tag_sim.Common.{ℕ, Bool, not, Option, none, some, if◌then◌else◌, ℤ, pos}
use tag_sim.Epoll.State.{
  inet_pton, add, epoll_create, pipe, epoll_ctl, socket, bind, listen, connect, close, Os,
  SendRequest, M, note, fails, exit_if, call, need, epollin, in_out,
}
use tag_sim.Epoll.Heap.{free_live}
use tag_sim.Machine.{pure, ◌>>=◌, ◌>>◌, get, put}

unfoldable pub close_if : Bool → ℤ → M (Unit {0})
close_if open_fd fd = if open_fd then note (close fd) else pure tt

-- The request is freed, unless it was before: then this is a fault.
unfoldable pub free_request : Option SendRequest → M (Unit {0})
unfolding free_live
free_request none = pure tt
free_request (some r) = do free_live r.data_ptr; free_live r.block

-- `current_send_request` keeps its value, so that a second call frees the request again.
unfoldable pub cleanup : M (Unit {0})
unfolding close_if free_request
cleanup = do
  s ← get
  close_if (not (fails s.server_socket)) s.server_socket
  close_if (not (fails s.client_socket)) s.client_socket
  close_if (not (fails s.wakeup_read)) s.wakeup_read
  close_if (not (fails s.wakeup_read)) s.wakeup_write
  note (close s.epoll_fd)
  free_request s.current_send_request

module _ (os : Os) where
  unfoldable pub init : M ℤ
  init = do
    fd ← call os epoll_create
    put (λ s. record s { epoll_fd = fd })
    exit_if (fails fd) "epoll_create1"
    before ← get
    r ← call os pipe
    exit_if (fails r) "pipe"
    let (wakeup_read, wakeup_write) = os.pipe_fds before.log
    put (λ s. record s { wakeup_read = wakeup_read; wakeup_write = wakeup_write })
    s ← get
    r ← need os (epoll_ctl s.epoll_fd add wakeup_read epollin) "epoll_ctl"
    pure (pos 0)

  unfoldable pub start_server : ℕ → M ℤ
  start_server port = do
    fd ← call os socket
    put (λ s. record s { server_socket = fd })
    exit_if (fails fd) "socket"
    r ← need os (bind fd port) "bind"
    r ← need os (listen fd) "listen"
    s ← get
    r ← need os (epoll_ctl s.epoll_fd add fd epollin) "epoll_ctl"
    pure (pos 0)

  -- The result of `inet_pton` is not used.
  unfoldable pub connect_to : String → ℕ → M ℤ
  connect_to address port = do
    fd ← call os socket
    put (λ s. record s { client_socket = fd })
    exit_if (fails fd) "socket"
    r ← call os (inet_pton address)
    r ← need os (connect fd port) "connect"
    s ← get
    r ← need os (epoll_ctl s.epoll_fd add fd in_out) "epoll_ctl"
    pure (pos 0)
