-- ===== src/Iocp/Events.antt =====
-- The handlers of the completions, and the choice among them.
use tag_sim.Common.{ℕ, Option, none, some, List, if◌then◌else◌, ltb, take, ℤ, ◌==ℤ◌}
use tag_sim.Iocp.State.{
  io_operation_size, buffer_size, create_port, accept, wsa_recv, malloc, free, Call, on_receive,
  on_send_complete, on_accept, Os, State, M, note, exit_if, call, need,
}
use tag_sim.Iocp.Setup.{is_null, is_invalid}
use tag_sim.Iocp.Api.{fails, perform_all}
use tag_sim.Machine.{pure, ◌>>=◌, ◌>>◌, get}

module _ (os : Os) where
  -- A callback: the call, then what the application does before it returns.
  unfoldable pub upcall : Call → M (Unit {0})
  upcall c = do note c; s ← get; perform_all os (os.app s.log)

  unfoldable pub deliver : Option ℕ → ℤ → List ℕ → ℕ → M (Unit {0})
  deliver none fd bytes user_data = pure tt
  deliver (some callback) fd bytes user_data = upcall (on_receive callback fd bytes user_data)

  -- The operation's block is not freed.
  unfoldable pub handle_data_event : ℤ → M (Unit {0})
  unfolding deliver
  handle_data_event fd = do
    io_op ← call os (malloc io_operation_size)
    exit_if (is_null io_op) "malloc"
    before ← get
    result ← call os (wsa_recv fd io_op buffer_size)
    exit_if (fails result (os.last_error before.log)) "WSARecv"
    s ← get
    let n = os.bytes_received before.log
    let bytes = take n (os.input before.log)
    if ltb 0 n then deliver s.receive_callback fd bytes s.receive_user_data else pure tt

  unfoldable pub completed : Option ℕ → ℤ → ℕ → M (Unit {0})
  completed none fd user_data = pure tt
  completed (some callback) fd user_data = upcall (on_send_complete callback fd user_data)

  -- Nothing in the file calls this function.
  unfoldable pub handle_send_complete : ℤ → ℤ → M (Unit {0})
  unfolding completed
  handle_send_complete fd io_op = do
    s ← get
    completed s.send_complete_callback fd s.send_complete_user_data
    note (free io_op)

  unfoldable pub accepted : Option ℕ → ℤ → ℤ → ℕ → M (Unit {0})
  accepted none fd client user_data = pure tt
  accepted (some callback) fd client user_data = upcall (on_accept callback fd client user_data)

  -- `client_socket` is a local variable here: the static one of that name is left alone.
  unfoldable pub handle_accept_event : ℤ → M (Unit {0})
  unfolding accepted
  handle_accept_event fd = do
    client ← need os is_invalid (accept fd) "accept"
    s ← get
    r ← need os is_null (create_port client s.iocp client) "CreateIoCompletionPort"
    s ← get
    accepted s.accept_callback fd client s.accept_user_data

  unfoldable pub choose : State → ℤ → M (Unit {0})
  choose s key =
      if key ==ℤ s.server_socket
      then handle_accept_event s.server_socket
      else if key ==ℤ s.client_socket
      then handle_data_event key
      else pure tt

  -- What the loop does with the key of a completion.
  unfoldable pub dispatch : ℤ → M (Unit {0})
  unfolding choose
  dispatch key = do s ← get; choose s key
