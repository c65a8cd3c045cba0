-- ===== src/Iocp/State.antt =====
-- The static variables of proactor_net_iocp.c and the calls that it makes.
use Prim.Native.String.{String}
use tag_sim.Common.{ℕ, Bool, false, Option, none, List, [], ◌∷◌, if◌then◌else◌, ℤ, pos, minus_one}
use tag_sim.Machine.{Step, exited, done, pure, ◌>>=◌, ◌>>◌}

abbrev pub null : ℤ
null = pos 0

-- `INVALID_SOCKET` and `INVALID_HANDLE_VALUE` have all bits set; `SOCKET_ERROR` is -1.
abbrev pub invalid : ℤ
invalid = minus_one

abbrev pub socket_error : ℤ
socket_error = minus_one

-- `WSA_IO_PENDING`
abbrev pub wsa_io_pending : ℕ
wsa_io_pending = 997

abbrev pub buffer_size : ℕ
buffer_size = 8192

-- `sizeof(IO_OPERATION)` with pointers of 8 bytes.
abbrev pub io_operation_size : ℕ
io_operation_size = 8248

-- The calls. `wsa_recv` and `wsa_send` are given the socket, the operation's block, and the memory
-- with its length; the memory of a receive is the block's own buffer.
pub data Call : Type 0 where
  wsa_startup wsa_cleanup : Call
  create_port : ℤ → ℤ → ℤ → Call
  close_handle : ℤ → Call
  socket : Call
  bind : ℤ → ℕ → Call
  listen : ℤ → Call
  inet_pton : String → Call
  connect : ℤ → ℕ → Call
  accept : ℤ → Call
  closesocket : ℤ → Call
  get_completion : ℤ → Call
  wsa_recv : ℤ → ℤ → ℕ → Call
  wsa_send : ℤ → ℤ → ℤ → ℕ → Call
  malloc : ℕ → Call
  free : ℤ → Call
  perror : String → Call
  on_receive : ℕ → ℤ → List ℕ → ℕ → Call
  on_send_complete : ℕ → ℤ → ℕ → Call
  on_accept : ℕ → ℤ → ℤ → ℕ → Call

-- All calls so far with their results, the latest first.
abbrev pub Log : Type 0
Log = List (Call × ℤ)

-- What the application does by the interface of the program. The bytes of a send stay where the
-- application has them.
pub data Request : Type 0 where
  send : ℤ → ℤ → ℕ → Request
  stop wake : Request
  set_receive_callback set_send_complete_callback set_accept_callback : Option ℕ → ℕ → Request

-- The environment answers each call by all that went before it.
pub record Os : Type 0 where
  -- the result of a call
  pub sys : Log → Call → ℤ
  pub last_error : Log → ℕ
  -- what `WSARecv` stores: `bytes_received`, which is 0 before the call, and the buffer
  pub bytes_received : Log → ℕ
  pub input : Log → List ℕ
  -- whether `GetQueuedCompletionStatus`, which is called without a limit of time, ever returns
  pub returns : Log → Bool
  -- the key of the completion that `GetQueuedCompletionStatus` stores
  pub key : Log → ℤ
  -- what a callback does before it returns, and what other threads do while the loop waits
  pub app : Log → List Request

-- `completion_port` is never read or written.
pub record State : Type 0 where
  pub iocp : ℤ
  pub server_socket : ℤ
  pub client_socket : ℤ
  pub stop : Bool
  pub receive_callback : Option ℕ
  pub send_complete_callback : Option ℕ
  pub accept_callback : Option ℕ
  pub receive_user_data : ℕ
  pub send_complete_user_data : ℕ
  pub accept_user_data : ℕ
  pub log : Log

-- The static initialisers.
abbrev pub initial : State
initial = record {
  iocp = null;
  server_socket = invalid;
  client_socket = invalid;
  stop = false;
  receive_callback = none;
  send_complete_callback = none;
  accept_callback = none;
  receive_user_data = 0;
  send_complete_user_data = 0;
  accept_user_data = 0;
  log = [];
}

abbrev pub M : Type 0 → Type 0
M A = Step State A

abbrev pub logged : Call → ℤ → State → State
logged c r s = record s { log = (c, r) ∷ s.log }

-- A call whose result is not used.
abbrev pub note : Call → M (Unit {0})
note c s = done tt (logged c (pos 0) s)

-- `perror(msg); exit(EXIT_FAILURE);`
abbrev pub handle_error : {A : Type 0} → String → M A
handle_error msg s = exited (logged (perror msg) (pos 0) s)

abbrev pub exit_if : Bool → String → M (Unit {0})
exit_if failed msg = if failed then handle_error msg else pure tt

module _ (os : Os) where
  -- A call with the environment's answer.
  abbrev pub call : Call → M ℤ
  call c s = let r = os.sys s.log c in done r (logged c r s)

  -- `if (f(...) == bad) handle_error(msg);`
  abbrev pub need : (ℤ → Bool) → Call → String → M ℤ
  need bad c msg = do r ← call c; exit_if (bad r) msg; pure r
