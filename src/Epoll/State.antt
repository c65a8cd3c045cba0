-- ===== src/Epoll/State.antt =====
-- The static variables of proactor_net_epoll.c, the calls that it makes and the steps built of them.
use tag_sim.Machine.{Step, exited, done, pure, ◌>>=◌, ◌>>◌}
use Prim.Native.String.{String}
use tag_sim.Common.{
  ℕ, Bool, false, Option, none, List, [], ◌∷◌, if◌then◌else◌, ℤ, pos, minus_one, ◌==ℤ◌, bit_or,
}

abbrev pub Bytes : Type 0
Bytes = List ℕ

-- `EPOLLIN` and `EPOLLOUT`, `EINTR` and the sizes of the source.
abbrev pub epollin : ℕ
epollin = 0x001

abbrev pub epollout : ℕ
epollout = 0x004

abbrev pub in_out : ℕ
in_out = bit_or epollin epollout

abbrev pub eintr : ℕ
eintr = 4

abbrev pub buffer_size : ℕ
buffer_size = 8192

abbrev pub max_events : ℕ
max_events = 64

-- The third argument of `epoll_ctl`.
pub data Op : Type 0 where
  add modify delete : Op

-- What the program asks of its environment: system calls, the allocator, and the application's
-- callbacks (a function pointer with its user data). Descriptors and pointers are C's integers.
pub data Call : Type 0 where
  epoll_create : Call
  pipe : Call
  epoll_ctl : ℤ → Op → ℤ → ℕ → Call
  epoll_wait : ℤ → ℕ → Call
  socket : Call
  bind : ℤ → ℕ → Call
  listen : ℤ → Call
  inet_pton : String → Call
  connect : ℤ → ℕ → Call
  accept : ℤ → Call
  close : ℤ → Call
  read : ℤ → ℕ → Call
  write : ℤ → Bytes → Call
  malloc : ℕ → Call
  memcpy : ℤ → Bytes → Call
  free : ℤ → Call
  perror : String → Call
  on_receive : ℕ → ℤ → Bytes → ℕ → Call
  on_send_complete : ℕ → ℤ → ℕ → Call
  on_accept : ℕ → ℤ → ℤ → ℕ → Call

-- All calls so far with their results, the latest first.
abbrev pub Log : Type 0
Log = List (Call × ℤ)

-- `struct epoll_event`
pub record Event : Type 0 where
  pub fd : ℤ
  pub events : ℕ

-- What the application does by the interface of the program.
pub data Request : Type 0 where
  send : ℤ → Bytes → Request
  stop wake : Request
  set_receive_callback set_send_complete_callback set_accept_callback : Option ℕ → ℕ → Request

-- The environment may answer each call by all that went before it.
pub record Os : Type 0 where
  -- the result of a call
  pub sys : Log → Call → ℤ
  -- what `pipe` stores
  pub pipe_fds : Log → ℤ × ℤ
  -- the buffer that `read` fills, and the array that `epoll_wait` fills
  pub input : Log → Bytes
  pub ready : Log → List Event
  pub errno : Log → ℕ
  -- what a callback does before it returns, and what other threads do during `epoll_wait`
  pub app : Log → List Request

-- `SendRequest`: `block` is its own address, `content` what the `size` bytes at `data` hold.
-- `user_data` is never read or written.
pub record SendRequest : Type 0 where
  pub block : ℤ
  pub data_ptr : ℤ
  pub content : Bytes
  pub size : ℕ
  pub offset : ℕ

pub record State : Type 0 where
  pub epoll_fd : ℤ
  pub server_socket : ℤ
  pub client_socket : ℤ
  pub wakeup_read : ℤ
  pub wakeup_write : ℤ
  pub stop : Bool
  pub receive_callback : Option ℕ
  pub send_complete_callback : Option ℕ
  pub accept_callback : Option ℕ
  pub receive_user_data : ℕ
  pub send_complete_user_data : ℕ
  pub accept_user_data : ℕ
  pub current_send_request : Option SendRequest
  pub log : Log

-- The static initialisers.
abbrev pub initial : State
initial = record {
  epoll_fd = pos 0;
  server_socket = minus_one;
  client_socket = minus_one;
  wakeup_read = pos 0;
  wakeup_write = pos 0;
  stop = false;
  receive_callback = none;
  send_complete_callback = none;
  accept_callback = none;
  receive_user_data = 0;
  send_complete_user_data = 0;
  accept_user_data = 0;
  current_send_request = none;
  log = [];
}

abbrev pub M : Type 0 → Type 0
M A = Step State A

-- A call whose result is not used.
abbrev pub note : Call → M (Unit {0})
note c s = done tt (record s { log = (c, pos 0) ∷ s.log })

abbrev pub fails : ℤ → Bool
fails r = r ==ℤ minus_one

-- `perror(msg); exit(EXIT_FAILURE);`
abbrev pub handle_error : {A : Type 0} → String → M A
handle_error msg s = exited (record s { log = (perror msg, pos 0) ∷ s.log })

abbrev pub exit_if : Bool → String → M (Unit {0})
exit_if failed msg = if failed then handle_error msg else pure tt

module _ (os : Os) where
  -- A call with the environment's answer.
  abbrev pub call : Call → M ℤ
  call c s = let r = os.sys s.log c in done r (record s { log = (c, r) ∷ s.log })

  -- `if (f(...) == -1) handle_error(msg);`
  abbrev pub need : Call → String → M ℤ
  need c msg = do r ← call c; exit_if (fails r) msg; pure r
