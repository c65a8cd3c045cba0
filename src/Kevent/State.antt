-- ===== src/Kevent/State.antt =====
-- `proactor_t`, `proactor_socket_t`, and the calls that proactor_net_kevent.c makes.
use tag_sim.Common.{ℕ, Bool, Option, none, some, List, ◌∷◌, if◌then◌else◌, ℤ, pos, minus_one, ◌==ℤ◌}
use tag_sim.Machine.{Step, fault, done, pure, put}
use tag_sim.Status.Codes.{Status}

abbrev pub null : ℤ
null = pos 0

-- `INVALID_SOCKET`
abbrev pub invalid_socket : ℤ
invalid_socket = minus_one

abbrev pub num_events : ℕ
num_events = 32

-- Linux numbers the first errors as the BSDs do.
abbrev pub eintr : ℕ
eintr = 4

-- The enumerators of proactor_net.h with which `socket_type` is compared. Those of this file,
-- `SOCKET_TYPE_TCP_ACCEPT`, `SOCKET_TYPE_TCP_CLIENT` and `SOCKET_TYPE_UDP`, have the same numbers.
abbrev pub tcp_listener : ℕ
tcp_listener = 0

abbrev pub tcp_client : ℕ
tcp_client = 1

abbrev pub udp : ℕ
udp = 2

-- `proactor_event_t`, of which the file reports the first and the last.
pub data ProactorEvent : Type 0 where
  tick timeout_event wake_event run_event stop_event dispose_event : ProactorEvent

-- `proactor_buf_t`; `buffer_data` is the pointer.
pub record Buffer : Type 0 where
  pub buffer_data : ℤ
  pub data_length : ℕ

-- `proactor_socket_t`. A callback is the number of a function; `buffer` is null or its buffer, which
-- no other socket shares. `remote_addr` is the address as the system gave it.
pub record Socket : Type 0 where
  pub next : ℤ
  pub sock : ℤ
  pub socket_type : ℕ
  pub status : Status
  pub remote_addr : ℕ
  pub buffer : Option Buffer
  pub accept_cb : Option ℕ
  pub close_cb : Option ℕ
  pub receive_cb : Option ℕ
  pub sent_cb : Option ℕ
  pub tick_cb : Option ℕ
  pub sock_data : ℕ

-- What `calloc` leaves.
abbrev pub zeroed : Socket
zeroed = record {
  next = null;
  sock = pos 0;
  socket_type = 0;
  status = Status.ok;
  remote_addr = 0;
  buffer = none;
  accept_cb = none;
  close_cb = none;
  receive_cb = none;
  sent_cb = none;
  tick_cb = none;
  sock_data = 0;
}

-- `proactor_t`
pub record Proactor : Type 0 where
  pub kq : ℤ
  pub wakeup_read : ℤ
  pub wakeup_write : ℤ
  pub tick_sec : ℕ
  pub tick_nsec : ℕ
  pub stop : Bool
  pub proactor_status : Status
  pub event_cb : Option ℕ
  pub app_data : ℕ
  pub sockets : ℤ

-- System calls, the allocator and the callbacks, with what they are given.
pub data Call : Type 0 where
  calloc : Call
  free : ℤ → Call
  kqueue : Call
  pipe : Call
  watch_read : ℤ → ℤ → Call
  wait : ℤ → ℕ → ℕ → ℕ → Call
  read : ℤ → ℕ → Call
  write : ℤ → List ℕ → Call
  accept : ℤ → Call
  recvfrom : ℤ → ℤ → ℕ → Call
  close : ℤ → Call
  on_event : ℕ → ProactorEvent → Status → ℕ → Call
  on_close : ℕ → ℤ → Status → ℕ → Call
  on_accept : ℕ → ℤ → ℤ → Status → ℕ → ℕ → Call
  -- the source passes the address of the socket's pointer; the call shows the buffer it leads to
  on_receive : ℕ → ℤ → ℕ → Buffer → Status → ℕ → ℕ → Call
  on_socket_close : ℕ → ℤ → Status → ℕ → ℕ → Call
  on_tick : ℕ → ℤ → Status → ℕ → ℕ → Call

abbrev pub Log : Type 0
Log = List (Call × ℤ)

-- `struct kevent`: `filter` tells `EVFILT_READ`, `EVFILT_WRITE` and others apart.
pub data Filter : Type 0 where
  evfilt_read evfilt_write other_filter : Filter

pub record Event : Type 0 where
  pub ident : ℤ
  pub filter : Filter
  pub udata : ℤ

-- What the application does by the interface, in a callback or in another thread. It leaves the sockets
-- alone, and the buffer of a socket too, to which `process_read_ready` gives it a pointer.
pub data Request : Type 0 where
  stop_request wake_request : Request

pub record Os : Type 0 where
  pub sys : Log → Call → ℤ
  pub pipe_fds : Log → ℤ × ℤ
  pub address : Log → ℕ
  pub ready : Log → List Event
  pub errno : Log → ℕ
  pub app : Log → List Request
  -- what a local variable without an initialiser holds
  pub garbage : Log → ℤ
  -- `socket_to_handle`, which the file calls and nothing declares
  pub handle : ℤ → ℤ

-- The one proactor, the sockets at their addresses, and the calls so far.
pub record State : Type 0 where
  pub proactor : Proactor
  pub heap : ℤ → Option Socket
  pub log : Log

abbrev pub M : Type 0 → Type 0
M A = Step State A

abbrev pub note : Call → M (Unit {0})
note c s = done tt (record s { log = (c, pos 0) ∷ s.log })

abbrev pub change : (Proactor → Proactor) → M (Unit {0})
change f = put (λ s. record s { proactor = f s.proactor })

abbrev pub found : Option Socket → M Socket
found none = fault
found (some socket) = pure socket

-- `*p`; a null pointer and one that points at no socket are a fault.
abbrev pub load : ℤ → M Socket
load p s = if p ==ℤ null then fault s else found (s.heap p) s

abbrev pub update : (ℤ → Option Socket) → ℤ → Option Socket → ℤ → Option Socket
update heap p cell q = if q ==ℤ p then cell else heap q

abbrev pub store : ℤ → Option Socket → M (Unit {0})
store p cell = put (λ s. record s { heap = update s.heap p cell })

module _ (os : Os) where
  abbrev pub call : Call → M ℤ
  call c s = let r = os.sys s.log c in done r (record s { log = (c, r) ∷ s.log })
