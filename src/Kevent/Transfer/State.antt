-- ===== src/Kevent/Transfer/State.antt =====
-- The variables that the functions use, and the calls that they make.
use Prim.Native.String.{String}
use tag_sim.Common.{
  ℕ, Bool, Option, List, ◌∷◌, if◌then◌else◌, ℤ, pos, minus_one, ◌==ℤ◌, ltb, length,
}
use tag_sim.Machine.{Step, fault, done, pure, ◌>>=◌, ◌>>◌}
use tag_sim.Kevent.State.{Filter, null}

abbrev pub Bytes : Type 0
Bytes = List ℕ

-- `EV_ADD` and `EV_DELETE`
pub data Flag : Type 0 where
  ev_add ev_delete : Flag

-- A `struct kevent` as a change.
pub record Change : Type 0 where
  pub ident : ℤ
  pub filter : Filter
  pub flag : Flag

pub data Call : Type 0 where
  malloc : ℕ → Call
  memcpy : ℤ → Bytes → Call
  free : ℤ → Call
  read : ℤ → ℕ → Call
  write : ℤ → Bytes → Call
  close : ℤ → Call
  kevent : ℤ → List Change → Call
  perror : String → Call
  on_receive : ℕ → ℤ → Bytes → ℕ → Call
  on_send_complete : ℕ → ℤ → ℕ → Call

-- All calls so far with their results, the latest first.
abbrev pub Log : Type 0
Log = List (Call × ℤ)

-- What the application does by these functions before a callback returns.
pub data Request : Type 0 where
  send : ℤ → Bytes → Request
  set_receive_callback set_send_complete_callback set_accept_callback : Option ℕ → ℕ → Request

-- `send_request_t`, by the fields that are used: `block` is its own address, `content` what the bytes
-- at `data` hold.
pub record SendRequest : Type 0 where
  pub block : ℤ
  pub data_ptr : ℤ
  pub content : Bytes
  pub size : ℕ
  pub offset : ℕ

pub record Os : Type 0 where
  pub sys : Log → Call → ℤ
  -- the buffer that `read` fills
  pub input : Log → Bytes
  -- what a new request holds
  pub fresh : Log → SendRequest
  pub app : Log → List Request

pub record State : Type 0 where
  pub kq : ℤ
  pub receive_callback : Option ℕ
  pub send_complete_callback : Option ℕ
  pub accept_callback : Option ℕ
  pub receive_user_data : ℕ
  pub send_complete_user_data : ℕ
  pub accept_user_data : ℕ
  pub current_send_request : Option SendRequest
  pub log : Log

abbrev pub M : Type 0 → Type 0
M A = Step State A

abbrev pub logged : Call → ℤ → State → State
logged c r s = record s { log = (c, r) ∷ s.log }

abbrev pub note : Call → M (Unit {0})
note c s = done tt (logged c (pos 0) s)

-- The macro and the function that are declared nowhere.
pub record External : Type 0 where
  pub buffer_size : ℕ
  pub handle_error : String → M (Unit {0})

abbrev pub fails : ℤ → Bool
fails r = r ==ℤ minus_one

module _ (ext : External) where
  abbrev pub error_if : Bool → String → M (Unit {0})
  error_if failed msg = if failed then ext.handle_error msg else pure tt

  -- `if(!p) handle_error(msg);` before `p` is used.
  abbrev pub need_block : ℤ → String → M (Unit {0})
  need_block p msg = if p ==ℤ null then ext.handle_error msg >> fault else pure tt

module _ (os : Os) where
  abbrev pub call : Call → M ℤ
  call c s = let r = os.sys s.log c in done r (logged c r s)

-- `EV_SET(&ev, ...)` on a variable that is one `struct kevent`.
abbrev pub ev_set : Change → List Change → List Change
ev_set c ev = c ∷ List.[]

-- `if (kevent(kq, ev, n, NULL, 0, NULL) == -1) handle_error("kevent");` reads `n` changes at `ev`.
unfoldable pub change_list : Os → External → List Change → ℕ → M (Unit {0})
change_list os ext ev n s =
    if ltb (length ev) n
    then fault s
    else (call os (kevent s.kq ev) >>= λ r. error_if ext (fails r) "kevent") s
