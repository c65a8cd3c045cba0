-- ===== src/Iocp/Setup.antt =====
-- Starting and ending: `proactor_tcp_iocp_init`, `_cleanup`, `_start_server` and `_connect`.
use Prim.Native.String.{String}
use tag_sim.Common.{ℕ, Bool, not, if◌then◌else◌, ℤ, pos, ◌==ℤ◌}
use tag_sim.Iocp.State.{
  null, invalid, socket_error, Call, wsa_startup, wsa_cleanup, create_port, close_handle, socket,
  bind, listen, inet_pton, connect, closesocket, Os, M, note, exit_if, call, need,
}
use tag_sim.Machine.{pure, ◌>>=◌, ◌>>◌, get, put}

abbrev pub is_null : ℤ → Bool
is_null r = r ==ℤ null

abbrev pub is_invalid : ℤ → Bool
is_invalid r = r ==ℤ invalid

abbrev pub is_error : ℤ → Bool
is_error r = r ==ℤ socket_error

abbrev pub is_nonzero : ℤ → Bool
is_nonzero r = not (r ==ℤ pos 0)

unfoldable pub note_if : Bool → Call → M (Unit {0})
note_if test c = if test then note c else pure tt

unfoldable pub cleanup : M (Unit {0})
unfolding note_if
cleanup = do
  s ← get
  note_if (not (is_invalid s.server_socket)) (closesocket s.server_socket)
  note_if (not (is_invalid s.client_socket)) (closesocket s.client_socket)
  note_if (not (is_null s.iocp)) (close_handle s.iocp)
  note wsa_cleanup

module _ (os : Os) where
  unfoldable pub init : M ℤ
  init = do
    r ← need os is_nonzero wsa_startup "WSAStartup"
    iocp ← call os (create_port invalid null (pos 0))
    put (λ s. record s { iocp = iocp })
    exit_if (is_null iocp) "CreateIoCompletionPort"
    pure (pos 0)

  unfoldable pub start_server : ℕ → M ℤ
  start_server port = do
    fd ← call os socket
    put (λ s. record s { server_socket = fd })
    exit_if (is_invalid fd) "socket"
    r ← need os is_error (bind fd port) "bind"
    r ← need os is_error (listen fd) "listen"
    s ← get
    r ← need os is_null (create_port fd s.iocp fd) "CreateIoCompletionPort"
    pure (pos 0)

  -- The result of `inet_pton` is not used.
  unfoldable pub connect_to : String → ℕ → M ℤ
  connect_to address port = do
    fd ← call os socket
    put (λ s. record s { client_socket = fd })
    exit_if (is_invalid fd) "socket"
    r ← call os (inet_pton address)
    r ← need os is_error (connect fd port) "connect"
    s ← get
    r ← need os is_null (create_port fd s.iocp fd) "CreateIoCompletionPort"
    pure (pos 0)
