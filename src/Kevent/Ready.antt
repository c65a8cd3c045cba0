-- ===== src/Kevent/Ready.antt =====
-- `process_accept_ready`, `process_read_ready` and `process_write_ready`.
use tag_sim.Common.{
  ℕ, zero, suc, Bool, true, false, Option, none, some, if◌then◌else◌, ℤ, pos, negsuc, ◌==ℤ◌,
}
use tag_sim.Machine.{fault, pure, ◌>>=◌, ◌>>◌, get}
use tag_sim.Status.Codes.{Status}
use tag_sim.Kevent.State.{
  null, tcp_client, Buffer, Socket, zeroed, calloc, accept, recvfrom, on_accept, on_receive,
  on_socket_close, Os, M, load, store, call,
}
use tag_sim.Kevent.Lifecycle.{upcall}

-- A descriptor above 0.
abbrev pub is_positive : ℤ → Bool
is_positive (negsuc n) = false
is_positive (pos zero) = false
is_positive (pos (suc n)) = true

-- `accept` stored the peer's address if it did not fail.
abbrev pub accepted_socket : ℤ → ℕ → Socket
accepted_socket fd addr = record zeroed {
  socket_type = tcp_client;
  sock = fd;
  remote_addr = if is_positive fd then addr else 0;
}

module _ (os : Os) where
  -- The new socket is neither linked into the proactor's list nor watched.
  unfoldable pub accept_with : ℤ → ℤ → Socket → ℕ → M Status
  accept_with proactor p server cb = do
    client ← call os calloc
    if client ==ℤ null then pure Status.no_resource else (do
      before ← get
      fd ← call os (accept server.sock)
      let rc = if is_positive fd then Status.ok else Status.internal_failure
      store client (some (accepted_socket fd (os.address before.log)))
      s ← get
      upcall os proactor (on_accept cb p client rc server.sock_data s.proactor.app_data)
      pure rc)

  unfoldable pub accept_by : ℤ → ℤ → Socket → Option ℕ → M Status
  unfolding accept_with
  accept_by proactor p server none = pure Status.null_ptr
  accept_by proactor p server (some cb) = accept_with proactor p server cb

  unfoldable pub process_accept_ready : ℤ → ℤ → M Status
  unfolding accept_by
  process_accept_ready proactor p = do server ← load p; accept_by proactor p server server.accept_cb

  unfoldable pub tell_peer_closed : ℤ → ℤ → Socket → Option ℕ → M (Unit {0})
  tell_peer_closed proactor p socket none = pure tt
  tell_peer_closed proactor p socket (some cb) = do
    s ← get
    upcall os proactor (on_socket_close cb p Status.ok socket.sock_data s.proactor.app_data)

  -- The branches on `read_rc`. `recvfrom` stores the address, and its result becomes the length of the
  -- buffer.
  unfoldable pub received : ℤ → ℤ → Socket → ℕ → Buffer → ℕ → ℤ → M (Unit {0})
  unfolding tell_peer_closed
  received proactor p socket cb buffer addr (negsuc n) = pure tt
  received proactor p socket cb buffer addr (pos zero) = do
    store p (some (record socket { remote_addr = addr }))
    tell_peer_closed proactor p socket socket.close_cb
  received proactor p socket cb buffer addr (pos (suc n)) =
      let filled = record buffer { data_length = suc n } in
      do
        store p (some (record socket { buffer = some filled; remote_addr = addr }))
        s ← get
        upcall os proactor
            (on_receive cb p addr filled Status.ok socket.sock_data s.proactor.app_data)

  unfoldable pub read_into : ℤ → ℤ → Socket → ℕ → Option Buffer → M Status
  unfolding received
  read_into proactor p socket cb none = fault
  read_into proactor p socket cb (some buffer) = do
    before ← get
    read_rc ← call os (recvfrom socket.sock buffer.buffer_data buffer.data_length)
    received proactor p socket cb buffer (os.address before.log) read_rc
    pure Status.ok

  unfoldable pub read_by : ℤ → ℤ → Socket → Option ℕ → M Status
  unfolding read_into
  read_by proactor p socket none = pure Status.null_ptr
  read_by proactor p socket (some cb) = read_into proactor p socket cb socket.buffer

  unfoldable pub process_read_ready : ℤ → ℤ → M Status
  unfolding read_by
  process_read_ready proactor p = do socket ← load p; read_by proactor p socket socket.receive_cb

  -- The function does nothing, and returns no value.
  unfoldable pub process_write_ready : ℤ → ℤ → M (Unit {0})
  process_write_ready proactor p = pure tt
