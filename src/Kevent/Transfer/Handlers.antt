-- ===== src/Kevent/Transfer/Handlers.antt =====
-- `handle_data_event`, `handle_write_event`, the setters and `proactor_net_send`.
use tag_sim.Common.{
  ℕ, ◌+◌, ◌-◌, Option, none, some, List, [], ◌∷◌, if◌then◌else◌, ◌==◌, leb, take, drop, length, ℤ,
  pos, negsuc, minus_one,
}
use tag_sim.Machine.{fault, pure, ◌>>=◌, ◌>>◌, get, put}
use tag_sim.Kevent.State.{evfilt_read, evfilt_write}
use tag_sim.Kevent.Transfer.State.{
  Bytes, ev_add, ev_delete, malloc, memcpy, free, read, write, close, perror, Call, on_receive,
  on_send_complete, Request, SendRequest, Os, M, note, External, need_block, call, ev_set,
  change_list,
}

unfoldable pub set_receive_callback : Option ℕ → ℕ → M (Unit {0})
set_receive_callback callback user_data =
    put (λ s. record s { receive_callback = callback; receive_user_data = user_data })

unfoldable pub set_send_complete_callback : Option ℕ → ℕ → M (Unit {0})
set_send_complete_callback callback user_data =
    put (λ s. record s { send_complete_callback = callback; send_complete_user_data = user_data })

unfoldable pub set_accept_callback : Option ℕ → ℕ → M (Unit {0})
set_accept_callback callback user_data =
    put (λ s. record s { accept_callback = callback; accept_user_data = user_data })

module _ (os : Os) (ext : External) where
  -- The request is made in two blocks and holds a copy of the caller's bytes; then the socket is
  -- watched for `EVFILT_WRITE`.
  unfoldable pub start_send : ℤ → Bytes → M ℤ
  unfolding change_list
  start_send socket bytes = do
    s ← get
    block ← call os (malloc 32)
    need_block ext block "malloc"
    let made = record (os.fresh s.log) { block = block }
    put (λ s. record s { current_send_request = some made })
    data_ptr ← call os (malloc (length bytes))
    need_block ext data_ptr "malloc"
    note (memcpy data_ptr bytes)
    put (λ s. record s {
      current_send_request =
          some
            (record made { data_ptr = data_ptr; content = bytes; size = length bytes; offset = 0 });
    })
    change_list os ext (ev_set (record { ident = socket; filter = evfilt_write; flag = ev_add }) [])
        1
    pure (pos 0)

  unfoldable pub send_when : Option SendRequest → ℤ → Bytes → M ℤ
  unfolding start_send
  send_when (some _) socket bytes = pure minus_one
  send_when none socket bytes = start_send socket bytes

  unfoldable pub send : ℤ → Bytes → M ℤ
  unfolding send_when
  send socket bytes = do s ← get; send_when s.current_send_request socket bytes

  unfoldable pub perform : Request → M (Unit {0})
  unfolding send set_receive_callback set_send_complete_callback set_accept_callback
  perform (Request.send socket bytes) = do r ← send socket bytes; pure tt
  perform (Request.set_receive_callback callback user_data) =
      set_receive_callback callback user_data
  perform (Request.set_send_complete_callback callback user_data) =
      set_send_complete_callback callback user_data
  perform (Request.set_accept_callback callback user_data) = set_accept_callback callback user_data

  unfoldable pub perform_all : List Request → M (Unit {0})
  perform_all [] = pure tt
  perform_all (q ∷ rest) = perform q >> perform_all rest

  -- A callback: the call, then what the application does before it returns.
  unfoldable pub upcall : Call → M (Unit {0})
  upcall c = do note c; s ← get; perform_all (os.app s.log)

  -- The descriptor is closed; one variable is set twice and passed as an array of two changes.
  unfoldable pub hang_up : ℤ → M (Unit {0})
  unfolding change_list
  hang_up fd = do
    note (close fd)
    change_list os ext
        (ev_set (record { ident = fd; filter = evfilt_write; flag = ev_delete })
          (ev_set (record { ident = fd; filter = evfilt_read; flag = ev_delete }) []))
        2

  unfoldable pub deliver : Option ℕ → ℤ → Bytes → ℕ → M (Unit {0})
  deliver none fd bytes user_data = pure tt
  deliver (some callback) fd bytes user_data = upcall (on_receive callback fd bytes user_data)

  -- The branches on `bytes_read`; `buffer` is what `read` filled.
  unfoldable pub data_read : ℤ → Bytes → ℤ → M (Unit {0})
  unfolding hang_up deliver
  data_read fd buffer (negsuc n) = do note (perror "read"); hang_up fd
  data_read fd buffer (pos n) =
      if n == 0
      then hang_up fd
      else (do s ← get; deliver s.receive_callback fd (take n buffer) s.receive_user_data)

  unfoldable pub handle_data_event : ℤ → M (Unit {0})
  unfolding data_read
  handle_data_event fd = do
    before ← get
    bytes_read ← call os (read fd ext.buffer_size)
    data_read fd (os.input before.log) bytes_read

  unfoldable pub completed : Option ℕ → ℤ → ℕ → M (Unit {0})
  completed none fd user_data = pure tt
  completed (some callback) fd user_data = upcall (on_send_complete callback fd user_data)

  -- `current_send_request` is read again after the callback.
  unfoldable pub release : Option SendRequest → M (Unit {0})
  release none = fault
  release (some r) = do
    note (free r.data_ptr)
    note (free r.block)
    put (λ s. record s { current_send_request = none })

  unfoldable pub finish_send : ℤ → M (Unit {0})
  unfolding completed release
  finish_send fd = do
    s ← get
    completed s.send_complete_callback fd s.send_complete_user_data
    s' ← get
    release s'.current_send_request

  -- The branches on `bytes_sent`.
  unfoldable pub data_sent : ℤ → SendRequest → ℤ → M (Unit {0})
  unfolding finish_send
  data_sent fd r (negsuc n) = note (perror "write")
  data_sent fd r (pos n) = do
    put (λ s. record s { current_send_request = some (record r { offset = r.offset + n }) })
    if leb r.size (r.offset + n) then finish_send fd else pure tt

  unfoldable pub write_pending : Option SendRequest → ℤ → M (Unit {0})
  unfolding data_sent
  write_pending none fd = pure tt
  write_pending (some r) fd = do
    bytes_sent ← call os (write fd (take (r.size - r.offset) (drop r.offset r.content)))
    data_sent fd r bytes_sent

  unfoldable pub handle_write_event : ℤ → M (Unit {0})
  unfolding write_pending
  handle_write_event fd = do s ← get; write_pending s.current_send_request fd
