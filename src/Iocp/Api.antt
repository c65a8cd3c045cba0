-- ===== src/Iocp/Api.antt =====
-- What the application may call: `proactor_tcp_iocp_send`, `_stop`, `_wake` and the setters of the
-- callbacks.
use tag_sim.Common.{ℕ, ◌%◌, Bool, true, ◌&&◌, not, Option, List, [], ◌∷◌, ◌==◌, ℤ, pos}
use tag_sim.Iocp.State.{
  io_operation_size, wsa_io_pending, wsa_send, malloc, Request, Os, M, exit_if, call,
}
use tag_sim.Iocp.Setup.{is_null, is_error}
use tag_sim.Machine.{pure, ◌>>=◌, ◌>>◌, get, put}

unfoldable pub set_receive_callback : Option ℕ → ℕ → M (Unit {0})
set_receive_callback callback user_data =
    put (λ s. record s { receive_callback = callback; receive_user_data = user_data })

unfoldable pub set_send_complete_callback : Option ℕ → ℕ → M (Unit {0})
set_send_complete_callback callback user_data =
    put (λ s. record s { send_complete_callback = callback; send_complete_user_data = user_data })

unfoldable pub set_accept_callback : Option ℕ → ℕ → M (Unit {0})
set_accept_callback callback user_data =
    put (λ s. record s { accept_callback = callback; accept_user_data = user_data })

unfoldable pub stop : M (Unit {0})
stop = put (λ s. record s { stop = true })

-- The function's body is empty.
unfoldable pub wake : M (Unit {0})
wake = pure tt

-- An operation has failed for good, with the result and `WSAGetLastError`.
abbrev pub fails : ℤ → ℕ → Bool
fails result error = is_error result && not (error == wsa_io_pending)

module _ (os : Os) where
  -- `WSASend` is given the memory of the caller; `wsabuf.len` has 32 bits.
  unfoldable pub send : ℤ → ℤ → ℕ → M ℤ
  send fd memory length = do
    io_op ← call os (malloc io_operation_size)
    exit_if (is_null io_op) "malloc"
    before ← get
    result ← call os (wsa_send fd io_op memory (length % 4294967296))
    exit_if (fails result (os.last_error before.log)) "WSASend"
    pure (pos 0)

  unfoldable pub perform : Request → M (Unit {0})
  unfolding send stop wake set_receive_callback set_send_complete_callback set_accept_callback
  perform (Request.send fd memory length) = do r ← send fd memory length; pure tt
  perform Request.stop = stop
  perform Request.wake = wake
  perform (Request.set_receive_callback callback user_data) =
      set_receive_callback callback user_data
  perform (Request.set_send_complete_callback callback user_data) =
      set_send_complete_callback callback user_data
  perform (Request.set_accept_callback callback user_data) = set_accept_callback callback user_data

  -- The application's requests in their order.
  unfoldable pub perform_all : List Request → M (Unit {0})
  perform_all [] = pure tt
  perform_all (q ∷ rest) = perform q >> perform_all rest
