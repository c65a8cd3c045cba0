-- ===== src/Epoll/Api.antt =====
-- What the application may call: `proactor_tcp_epoll_wake`, `_stop`, the setters of the callbacks
-- and `_send`.
use tag_sim.Common.{ℕ, true, Option, none, some, List, [], ◌∷◌, length, ℤ, pos, minus_one, ◌==ℤ◌}
use tag_sim.Epoll.State.{
  Bytes, modify, epoll_ctl, write, malloc, memcpy, note, Request, Os, SendRequest, M, exit_if, call,
  need, epollout,
}
use tag_sim.Machine.{pure, ◌>>=◌, ◌>>◌, get, put}

abbrev pub null : ℤ
null = pos 0

unfoldable pub set_receive_callback : Option ℕ → ℕ → M (Unit {0})
set_receive_callback callback user_data =
    put (λ s. record s { receive_callback = callback; receive_user_data = user_data })

unfoldable pub set_send_complete_callback : Option ℕ → ℕ → M (Unit {0})
set_send_complete_callback callback user_data =
    put (λ s. record s { send_complete_callback = callback; send_complete_user_data = user_data })

unfoldable pub set_accept_callback : Option ℕ → ℕ → M (Unit {0})
set_accept_callback callback user_data =
    put (λ s. record s { accept_callback = callback; accept_user_data = user_data })

module _ (os : Os) where
  unfoldable pub wake : M (Unit {0})
  wake = do s ← get; r ← need os (write s.wakeup_write (1 ∷ [])) "write"; pure tt

  unfoldable pub stop : M (Unit {0})
  unfolding wake
  stop = do put (λ s. record s { stop = true }); wake

  -- A request is made where none is under way: two blocks, the copy of the caller's bytes, and the
  -- interest in `EPOLLOUT` for the socket.
  unfoldable pub start_send : ℤ → Bytes → M ℤ
  start_send fd bytes = do
    block ← call os (malloc 32)
    exit_if (block ==ℤ null) "malloc"
    data_ptr ← call os (malloc (length bytes))
    exit_if (data_ptr ==ℤ null) "malloc"
    note (memcpy data_ptr bytes)
    put (λ s. record s {
      current_send_request = some (record {
        block = block;
        data_ptr = data_ptr;
        content = bytes;
        size = length bytes;
        offset = 0;
      });
    })
    s ← get
    r ← need os (epoll_ctl s.epoll_fd modify fd epollout) "epoll_ctl"
    pure (pos 0)

  unfoldable pub send_when : Option SendRequest → ℤ → Bytes → M ℤ
  unfolding start_send
  send_when (some _) fd bytes = pure minus_one
  send_when none fd bytes = start_send fd bytes

  unfoldable pub send : ℤ → Bytes → M ℤ
  unfolding send_when
  send fd bytes = do s ← get; send_when s.current_send_request fd bytes

  unfoldable pub perform : Request → M (Unit {0})
  unfolding send stop wake set_receive_callback set_send_complete_callback set_accept_callback
  perform (Request.send fd bytes) = do r ← send fd bytes; pure tt
  perform Request.stop = stop
  perform Request.wake = wake
  perform (Request.set_receive_callback callback user_data) =
      set_receive_callback callback user_data
  perform (Request.set_send_complete_callback callback user_data) =
      set_send_complete_callback callback user_data
  perform (Request.set_accept_callback callback user_data) = set_accept_callback callback user_data

  -- The application's requests in their order.
  unfoldable pub perform_all : List Request → M (Unit {0})
  perform_all [] = pure tt
  perform_all (q ∷ rest) = perform q >> perform_all rest
