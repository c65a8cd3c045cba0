-- ===== src/Epoll/Same.antt =====
-- The descriptors of the program in the event loop, and the end of a pending request.
use tag_sim.Common.{◌+◌, ◌≡◌, refl, Option, none, some, arith, ℤ, pos, negsuc}
use tag_sim.Epoll.State.{Request, Os, SendRequest, State}
use tag_sim.Epoll.Api.{perform}
use tag_sim.Epoll.Events.{
  completed, release, finish_send, data_sent, write_pending, handle_write_event,
}
use tag_sim.Epoll.Keep.{completed-After}
use tag_sim.Machine.{After, After-bind}

module _ (os : Os) (s0 : State) where
  abbrev pub Same : State → Type 0
  Same s =
      (s.wakeup_read ≡ s0.wakeup_read)
      × (s.server_socket ≡ s0.server_socket)
      × (s.wakeup_write ≡ s0.wakeup_write)
      × (s.client_socket ≡ s0.client_socket)
      × (s.epoll_fd ≡ s0.epoll_fd)

  -- The request of the state is `r`.
  abbrev pub Busy : SendRequest → State → Type 0
  Busy r s = (s.current_send_request ≡ some r) × Same s

  pub perform-Same : (q : Request) (s : State) → Same s → After Same (perform os q s)
  unfolding perform
  perform-Same (Request.send fd bytes) s h = ground arith
  perform-Same Request.stop s h = ground arith
  perform-Same _ s h = ground arith

  pub perform-Busy :
      (r : SendRequest) (q : Request) (s : State) → Busy r s → After (Busy r) (perform os q s)
  unfolding perform
  perform-Busy r (Request.send fd bytes) s h = ground arith
  perform-Busy r Request.stop s h = ground arith
  perform-Busy r _ s h = ground arith

  -- The pending request is done with; `P` is what is to hold without one.
  pub finish_send-Same :
      (P : State → Type 0) (fd : ℤ) (r : SendRequest) (s : State)
      → ((t : State) → t.current_send_request ≡ none → Same t → P t)
      → Busy r s
      → After P (finish_send os fd s)
  unfolding finish_send release
  finish_send-Same P fd r s idle h =
      let cb = s.send_complete_callback in
      let user_data = s.send_complete_user_data in
      After-bind (Busy r) P (completed os cb fd user_data s) _
        (completed-After os (Busy r) (perform-Busy r) cb fd user_data s (λ c e. h) h)
        (λ _ t k. rw k.0 (idle _ refl k.1))

  data_sent-Same :
      (fd : ℤ) (r : SendRequest) (n : ℤ) (s : State) → Busy r s → After Same (data_sent os fd r n s)
  unfolding data_sent
  data_sent-Same fd r (negsuc n) s h = h.1
  data_sent-Same fd r (pos n) s h = ground (
    arith,
    finish_send-Same Same fd (record r { offset = r.offset + n })
        (record s { current_send_request = some (record r { offset = r.offset + n }) }) (λ t e k. k)
        (refl, h.1),
  )

  write_pending-Same :
      (p : Option SendRequest) (fd : ℤ) (s : State)
      → s.current_send_request ≡ p
      → Same s
      → After Same (write_pending os p fd s)
  unfolding write_pending
  write_pending-Same none fd s e h = h
  write_pending-Same (some r) fd s e h = data_sent-Same fd r _ _ (e, h)

  pub handle_write_event-Same :
      (fd : ℤ) (s : State) → Unit {0} → Same s → After Same (handle_write_event os fd s)
  unfolding handle_write_event
  handle_write_event-Same fd s known h = write_pending-Same s.current_send_request fd s refl h
