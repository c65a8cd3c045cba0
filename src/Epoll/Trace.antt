-- ===== src/Epoll/Trace.antt =====
-- How a property of the calls made so far is shown to hold however the handlers of the events end.
pub mod Loop
use Prim.Native.String.{String}
use tag_sim.Common.{
  All, pos_part, ℕ, zero, suc, ◌≡◌, refl, arith, Bool, true, false, Option, none, some, List, [],
  ◌∷◌, ℤ, pos, negsuc, ◌==ℤ◌, ◌==◌, if◌then◌else◌, take, Bool-cases, inl, inr, length, leb, ◌+◌,
  ◌-◌, drop,
}
use tag_sim.Epoll.State.{
  Log, Bytes, Call, read, on_receive, Request, Os, State, M, SendRequest, Event, note, need,
  exit_if, fails, call, buffer_size, malloc, memcpy, write, free, close, perror, accept, epoll_ctl,
  epoll_wait, modify, delete, add, on_accept, on_send_complete, epollout, epollin, in_out,
  max_events, eintr, handle_error,
}
use tag_sim.Epoll.Keep.{logged}
use tag_sim.Epoll.Api.{perform, perform_all, send, send_when, start_send, stop, wake, null}
use tag_sim.Epoll.Events.{
  upcall, completed, deliver, drop_connection, data_read, handle_data_event, handle_write_event,
  accepted, handle_accept_event, choose, dispatch, release, finish_send, data_sent, write_pending,
  has,
}
use tag_sim.Epoll.Loop.{dispatch_all, serve, round, run, run_stopped, run_goes_on}
use tag_sim.Machine.{Every, Every-bind, ◌>>=◌, ◌>>◌, pure, done}
use tag_sim.Epoll.Traced.{Quiet, Allowed, Traced}

module _ (os : Os) (pipe : ℤ) (L : Option ℕ → Type 0) (R : Log → Type 0)
    (asked : (log : Log) → All (Allowed L) (os.app log)) (traced : Traced os pipe L R) where
  abbrev pub Good : State → Type 0
  Good s = (s.wakeup_read ≡ pipe) × L s.receive_callback × R s.log

  pub Good-logged : (c : Call) (r : ℤ) (s : State) → Quiet c → Good s → Good (logged c r s)
  Good-logged c r s e h = (h.0, h.1, traced.calls c r s.log e h.2)

  pub if-Good :
      {A : Type 0} (b : Bool) (m n : M A) (s : State)
      → Every Good (m s)
      → Every Good (n s)
      → Every Good ((if b then m else n) s)
  if-Good true m n s h k = h
  if-Good false m n s h k = k

  exit_if-Good :
      {A : Type 0} (b : Bool) (msg : String) (k : Unit {0} → M A) (s : State)
      → Good s
      → Every Good (k tt s)
      → Every Good ((exit_if b msg >>= k) s)
  exit_if-Good true msg k s h e = Good-logged (perror msg) (pos 0) s tt h
  exit_if-Good false msg k s h e = e

  need-Good :
      {A : Type 0} (c : Call) (msg : String) (k : ℤ → M A) (s : State)
      → Quiet c
      → Good s
      → (Good (logged c (os.sys s.log c) s)
          → Every Good (k (os.sys s.log c) (logged c (os.sys s.log c) s)))
      → Every Good ((need os c msg >>= k) s)
  need-Good c msg k s e h next = elim (Bool-cases (fails (os.sys s.log c))) [
    | inl failed ↦ rw failed (
        Good-logged (perror msg) (pos 0) (logged c (os.sys s.log c) s) tt
          (Good-logged c (os.sys s.log c) s e h))
    | inr passed ↦ rw passed (next (Good-logged c (os.sys s.log c) s e h))
  ]

  start_send-Good :
      (fd : ℤ) (bytes : Bytes) (s : State) → Good s → Every Good (start_send os fd bytes s)
  unfolding start_send
  start_send-Good fd bytes s h =
      let block = os.sys s.log (malloc 32) in
      let s1 = logged (malloc 32) block s in
      let h1 = Good-logged (malloc 32) block s tt h in
      let copy = os.sys s1.log (malloc (length bytes)) in
      let h2 = Good-logged (malloc (length bytes)) copy s1 tt h1 in
      let s2 = logged (malloc (length bytes)) copy s1 in
      let h3 = Good-logged (memcpy copy bytes) (pos 0) s2 tt h2 in
      exit_if-Good (block ==ℤ null) _ _ _ h1 (
        exit_if-Good (copy ==ℤ null) _ _ _ h2
          (need-Good (epoll_ctl s.epoll_fd modify fd epollout) _ _ _ tt h3 (λ g. g)))

  send_when-Good :
      (p : Option SendRequest) (fd : ℤ) (bytes : Bytes) (s : State)
      → Good s
      → Every Good (send_when os p fd bytes s)
  unfolding send_when
  send_when-Good none fd bytes s h = start_send-Good fd bytes s h
  send_when-Good (some r) fd bytes s h = h

  wake-Good : (s : State) → Good s → Every Good (wake os s)
  unfolding wake
  wake-Good s h = need-Good _ _ _ s tt h (λ g. g)

  perform-Good : (q : Request) (s : State) → Allowed L q → Good s → Every Good (perform os q s)
  unfolding perform send stop
  perform-Good (Request.send fd bytes) s e h =
      Every-bind Good _ _ (send_when-Good s.current_send_request fd bytes s h) (λ _ t k. k)
  perform-Good Request.stop s e h = wake-Good (record s { stop = true }) h
  perform-Good Request.wake s e h = wake-Good s h
  perform-Good (Request.set_receive_callback cb d) s e h = (h.0, e, h.2)
  perform-Good _ s e h = h

  pub perform_all-Good :
      (qs : List Request) (s : State)
      → All (Allowed L) qs
      → Good s
      → Every Good (perform_all os qs s)
  unfolding perform_all
  perform_all-Good [] s e h = h
  perform_all-Good (q ∷ qs) s e h =
      Every-bind Good (perform os q s) _ (perform-Good q s e.0 h)
        (λ _ t k. perform_all-Good qs t e.1 k)

  upcall-Good : (c : Call) (s : State) → Good (logged c (pos 0) s) → Every Good (upcall os c s)
  unfolding upcall
  upcall-Good c s h =
      let log = (c, pos 0) ∷ s.log in
      perform_all-Good (os.app log) (logged c (pos 0) s) (asked log) h

  drop_connection-Good : (fd : ℤ) (s : State) → Good s → Every Good (drop_connection os fd s)
  unfolding drop_connection
  drop_connection-Good fd s h =
      let h1 = Good-logged (close fd) (pos 0) s tt h in
      need-Good (epoll_ctl s.epoll_fd delete fd in_out) _ _ _ tt h1 (λ g. g)

  deliver-Good :
      (cb : Option ℕ) (fd : ℤ) (n d : ℕ) (s : State)
      → (fd ==ℤ pipe) ≡ false
      → L cb
      → Good s
      → Every Good (
          deliver os cb fd
            (take (suc n) (os.input s.log))
            d
            (logged (read fd buffer_size) (pos (suc n)) s))
  unfolding deliver
  deliver-Good none fd n d s apart e h = (h.0, h.1, traced.unheard fd n s.log apart e h.2)
  deliver-Good (some cb) fd n d s apart e h =
      upcall-Good _ _ (h.0, h.1, traced.hears cb fd n d s.log apart h.2)

  data_read-Good :
      (fd r : ℤ) (s : State)
      → (fd ==ℤ pipe) ≡ false
      → Good s
      → Every Good (data_read os fd (os.input s.log) r (logged (read fd buffer_size) r s))
  unfolding data_read
  data_read-Good fd (negsuc n) s apart h = drop_connection-Good fd _ (
      Good-logged (perror "read") (pos 0) (logged (read fd buffer_size) (negsuc n) s) tt
        (h.0, h.1, traced.ends fd (negsuc n) s.log apart refl h.2))
  data_read-Good fd (pos zero) s apart h =
      drop_connection-Good fd _ (h.0, h.1, traced.ends fd (pos 0) s.log apart refl h.2)
  data_read-Good fd (pos (suc n)) s apart h =
      let more : (suc n == 0) ≡ false = ground arith in
      rw more (deliver-Good s.receive_callback fd n s.receive_user_data s apart h.1 h)

  pub handle_data_event-Good :
      (fd : ℤ) (s : State) → (fd ==ℤ pipe) ≡ false → Good s → Every Good (handle_data_event os fd s)
  unfolding handle_data_event
  handle_data_event-Good fd s apart h =
      data_read-Good fd (os.sys s.log (read fd buffer_size)) s apart h

  completed-Good :
      (cb : Option ℕ) (fd : ℤ) (d : ℕ) (s : State) → Good s → Every Good (completed os cb fd d s)
  unfolding completed
  completed-Good none fd d s h = h
  completed-Good (some cb) fd d s h = upcall-Good _ s (Good-logged _ _ s tt h)

  release-Good : (p : Option SendRequest) (s : State) → Good s → Every Good (release os p s)
  unfolding release
  release-Good none s h = h
  release-Good (some r) s h =
      Good-logged (free r.block) (pos 0) (logged (free r.data_ptr) (pos 0) s) tt
        (Good-logged (free r.data_ptr) (pos 0) s tt h)

  finish_send-Good : (fd : ℤ) (s : State) → Good s → Every Good (finish_send os fd s)
  unfolding finish_send
  finish_send-Good fd s h =
      Every-bind Good _ _ (completed-Good s.send_complete_callback fd s.send_complete_user_data s h)
        (λ _ t k. release-Good t.current_send_request t k)

  data_sent-Good :
      (fd : ℤ) (r : SendRequest) (n : ℤ) (s : State) → Good s → Every Good (data_sent os fd r n s)
  unfolding data_sent
  data_sent-Good fd r (negsuc n) s h = Good-logged (perror "write") (pos 0) s tt h
  data_sent-Good fd r (pos n) s h =
      if-Good (leb r.size (r.offset + n)) (finish_send os fd) (pure tt) _ (finish_send-Good fd _ h)
        h

  pub write_pending-Good :
      (p : Option SendRequest) (fd : ℤ) (s : State) → Good s → Every Good (write_pending os p fd s)
  unfolding write_pending
  write_pending-Good none fd s h = h
  write_pending-Good (some r) fd s h = data_sent-Good fd r _ _ (Good-logged _ _ s tt h)

  accepted-Good :
      (cb : Option ℕ) (fd client : ℤ) (d : ℕ) (s : State)
      → Good s
      → Every Good (accepted os cb fd client d s)
  unfolding accepted
  accepted-Good none fd client d s h = h
  accepted-Good (some cb) fd client d s h = upcall-Good _ s (Good-logged _ _ s tt h)

  pub handle_accept_event-Good :
      (fd : ℤ) (s : State) → Good s → Every Good (handle_accept_event os fd s)
  unfolding handle_accept_event
  handle_accept_event-Good fd s h =
      let client = os.sys s.log (accept fd) in
      let h1 = Good-logged (accept fd) client s tt h in
      if-Good (fails client) _ _ _
        (Good-logged (perror "accept") (pos 0) (logged (accept fd) client s) tt h1)
        (Every-bind Good _ _ (accepted-Good s.accept_callback fd client s.accept_user_data _ h1)
          (λ _ t k. need-Good (epoll_ctl t.epoll_fd add client in_out) _ _ t tt k (λ g. g)))
