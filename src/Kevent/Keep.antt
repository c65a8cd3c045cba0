-- ===== src/Kevent/Keep.antt =====
-- How a property of the state is shown to survive the handlers of the events, however they end.
pub mod Loop
pub mod Known
use tag_sim.Common.{
  sym, ◌==◌, ◌||◌, ℕ, zero, suc, ◌≤◌, ◌≡◌, refl, inl, inr, Bool, true, false, Option, none, some,
  List, [], ◌∷◌, if◌then◌else◌, ℤ, pos, negsuc, ◌==ℤ◌, ==ℤ_iff, Bool-cases, pos_part, arith,
}
use tag_sim.Machine.{Every, Every-bind, ◌>>=◌}
use tag_sim.Kevent.State.{
  wait, free, close, null, Buffer, Socket, Os, State, Log, Call, Request, stop_request,
  wake_request, recvfrom, update, M, load, found, calloc, tcp_client, tcp_listener, udp, Event,
  evfilt_read, evfilt_write, Filter, other_filter,
}
use tag_sim.Kevent.Lifecycle.{perform, perform_all, upcall, stop, wake}
use tag_sim.Kevent.Ready.{
  accepted_socket, process_write_ready, process_accept_ready, accept_by, accept_with, received,
  tell_peer_closed, read_into, read_by, process_read_ready,
}
use tag_sim.Kevent.Loop.{by_filter, by_type, dispatch, dispatch_all}
use tag_sim.Kevent.Dispose.{last_closed}
use tag_sim.Kevent.Sockets.{closes, frees, logged}

-- The socket once `n + 1` bytes are received.
abbrev pub filled : Socket → Buffer → ℕ → ℕ → Socket
filled c buffer addr n = record c {
  buffer = some (record buffer { data_length = suc n });
  remote_addr = addr;
}

-- The calls that the handlers make.
abbrev pub Handled : Call → Type 0
Handled (close fd) = ⊥
Handled (free p) = ⊥
Handled (wait kq n sec nsec) = ⊥
Handled _ = Unit {0}

-- A property of the state survives these calls, a stop, and the three places where the event loop
-- writes to a socket: a new one is stored, the address of the peer is, and so is the length of what was
-- received.
pub record Stable (os : Os) (Q : State → Type 0) : Type 0 where
  pub calls : (c : Call) (r : ℤ) (s : State) → Handled c → Q s → Q (logged c r s)
  pub stops : (s : State) → Q s → Q (record s { proactor = record s.proactor { stop = true } })
  pub accepts :
      (log : Log) (fd : ℤ) (addr : ℕ) (s : State)
      → Q s
      → Q (record s { heap = update s.heap (os.sys log calloc) (some (accepted_socket fd addr)) })
  pub reads_end :
      (p : ℤ) (c : Socket) (addr : ℕ) (s : State)
      → s.heap p ≡ some c
      → Q s
      → Q (record s { heap = update s.heap p (some (record c { remote_addr = addr })) })
  pub reads_some :
      (p : ℤ) (c : Socket) (buffer : Buffer) (log : Log) (addr n : ℕ) (s : State)
      → s.heap p ≡ some c
      → c.buffer ≡ some buffer
      → os.sys log (recvfrom c.sock buffer.buffer_data buffer.data_length) ≡ pos (suc n)
      → Q s
      → Q (record s { heap = update s.heap p (some (filled c buffer addr n)) })

-- The rule, however the handlers end.
module _ (os : Os) (Q : State → Type 0) (stable : Stable os Q) (proactor : ℤ) where
  wake-Keeps : (s : State) → Q s → Every Q (wake os proactor s)
  unfolding wake
  wake-Keeps s h = elim (Bool-cases (proactor ==ℤ null)) [
    | inl none_given ↦ rw none_given h
    | inr given ↦ rw given (stable.calls _ _ s tt h)
  ]

  stop-Keeps : (s : State) → Q s → Every Q (stop os proactor s)
  unfolding stop
  stop-Keeps s h = elim (Bool-cases (proactor ==ℤ null)) [
    | inl none_given ↦ rw none_given h
    | inr given ↦ rw given (stable.calls _ _ _ tt (stable.stops s h))
  ]

  perform-Keeps : (q : Request) (s : State) → Q s → Every Q (perform os proactor q s)
  unfolding perform
  perform-Keeps stop_request s h = stop-Keeps s h
  perform-Keeps wake_request s h = wake-Keeps s h

  pub perform_all-Keeps :
      (qs : List Request) (s : State) → Q s → Every Q (perform_all os proactor qs s)
  unfolding perform_all
  perform_all-Keeps [] s h = h
  perform_all-Keeps (q ∷ qs) s h =
      Every-bind Q (perform os proactor q s) _ (perform-Keeps q s h)
        (λ _ t k. perform_all-Keeps qs t k)

  pub upcall-Keeps : (c : Call) (s : State) → Handled c → Q s → Every Q (upcall os proactor c s)
  unfolding upcall
  upcall-Keeps c s e h =
      perform_all-Keeps (os.app ((c, pos 0) ∷ s.log)) (logged c (pos 0) s)
        (stable.calls c (pos 0) s e h)

  found-Keeps :
      {A : Type 0} (p : ℤ) (k : Socket → M A) (s : State) (cell : Option Socket)
      → s.heap p ≡ cell
      → Q s
      → ((c : Socket) → s.heap p ≡ some c → Every Q (k c s))
      → Every Q ((found cell >>= k) s)
  found-Keeps p k s none at h next = h
  found-Keeps p k s (some c) at h next = next c at

  pub load-Keeps :
      {A : Type 0} (p : ℤ) (k : Socket → M A) (s : State)
      → Q s
      → ((c : Socket) → s.heap p ≡ some c → Every Q (k c s))
      → Every Q ((load p >>= k) s)
  load-Keeps p k s h next = elim (Bool-cases (p ==ℤ null)) [
    | inl e ↦ rw e h
    | inr e ↦ rw e (found-Keeps p k s (s.heap p) refl h next)
  ]

  pub if-Keeps :
      {A : Type 0} (b : Bool) (m n : M A) (s : State)
      → Every Q (m s)
      → Every Q (n s)
      → Every Q ((if b then m else n) s)
  if-Keeps true m n s h k = h
  if-Keeps false m n s h k = k

  accept_with-Keeps :
      (p : ℤ) (c : Socket) (cb : ℕ) (s : State) → Q s → Every Q (accept_with os proactor p c cb s)
  unfolding accept_with
  accept_with-Keeps p c cb s h =
      let client = os.sys s.log calloc in
      if-Keeps (client ==ℤ null) _ _ _ (stable.calls calloc client s tt h) (
        Every-bind Q _ _
          (upcall-Keeps _ _ tt (
            stable.accepts s.log _ _ _ (stable.calls _ _ _ tt (stable.calls calloc client s tt h))))
          (λ _ t k. k))

  accept_by-Keeps :
      (p : ℤ) (c : Socket) (cb : Option ℕ) (s : State)
      → Q s
      → Every Q (accept_by os proactor p c cb s)
  unfolding accept_by
  accept_by-Keeps p c none s h = h
  accept_by-Keeps p c (some cb) s h = accept_with-Keeps p c cb s h

  accept-Keeps : (p : ℤ) (s : State) → Q s → Every Q (process_accept_ready os proactor p s)
  unfolding process_accept_ready
  accept-Keeps p s h = load-Keeps p _ s h (λ c at. accept_by-Keeps p c c.accept_cb s h)

  tell_peer_closed-Keeps :
      (p : ℤ) (c : Socket) (cb : Option ℕ) (s : State)
      → Q s
      → Every Q (tell_peer_closed os proactor p c cb s)
  unfolding tell_peer_closed
  tell_peer_closed-Keeps p c none s h = h
  tell_peer_closed-Keeps p c (some cb) s h = upcall-Keeps _ s tt h

  received-Keeps :
      (p : ℤ) (c : Socket) (cb : ℕ) (buffer : Buffer) (addr : ℕ) (r : ℤ) (s : State)
      → s.heap p ≡ some c
      → c.buffer ≡ some buffer
      → r ≡ os.sys s.log (recvfrom c.sock buffer.buffer_data buffer.data_length)
      → Q s
      → Every Q (
          received os proactor p c cb buffer addr r
            (logged (recvfrom c.sock buffer.buffer_data buffer.data_length) r s))
  unfolding received
  received-Keeps p c cb buffer addr (negsuc n) s at has_buffer e h = stable.calls _ _ s tt h
  received-Keeps p c cb buffer addr (pos zero) s at has_buffer e h =
      tell_peer_closed-Keeps p c c.close_cb _
        (stable.reads_end p c addr _ at (stable.calls _ _ s tt h))
  received-Keeps p c cb buffer addr (pos (suc n)) s at has_buffer e h =
      upcall-Keeps _ _ tt (
        stable.reads_some p c buffer s.log addr n _ at has_buffer (sym e) (stable.calls _ _ s tt h))

  read_into-Keeps :
      (p : ℤ) (c : Socket) (cb : ℕ) (buffer : Option Buffer) (s : State)
      → s.heap p ≡ some c
      → c.buffer ≡ buffer
      → Q s
      → Every Q (read_into os proactor p c cb buffer s)
  unfolding read_into
  read_into-Keeps p c cb none s at e h = h
  read_into-Keeps p c cb (some buffer) s at e h =
      Every-bind Q _ _
        (received-Keeps p c cb buffer (os.address s.log)
          (os.sys s.log (recvfrom c.sock buffer.buffer_data buffer.data_length)) s at e refl h)
        (λ _ t k. k)

  read_by-Keeps :
      (p : ℤ) (c : Socket) (cb : Option ℕ) (s : State)
      → s.heap p ≡ some c
      → Q s
      → Every Q (read_by os proactor p c cb s)
  unfolding read_by
  read_by-Keeps p c none s at h = h
  read_by-Keeps p c (some cb) s at h = read_into-Keeps p c cb c.buffer s at refl h

  read-Keeps : (p : ℤ) (s : State) → Q s → Every Q (process_read_ready os proactor p s)
  unfolding process_read_ready
  read-Keeps p s h = load-Keeps p _ s h (λ c at. read_by-Keeps p c c.receive_cb s at h)

  type-Keeps : (p : ℤ) (kind : ℕ) (s : State) → Q s → Every Q (by_type os proactor p kind s)
  unfolding by_type
  type-Keeps p kind s h =
      if-Keeps (kind == tcp_listener) _ _ s (Every-bind Q _ _ (accept-Keeps p s h) (λ _ t k. k)) (
        if-Keeps ((kind == tcp_client) || (kind == udp)) _ _ s
          (Every-bind Q _ _ (read-Keeps p s h) (λ _ t k. k)) h)

  filter-Keeps :
      (p : ℤ) (filter : Filter) (s : State) → Q s → Every Q (by_filter os proactor p filter s)
  unfolding by_filter process_write_ready
  filter-Keeps p other_filter s h = h
  filter-Keeps p evfilt_write s h = h
  filter-Keeps p evfilt_read s h =
      if-Keeps (p ==ℤ null) _ _ s h (load-Keeps p _ s h (λ c at. type-Keeps p c.socket_type s h))

  dispatch-Keeps : (e : Event) (s : State) → Q s → Every Q (dispatch os proactor e s)
  unfolding dispatch
  dispatch-Keeps e s h =
      if-Keeps (e.ident ==ℤ s.proactor.wakeup_read) _ _ s (stable.calls _ _ s tt h)
        (filter-Keeps e.udata e.filter s h)

  pub dispatch_all-Keeps :
      (es : List Event) (s : State) → Q s → Every Q (dispatch_all os proactor es s)
  unfolding dispatch_all
  dispatch_all-Keeps [] s h = h
  dispatch_all-Keeps (e ∷ es) s h =
      Every-bind Q _ _ (dispatch-Keeps e s h) (λ _ t k. dispatch_all-Keeps es t k)
