-- ===== src/Kevent/Receive.antt =====
-- A socket that is ready to be read: what the application is told, and what becomes of the socket.
use tag_sim.Common.{
  append-nil, ==ℤ_refl, ℕ, zero, suc, ◌≡◌, refl, sym, ap, ◌∙◌, false, Option, none, some, List, [],
  ◌∷◌, ◌++◌, ℤ, pos, negsuc, ◌==ℤ◌,
}
use tag_sim.Machine.{Run, done, Faulted, Returned-both, Returned, Returned-bind, Returned-map}
use tag_sim.Status.Codes.{Status}
use tag_sim.Kevent.State.{
  null, Buffer, Socket, Os, State, Log, Call, recvfrom, update, on_event, on_close, on_accept,
  on_receive, on_socket_close, on_tick,
}
use tag_sim.Kevent.Lifecycle.{perform_all, upcall}
use tag_sim.Kevent.Ready.{received, tell_peer_closed, read_into, read_by, process_read_ready}
use tag_sim.Kevent.Keep.{filled}
use tag_sim.Kevent.Sockets.{
  perform_all-Unseen, Silent, closes, frees, Same, Same-refl, logged, upcall-Same,
}

-- The calls of the callbacks, in order.
abbrev pub told : Log → List Call
told [] = []
told ((on_event cb e s d, r) ∷ log) = told log ++ on_event cb e s d ∷ []
told ((on_close cb fd s d, r) ∷ log) = told log ++ on_close cb fd s d ∷ []
told ((on_accept cb p q s d e, r) ∷ log) = told log ++ on_accept cb p q s d e ∷ []
told ((on_receive cb p a b s d e, r) ∷ log) = told log ++ on_receive cb p a b s d e ∷ []
told ((on_socket_close cb p s d e, r) ∷ log) = told log ++ on_socket_close cb p s d e ∷ []
told ((on_tick cb p s d e, r) ∷ log) = told log ++ on_tick cb p s d e ∷ []
told (_ ∷ log) = told log

-- The socket `c` at `p`, with the buffer `b` and the callback `cb`, after `recvfrom` answered with `r` and
-- stored the address `addr`.
abbrev pub socket_after : Socket → Buffer → ℕ → ℤ → Socket
socket_after c b addr (negsuc n) = c
socket_after c b addr (pos zero) = record c { remote_addr = addr }
socket_after c b addr (pos (suc n)) = filled c b addr n

-- What the application is told: of the bytes, or of the end of the connection if it asked for that.
abbrev pub closing_call : ℤ → Socket → ℕ → Option ℕ → List Call
closing_call p c app_data none = []
closing_call p c app_data (some cb) = on_socket_close cb p Status.ok c.sock_data app_data ∷ []

abbrev pub news : ℤ → Socket → Buffer → ℕ → ℕ → ℕ → ℤ → List Call
news p c b cb addr app_data (negsuc n) = []
news p c b cb addr app_data (pos zero) = closing_call p c app_data c.close_cb
news p c b cb addr app_data (pos (suc n)) =
    on_receive cb p addr (record b { data_length = suc n }) Status.ok c.sock_data app_data ∷ []

-- `t` differs from `s` by what callbacks may request, and by these calls of callbacks.
record Heard (calls : List Call) (s t : State) : Type 0 where
  same : Same s t
  calls_made : told t.log ≡ told s.log ++ calls

-- The socket at `p` is `c`, the others, the descriptors and the blocks are as they were, and the
-- application was told `calls`.
pub record Received (p : ℤ) (c : Socket) (calls : List Call) (s t : State) : Type 0 where
  pub here : t.heap p ≡ some c
  pub others : (q : ℤ) → (q ==ℤ p) ≡ false → t.heap q ≡ s.heap q
  pub closed : closes t.log ≡ closes s.log
  pub freed : frees t.log ≡ frees s.log
  pub listed : t.proactor.sockets ≡ s.proactor.sockets
  pub calls_made : told t.log ≡ told s.log ++ calls

module _ (os : Os) (proactor : ℤ) where
  upcall-Heard :
      (c : Call) (s : State)
      → Silent c
      → told ((c, pos 0) ∷ s.log) ≡ told s.log ++ c ∷ []
      → Returned (λ _ t. Heard (c ∷ []) s t) (upcall os proactor c s)
  unfolding upcall
  upcall-Heard c s silent tells =
      let s' = logged c (pos 0) s in
      Returned-map _ (λ _ t. Heard (c ∷ []) s t) (perform_all os proactor (os.app s'.log) s')
        (λ _ t h. record { same = h.0; calls_made = h.1 ∙ tells })
        (Returned-both (λ _ t. Same s t) (λ _ t. told t.log ≡ told s'.log)
          (perform_all os proactor (os.app s'.log) s') (upcall-Same os proactor c s silent)
          (perform_all-Unseen os proactor told (λ fd bytes r log. refl) (os.app s'.log) s'))

  module _ (p : ℤ) (c : Socket) (cb : ℕ) (b : Buffer) (s : State) (at : s.heap p ≡ some c) where
    -- `recvfrom`, its result, and the state with it.
    abbrev pub asked : Call
    asked = recvfrom c.sock b.buffer_data b.data_length

    abbrev pub answer : ℤ
    answer = os.sys s.log asked

    abbrev stored : Socket → State
    stored d = record (logged asked answer s) { heap = update s.heap p (some d) }

    Heard-Received :
        (d : Socket) (calls : List Call) (t : State)
        → Heard calls (stored d) t
        → Received p d calls s t
    Heard-Received d calls t h = record {
      here = ap (λ f. f p) h.same.heap ∙ rw (==ℤ_refl p) refl;
      others = λ q other. ap (λ f. f q) h.same.heap ∙ rw other refl;
      closed = h.same.closed;
      freed = h.same.freed;
      listed = ap (λ a. a.sockets) h.same.proactor;
      calls_made = h.calls_made;
    }

    peer_closed-Received :
        (d : Socket) (close_cb : Option ℕ)
        → Returned
            (λ _ t. Received p d (closing_call p c s.proactor.app_data close_cb) s t)
            (tell_peer_closed os proactor p c close_cb (stored d))
    unfolding tell_peer_closed
    peer_closed-Received d none =
        Heard-Received d [] (stored d)
          (record { same = Same-refl (stored d); calls_made = sym (append-nil (told s.log)) })
    peer_closed-Received d (some cb) =
        Returned-map _ _ (upcall os proactor _ _) (λ _ t h. Heard-Received d _ t h)
          (upcall-Heard _ (stored d) tt refl)

    received-Received :
        (addr : ℕ) (r : ℤ)
        → Returned
            (λ _ t.
              Received p (socket_after c b addr r) (news p c b cb addr s.proactor.app_data r) s t)
            (received os proactor p c cb b addr r (logged asked answer s))
    unfolding received tell_peer_closed
    received-Received addr (negsuc n) = record {
      here = at;
      others = λ q other. refl;
      closed = refl;
      freed = refl;
      listed = refl;
      calls_made = sym (append-nil (told s.log));
    }
    received-Received addr (pos zero) =
        peer_closed-Received (record c { remote_addr = addr }) c.close_cb
    received-Received addr (pos (suc n)) =
        Returned-map _ _ (upcall os proactor _ _)
          (λ _ t h. Heard-Received (filled c b addr n) _ t h)
          (upcall-Heard _ (stored (filled c b addr n)) tt refl)

-- What `recvfrom` answers for the socket `c` with the buffer `b`.
abbrev pub answered : Os → Socket → Buffer → State → ℤ
answered os c b s = os.sys s.log (recvfrom c.sock b.buffer_data b.data_length)

-- The socket `c` at `p` was read into `b`, and the callback is `cb`.
abbrev pub Read : Os → ℤ → Socket → State → ℕ → Buffer → State → Type 0
Read os p c s cb b =
    let addr = os.address s.log in
    let n = answered os c b s in
    Received p (socket_after c b addr n) (news p c b cb addr s.proactor.app_data n) s

-- How `process_read_ready` ends for the socket `c` at `p`, with its callback and its buffer.
abbrev pub Outcome : Os → ℤ → Socket → State → Option ℕ → Option Buffer → Run State Status → Type 0
Outcome os p c s none b r = r ≡ done Status.null_ptr s
Outcome os p c s (some cb) none r = Faulted r
Outcome os p c s (some cb) (some b) r = Returned (λ rc t. (rc ≡ Status.ok) × Read os p c s cb b t) r

module _ (os : Os) (proactor p : ℤ) (c : Socket) (s : State) where
  read_into-Outcome :
      (cb : ℕ) (b : Option Buffer)
      → s.heap p ≡ some c
      → Outcome os p c s (some cb) b (read_into os proactor p c cb b s)
  unfolding read_into
  read_into-Outcome cb none at = tt
  read_into-Outcome cb (some b) at =
      Returned-bind (λ _ t. Read os p c s cb b t) (λ rc t. (rc ≡ Status.ok) × Read os p c s cb b t)
        (received os proactor p c cb b (os.address s.log) (answered os c b s) _) _
        (received-Received os proactor p c cb b s at (os.address s.log) (answered os c b s))
        (λ _ t h. (refl, h))

  read_by-Outcome :
      (cb : Option ℕ)
      → s.heap p ≡ some c
      → Outcome os p c s cb c.buffer (read_by os proactor p c cb s)
  unfolding read_by
  read_by-Outcome none at = refl
  read_by-Outcome (some cb) at = read_into-Outcome cb c.buffer at

  -- The socket `c` at `p` is ready to be read. Without a receive callback the result is
  -- `STATUS_NULL_PTR`, and nothing else is done; with one but no buffer a null pointer is followed.
  -- Otherwise the result is `STATUS_OK`, whatever `recvfrom` answers, and the application is told, if it
  -- answers with data, of the buffer with the number of bytes as its length; if with 0, of the end of the
  -- connection, where there is a callback for that; and of nothing if it fails. The socket keeps that
  -- length and the peer's address, and nothing is closed, freed or taken off the proactor's list.
  pub read_ready-Outcome :
      (p ==ℤ null) ≡ false
      → s.heap p ≡ some c
      → Outcome os p c s c.receive_cb c.buffer (process_read_ready os proactor p s)
  unfolding process_read_ready
  read_ready-Outcome given at = simp (given, at) (read_by-Outcome c.receive_cb at)
