-- ===== src/Epoll/Sending.antt =====
-- A request on its way to one connection: what its writable events do with it.
use tag_sim.Common.{
  ℕ, zero, suc, ◌+◌, ◌-◌, ◌≤◌, ◌<◌, ◌≡◌, refl, sym, ◌∙◌, ap, subst, false, Option, none, some, [],
  ◌∷◌, ◌++◌, arith, ℤ, pos, ◌==ℤ◌, ==ℤ_refl, take, length, leb, Bool-cases, inl, inr, drop-all,
  append_assoc,
}
use tag_sim.Epoll.State.{Log, Bytes, on_send_complete, Event, Os, SendRequest, State}
use tag_sim.Epoll.Events.{
  completed, release, finish_send, data_sent, write_pending, handle_write_event, choose, dispatch,
  upcall,
}
use tag_sim.Epoll.Api.{perform_all}
use tag_sim.Epoll.Loop.{dispatch_all}
use tag_sim.Epoll.Wire.{
  Fits, chunk, advance, moved, advance-Fits, remaining, left_of, split-order, length-chunk,
}
use tag_sim.Epoll.Finish.{Progresses, writes_left, repeat, IsWritable}
use tag_sim.Epoll.Misdirected.{sent}
use tag_sim.Machine.{◌>>=◌, Returned, Returned-bind}

-- The callback of a completed send asks for nothing.
abbrev pub CompletesQuietly : Os → Type 0
CompletesQuietly os =
    (log : Log) (cb : ℕ) (fd : ℤ) (d : ℕ) → os.app ((on_send_complete cb fd d, pos 0) ∷ log) ≡ []

-- What `s` has written to `fd` and is to write makes up `whole`; of nobody else's bytes there are
-- more than `s0` has written, and at most `n` more writes are needed.
pub record Sending (fd : ℤ) (whole : Bytes) (s0 : State) (n : ℕ) (s : State) : Type 0 where
  pub pipe : s.wakeup_read ≡ s0.wakeup_read
  pub server : s.server_socket ≡ s0.server_socket
  pub fits : Fits s.current_send_request
  pub few : writes_left s.current_send_request ≤ n
  pub order : sent fd s.log ++ remaining s.current_send_request ≡ whole
  pub apart : (other : ℤ) → (fd ==ℤ other) ≡ false → sent other s.log ≡ sent other s0.log

module _ (os : Os) (fd : ℤ) (whole : Bytes) (s0 : State) (quiet : CompletesQuietly os)
    (progress : Progresses os) where
  abbrev Ready : ℕ → Unit {0} → State → Type 0
  Ready n _ s = Sending fd whole s0 n s

  emptied :
      (n m : ℕ) (r : SendRequest) (s : State) (log : Log)
      → s.current_send_request ≡ some r
      → left_of r ≡ []
      → ((other : ℤ) → sent other log ≡ sent other s.log)
      → Sending fd whole s0 m s
      → Sending fd whole s0 n (record s { log = log; current_send_request = none })
  emptied n m r s log e empty same h = record {
    pipe = h.pipe;
    server = h.server;
    fits = tt;
    few = omega arith;
    order = rw (same fd) (ap (λ l. sent fd s.log ++ l) (sym (ap remaining e ∙ empty)) ∙ h.order);
    apart = λ other ne. same other ∙ h.apart other ne;
  }

  -- The callback, then the two blocks.
  finish-Sending :
      (n m : ℕ) (r : SendRequest) (cb : Option ℕ) (d : ℕ) (s : State)
      → s.current_send_request ≡ some r
      → left_of r ≡ []
      → Sending fd whole s0 m s
      → Returned (Ready n) ((completed os cb fd d >>= λ _ t. release os t.current_send_request t) s)
  unfolding completed upcall perform_all release
  finish-Sending n m r none d s e empty h = rw e (emptied n m r s _ e empty (λ other. refl) h)
  finish-Sending n m r (some cb) d s e empty h =
      rw (quiet s.log cb fd d, e) (emptied n m r s _ e empty (λ other. refl) h)

  finish_send-Sending :
      (n m : ℕ) (r : SendRequest) (s : State)
      → s.current_send_request ≡ some r
      → left_of r ≡ []
      → Sending fd whole s0 m s
      → Returned (Ready n) (finish_send os fd s)
  unfolding finish_send
  finish_send-Sending n m r s e empty h =
      finish-Sending n m r s.send_complete_callback s.send_complete_user_data s e empty h

  moved-Sending :
      (n m : ℕ) (r : SendRequest) (k : ℕ) (s : State)
      → s.current_send_request ≡ some r
      → k ≤ length (chunk r)
      → r.size - (r.offset + k) < m
      → Sending fd whole s0 n s
      → Sending fd whole s0 m (moved fd r k s)
  moved-Sending n m r k s e bound few h =
      let fits : Fits (some r) = subst Fits e h.fits in
      record {
        pipe = h.pipe;
        server = h.server;
        fits = advance-Fits r k fits bound;
        few = few;
        order = rw (==ℤ_refl fd) (
            append_assoc (sent fd s.log) (take k (chunk r)) (left_of (advance r k))
            ∙ ap (λ l. sent fd s.log ++ l) (split-order r k fits ∙ sym (ap remaining e))
            ∙ h.order);
        apart = λ other ne. rw ne (h.apart other ne);
      }

  write_pending-Sending :
      (n : ℕ) (p : Option SendRequest) (s : State)
      → s.current_send_request ≡ p
      → Sending fd whole s0 (suc n) s
      → Returned (Ready n) (write_pending os p fd s)
  unfolding write_pending data_sent
  write_pending-Sending n none s e h = record {
    pipe = h.pipe;
    server = h.server;
    fits = h.fits;
    few = rw e (omega arith);
    order = h.order;
    apart = h.apart;
  }
  write_pending-Sending n (some r) s e h =
      let step = progress s.log fd (chunk r) in
      let k = step.0 in
      let fits : Fits (some r) = subst Fits e h.fits in
      let few : r.size - r.offset ≤ n = omega (arith, subst (λ q. writes_left q ≤ suc n) e h.few) in
      let count = length-chunk r fits in
      rw step.1 (elim (Bool-cases (leb r.size (r.offset + k))) [
        | inl all ↦ rw all (
            finish_send-Sending n (suc (suc n)) (advance r k) (moved fd r k s) refl
              (drop-all (r.offset + k) r.content (ground (arith, fits)))
              (moved-Sending (suc n) (suc (suc n)) r k s e step.2 (omega (arith, count)) h))
        | inr part ↦
            rw part
              (moved-Sending (suc n) n r k s e step.2 (ground (arith, count, step.3, step.2)) h)
      ])

  dispatch-Sending :
      (n : ℕ) (e : Event) (s : State)
      → IsWritable s0 e
      → e.fd ≡ fd
      → Sending fd whole s0 (suc n) s
      → Returned (Ready n) (dispatch os e s)
  unfolding dispatch choose handle_write_event
  dispatch-Sending n e s writable same h =
      let pipe : (e.fd ==ℤ s.wakeup_read) ≡ false =
        ap (λ w. e.fd ==ℤ w) h.pipe ∙ writable.not_pipe in
      let server : (e.fd ==ℤ s.server_socket) ≡ false =
        ap (λ w. e.fd ==ℤ w) h.server ∙ writable.not_server in
      simp (pipe, server, writable.not_in, writable.out)
        (rw same (write_pending-Sending n s.current_send_request s refl h))

  pub dispatch_all-Sending :
      (n : ℕ) (e : Event) (s : State)
      → IsWritable s0 e
      → e.fd ≡ fd
      → Sending fd whole s0 n s
      → Returned (Ready 0) (dispatch_all os (repeat n e) s)
  unfolding dispatch_all
  dispatch_all-Sending zero e s writable same h = h
  dispatch_all-Sending (suc n) e s writable same h =
      Returned-bind (Ready n) (Ready 0) (dispatch os e s) _ (dispatch-Sending n e s writable same h)
        (λ _ t k. dispatch_all-Sending n e t writable same k)
