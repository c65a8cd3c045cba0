-- ===== src/Kevent/Lifecycle.antt =====
-- `proactor_net_create`, `_get_status`, `_stop`, `_wake` and `_dispose`.
use tag_sim.Common.{
  ℕ, zero, suc, ◌*◌, ◌/◌, ◌%◌, Bool, true, false, not, Option, none, some, List, [], ◌∷◌,
  if◌then◌else◌, ℤ, pos, minus_one, ◌==ℤ◌,
}
use tag_sim.Machine.{going, pure, ◌>>=◌, ◌>>◌, get}
use tag_sim.Status.Codes.{Status}
use tag_sim.Kevent.State.{
  null, invalid_socket, dispose_event, Socket, Proactor, calloc, free, kqueue, pipe, watch_read,
  write, close, on_event, on_close, Request, stop_request, wake_request, Call, Os, M, note, change,
  load, store, call,
}

abbrev fails : ℤ → Bool
fails r = r ==ℤ minus_one

module _ (os : Os) where
  -- Each early `break` of `proactor_net_create` ends with a status.
  unfoldable pub open_wake_pipe : M Status
  open_wake_pipe = do
    before ← get
    r ← call os pipe
    let failed = fails r
    if failed then pure Status.internal_failure else (do
      let (wakeup_read, wakeup_write) = os.pipe_fds before.log
      change (λ p. record p { wakeup_read = wakeup_read; wakeup_write = wakeup_write })
      r ← call os (watch_read before.proactor.kq wakeup_read)
      pure (if fails r then Status.internal_failure else Status.ok))

  unfoldable pub open_queue : M Status
  unfolding open_wake_pipe
  open_queue = do
    kq ← call os kqueue
    change (λ p. record p { kq = kq })
    if fails kq then pure Status.internal_failure else open_wake_pipe

  -- The fields as `calloc` and the assignments before the first call leave them.
  unfoldable pub fresh : Option ℕ → ℕ → ℕ → Proactor
  fresh event_cb app_data tick_period_ms = record {
    kq = pos 0;
    wakeup_read = invalid_socket;
    wakeup_write = invalid_socket;
    tick_sec = tick_period_ms / 1000;
    tick_nsec = tick_period_ms % 1000 * 1000000;
    stop = false;
    proactor_status = Status.ok;
    event_cb = event_cb;
    app_data = app_data;
    sockets = null;
  }

  -- The result is the proactor's address, null if there is no memory. `sock_data` is not used.
  unfoldable pub create : Option ℕ → ℕ → ℕ → ℕ → M ℤ
  unfolding fresh open_queue
  create event_cb sock_data app_data tick_period_ms = do
    proactor ← call os calloc
    if proactor ==ℤ null then pure null else (do
      change (λ _. fresh event_cb app_data tick_period_ms)
      rc ← open_queue
      change (λ p. record p { proactor_status = rc })
      pure proactor)

  unfoldable pub get_status : ℤ → M Status
  get_status proactor =
      if proactor ==ℤ null
      then pure Status.null_ptr
      else (do s ← get; pure s.proactor.proactor_status)

  -- A failed `write` is only logged.
  unfoldable pub wake : ℤ → M (Unit {0})
  wake proactor =
      if proactor ==ℤ null
      then pure tt
      else (do s ← get; r ← call os (write s.proactor.wakeup_write (1 ∷ [])); pure tt)

  unfoldable pub stop : ℤ → M (Unit {0})
  unfolding wake
  stop proactor =
      if proactor ==ℤ null
      then pure tt
      else (do change (λ p. record p { stop = true }); wake proactor)

  unfoldable pub perform : ℤ → Request → M (Unit {0})
  unfolding stop wake
  perform proactor stop_request = stop proactor
  perform proactor wake_request = wake proactor

  unfoldable pub perform_all : ℤ → List Request → M (Unit {0})
  perform_all proactor [] = pure tt
  perform_all proactor (q ∷ rest) = perform proactor q >> perform_all proactor rest

  -- A callback: the call, then what the application does before it returns.
  unfoldable pub upcall : ℤ → Call → M (Unit {0})
  upcall proactor c = do note c; s ← get; perform_all proactor (os.app s.log)

  unfoldable pub tell_closed : ℤ → Option ℕ → Socket → M (Unit {0})
  tell_closed proactor none cur = pure tt
  tell_closed proactor (some cb) cur =
      upcall proactor (on_close cb (os.handle cur.sock) cur.status cur.sock_data)

  -- The loop over the sockets, from `p` on; `next` is read before the callback.
  unfoldable pub close_sockets : ℕ → ℤ → ℤ → M (Unit {0})
  unfolding tell_closed
  close_sockets zero proactor p = going
  close_sockets (suc fuel) proactor p =
      let rest = close_sockets fuel proactor in
      if p ==ℤ null then pure tt else (do
        cur ← load p
        tell_closed proactor cur.close_cb cur
        note (close cur.sock)
        note (free p)
        store p none
        rest cur.next)

  unfoldable pub tell_dispose : ℤ → Option ℕ → Status → ℕ → M (Unit {0})
  tell_dispose proactor none status app_data = pure tt
  tell_dispose proactor (some cb) status app_data =
      upcall proactor (on_event cb dispose_event status app_data)

  unfoldable pub close_pipe : Bool → ℤ → ℤ → M (Unit {0})
  close_pipe false wakeup_read wakeup_write = pure tt
  close_pipe true wakeup_read wakeup_write = do note (close wakeup_read); note (close wakeup_write)

  -- The `proactor_t` itself is not freed.
  unfoldable pub dispose : ℕ → ℤ → M (Unit {0})
  unfolding tell_dispose close_pipe
  dispose fuel proactor = if proactor ==ℤ null then pure tt else (do
    stop proactor
    s ← get
    let p = s.proactor
    tell_dispose proactor p.event_cb p.proactor_status p.app_data
    s ← get
    close_sockets fuel proactor s.proactor.sockets
    s ← get
    let p = s.proactor
    close_pipe (not (p.wakeup_read ==ℤ invalid_socket)) p.wakeup_read p.wakeup_write
    note (close p.kq))
