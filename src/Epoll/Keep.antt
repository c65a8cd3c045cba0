-- ===== src/Epoll/Keep.antt =====
-- How an invariant is shown to be kept by the event loop: it is enough that it survives the calls
-- that are only logged, each request of the application, and the handler of a writable descriptor.
use tag_sim.Common.{
  ℕ, zero, suc, Option, none, some, List, [], ◌∷◌, arith, ℤ, pos, negsuc, pos_part, ◌==◌, take, All,
  Bool-cases, inl, inr,
}
use tag_sim.Epoll.State.{
  Log, Bytes, malloc, memcpy, free, write, read, accept, close, epoll_ctl, epoll_wait, perror,
  delete, add, on_receive, on_send_complete, on_accept, Call, Event, Request, Os, State, fails,
  buffer_size, in_out, max_events, eintr, need,
}
use tag_sim.Machine.{pure, ◌>>=◌}
use Prim.Native.String.{String}
use tag_sim.Epoll.Api.{perform, perform_all}
use tag_sim.Epoll.Events.{
  upcall, completed, deliver, drop_connection, data_read, handle_data_event, handle_write_event,
  accepted, handle_accept_event, choose, dispatch,
}
use tag_sim.Epoll.Loop.{dispatch_all, serve, round, run, run_stopped, run_goes_on}
use tag_sim.Machine.{After, After-bind, Along, Along-bind}

-- The calls that neither allocate nor write.
abbrev pub Plain : Call → Type 0
Plain (malloc n) = ⊥
Plain (memcpy p bytes) = ⊥
Plain (free p) = ⊥
Plain (write fd bytes) = ⊥
Plain _ = Unit {0}

abbrev pub logged : Call → ℤ → State → State
logged c r s = record s { log = (c, r) ∷ s.log }

-- During a callback, or while `epoll_wait` blocks.
module _ (os : Os) (P : State → Type 0)
    (requests : (q : Request) (s : State) → P s → After P (perform os q s)) where
  pub perform_all-After : (qs : List Request) (s : State) → P s → After P (perform_all os qs s)
  unfolding perform_all
  perform_all-After [] s h = h
  perform_all-After (q ∷ qs) s h =
      After-bind P P (perform os q s) _ (requests q s h) (λ _ s' h'. perform_all-After qs s' h')

  upcall-After : (c : Call) (s : State) → P (logged c (pos 0) s) → After P (upcall os c s)
  unfolding upcall
  upcall-After c s h = perform_all-After (os.app ((c, pos 0) ∷ s.log)) (logged c (pos 0) s) h

  pub completed-After :
      (cb : Option ℕ) (fd : ℤ) (user_data : ℕ) (s : State)
      → ((c : Call) → Plain c → P (logged c (pos 0) s))
      → P s
      → After P (completed os cb fd user_data s)
  unfolding completed
  completed-After none fd user_data s plain h = h
  completed-After (some cb) fd user_data s plain h =
      let c = on_send_complete cb fd user_data in upcall-After c s (plain c tt)

-- `Q` is what is known of the descriptors that `epoll_wait` reports.
module _ (os : Os) (P : State → Type 0) (Q : ℤ → Type 0)
    (plain : (c : Call) (r : ℤ) (s : State) → Plain c → P s → P (logged c r s))
    (requests : (q : Request) (s : State) → P s → After P (perform os q s))
    (writable : (fd : ℤ) (s : State) → Q fd → P s → After P (handle_write_event os fd s)) where
  deliver-After :
      (cb : Option ℕ) (fd : ℤ) (bytes : Bytes) (user_data : ℕ) (s : State)
      → P s
      → After P (deliver os cb fd bytes user_data s)
  unfolding deliver
  deliver-After none fd bytes user_data s h = h
  deliver-After (some cb) fd bytes user_data s h =
      let c = on_receive cb fd bytes user_data in
      upcall-After os P requests c s (plain c (pos 0) s tt h)

  -- A call that must succeed and whose result is not used.
  need-After :
      (c : Call) (msg : String) (s : State)
      → Plain c
      → P s
      → After P ((need os c msg >>= λ _. pure tt) s)
  need-After c msg s e h = elim (Bool-cases (fails (os.sys s.log c))) [
    | inl failed ↦ rw failed tt
    | inr passed ↦ rw passed (plain c (os.sys s.log c) s e h)
  ]

  drop_connection-After : (fd : ℤ) (s : State) → P s → After P (drop_connection os fd s)
  unfolding drop_connection
  drop_connection-After fd s h =
      need-After (epoll_ctl s.epoll_fd delete fd in_out) "epoll_ctl" (logged (close fd) (pos 0) s)
        tt (plain _ _ s tt h)

  data_read-After :
      (fd : ℤ) (buffer : Bytes) (r : ℤ) (s : State) → P s → After P (data_read os fd buffer r s)
  unfolding data_read
  data_read-After fd buffer (negsuc n) s h =
      drop_connection-After fd (logged (perror "read") (pos 0) s) (plain _ _ s tt h)
  data_read-After fd buffer (pos n) s h = elim (Bool-cases (n == 0)) [
    | inl none_left ↦ rw none_left (drop_connection-After fd s h)
    | inr some_read ↦
        rw some_read (deliver-After s.receive_callback fd (take n buffer) s.receive_user_data s h)
  ]

  handle_data_event-After : (fd : ℤ) (s : State) → P s → After P (handle_data_event os fd s)
  unfolding handle_data_event
  handle_data_event-After fd s h =
      let c = read fd buffer_size in
      let r = os.sys s.log c in
      data_read-After fd (os.input s.log) r (logged c r s) (plain c r s tt h)

  accepted-After :
      (cb : Option ℕ) (fd client : ℤ) (user_data : ℕ) (s : State)
      → P s
      → After P (accepted os cb fd client user_data s)
  unfolding accepted
  accepted-After none fd client user_data s h = h
  accepted-After (some cb) fd client user_data s h =
      let c = on_accept cb fd client user_data in
      upcall-After os P requests c s (plain c (pos 0) s tt h)

  handle_accept_event-After : (fd : ℤ) (s : State) → P s → After P (handle_accept_event os fd s)
  unfolding handle_accept_event
  handle_accept_event-After fd s h =
      let c = accept fd in
      let client = os.sys s.log c in
      let s' = logged c client s in
      let h' = plain c client s tt h in
      elim (Bool-cases (fails client)) [
        | inl failed ↦ rw failed (plain (perror "accept") (pos 0) s' tt h')
        | inr passed ↦ rw passed (
            After-bind P P (accepted os s.accept_callback fd client s.accept_user_data s') _
              (accepted-After s.accept_callback fd client s.accept_user_data s' h')
              (λ _ t k. need-After (epoll_ctl t.epoll_fd add client in_out) "epoll_ctl" t tt k))
      ]

  choose-After : (s : State) (e : Event) → Q e.fd → P s → After P (choose os s e s)
  unfolding choose
  choose-After s e q h = ground (
    arith,
    plain (read s.wakeup_read 1) (os.sys s.log (read s.wakeup_read 1)) s tt h,
    handle_accept_event-After e.fd s h,
    handle_data_event-After e.fd s h,
    writable e.fd s q h,
  )

  dispatch-After : (e : Event) (s : State) → Q e.fd → P s → After P (dispatch os e s)
  unfolding dispatch
  dispatch-After e s q h = choose-After s e q h

  dispatch_all-After :
      (es : List Event) (s : State) → All (λ e. Q e.fd) es → P s → After P (dispatch_all os es s)
  unfolding dispatch_all
  dispatch_all-After [] s q h = h
  dispatch_all-After (e ∷ es) s q h =
      After-bind P P (dispatch os e s) _ (dispatch-After e s q.0 h)
        (λ _ t k. dispatch_all-After es t q.1 k)

  module _ (reported : (log : Log) (n : ℕ) → All (λ e. Q e.fd) (take n (os.ready log))) where
    pub serve-After : (n : ℤ) (before : Log) (s : State) → P s → After P (serve os n before s)
    unfolding serve
    serve-After n before s h = elim (Bool-cases (fails n)) [
      | inl failed ↦ rw failed (elim (Bool-cases (os.errno before == eintr)) [
        | inl interrupted ↦ rw interrupted h
        | inr other ↦ rw other tt
      ])
      | inr some_ready ↦ rw some_ready (
          dispatch_all-After (take (pos_part n) (os.ready before)) s (reported before (pos_part n))
            h)
    ]

    round-After : (s : State) → P s → After P (round os s)
    unfolding round
    round-After s h =
        let c = epoll_wait s.epoll_fd max_events in
        let n = os.sys s.log c in
        let s' = logged c n s in
        After-bind P P (perform_all os (os.app s'.log) s') _
          (perform_all-After os P requests (os.app s'.log) s' (plain c n s tt h))
          (λ _ t k. serve-After n s.log t k)

    -- The rule: the invariant holds whenever the loop has ended or is going on.
    pub run-Along : (fuel : ℕ) (s : State) → P s → Along P (run os fuel s)
    unfolding run
    run-Along zero s h = h
    run-Along (suc fuel) s h = elim (Bool-cases s.stop) [
      | inl stopped ↦ rw (run_stopped os fuel s stopped) h
      | inr runs ↦
          rw (run_goes_on os fuel s runs)
            (Along-bind P P (round os s) _ (round-After s h) (λ _ t k. run-Along fuel t k))
    ]
