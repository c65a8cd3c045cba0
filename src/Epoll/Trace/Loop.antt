-- ===== src/Epoll/Trace/Loop.antt =====
-- How a property of the calls made so far is shown to hold however the event loop ends.
use tag_sim.Common.{
  All, Option, pos, subst, ℕ, zero, suc, sym, ap, ◌∙◌, List, [], ◌∷◌, ℤ, ◌==ℤ◌, ◌==◌, take,
  pos_part, Bool-cases, inl, inr,
}
use tag_sim.Epoll.State.{
  Log, read, epoll_wait, perror, max_events, eintr, Event, Os, State, fails, epollin, epollout,
}
use tag_sim.Epoll.Events.{choose, dispatch, handle_write_event, has}
use tag_sim.Epoll.Loop.{dispatch_all, serve, round, run, run_stopped, run_goes_on}
use tag_sim.Epoll.Traced.{Traced, Allowed}
use tag_sim.Epoll.Trace.{
  Good, Good-logged, if-Good, perform_all-Good, handle_data_event-Good, write_pending-Good,
  handle_accept_event-Good,
}
use tag_sim.Machine.{Every, Every-bind}

module _ (os : Os) (pipe : ℤ) (L : Option ℕ → Type 0) (R : Log → Type 0)
    (asked : (log : Log) → All (Allowed L) (os.app log)) (traced : Traced os pipe L R) where
  abbrev Fine : State → Type 0
  Fine = Good os pipe L R asked traced

  handle_write_event-Good : (fd : ℤ) (s : State) → Fine s → Every Fine (handle_write_event os fd s)
  unfolding handle_write_event
  handle_write_event-Good fd s h =
      write_pending-Good os pipe L R asked traced s.current_send_request fd s h

  dispatch-Good : (e : Event) (s : State) → Fine s → Every Fine (dispatch os e s)
  unfolding dispatch choose
  dispatch-Good e s h = elim (Bool-cases (e.fd ==ℤ s.wakeup_read)) [
    | inl woken ↦ rw woken (
      h.0,
      h.1,
      subst (λ w. R ((read w 1, os.sys s.log (read w 1)) ∷ s.log)) (sym h.0)
          (traced.wakes _ s.log h.2),
    )
    | inr apart ↦ rw apart (
        if-Good os pipe L R asked traced (e.fd ==ℤ s.server_socket) _ _ s
          (handle_accept_event-Good os pipe L R asked traced e.fd s h)
          (if-Good os pipe L R asked traced (has e.events epollin) _ _ s
            (handle_data_event-Good os pipe L R asked traced e.fd s
              (ap (λ w. e.fd ==ℤ w) (sym h.0) ∙ apart) h)
            (if-Good os pipe L R asked traced (has e.events epollout) _ _ s
              (handle_write_event-Good e.fd s h) h)))
  ]

  dispatch_all-Good : (es : List Event) (s : State) → Fine s → Every Fine (dispatch_all os es s)
  unfolding dispatch_all
  dispatch_all-Good [] s h = h
  dispatch_all-Good (e ∷ es) s h =
      Every-bind Fine _ _ (dispatch-Good e s h) (λ _ t k. dispatch_all-Good es t k)

  serve-Good : (n : ℤ) (before : Log) (s : State) → Fine s → Every Fine (serve os n before s)
  unfolding serve
  serve-Good n before s h =
      if-Good os pipe L R asked traced (fails n) _ _ s
        (if-Good os pipe L R asked traced (os.errno before == eintr) _ _ s h
          (Good-logged os pipe L R asked traced (perror "epoll_wait") (pos 0) s tt h))
        (dispatch_all-Good (take (pos_part n) (os.ready before)) s h)

  round-Good : (s : State) → Fine s → Every Fine (round os s)
  unfolding round
  round-Good s h =
      let n = os.sys s.log (epoll_wait s.epoll_fd max_events) in
      Every-bind Fine _ _
        (perform_all-Good os pipe L R asked traced _ _ (asked _)
          (Good-logged os pipe L R asked traced (epoll_wait s.epoll_fd max_events) n s tt h))
        (λ _ t k. serve-Good n s.log t k)

  -- The rule: what survives each call holds however the loop ends.
  pub run-Good : (fuel : ℕ) (s : State) → Fine s → Every Fine (run os fuel s)
  unfolding run
  run-Good zero s h = h
  run-Good (suc fuel) s h = elim (Bool-cases s.stop) [
    | inl stopped ↦ rw (run_stopped os fuel s stopped) h
    | inr runs ↦
        rw (run_goes_on os fuel s runs)
          (Every-bind Fine _ _ (round-Good s h) (λ _ t k. run-Good fuel t k))
  ]
