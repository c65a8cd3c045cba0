-- ===== src/Kevent/Keep/Loop.antt =====
-- How a property of the state is shown to survive the event loop, however it ends.
use tag_sim.Common.{
  minus_one, ◌==◌, ◌&&◌, take, ℕ, zero, suc, Bool, true, false, Option, none, some, ℤ, ◌==ℤ◌,
  pos_part,
}
use tag_sim.Machine.{Every, Every-bind}
use tag_sim.Kevent.State.{num_events, wait, eintr, null, Socket, Os, State, Log, M}
use tag_sim.Kevent.Loop.{
  rounds, tick_socket, turn, tick_proactor, tick_sockets, ticks, serve, round, run,
}
use tag_sim.Kevent.Sockets.{logged}
use tag_sim.Kevent.Keep.{
  Stable, perform_all-Keeps, upcall-Keeps, load-Keeps, if-Keeps, dispatch_all-Keeps,
}

module _ (os : Os) (Q : State → Type 0) (stable : Stable os Q) (proactor : ℤ) where
  tick_proactor-Keeps :
      (cb : Option ℕ) (app_data : ℕ) (s : State)
      → Q s
      → Every Q (tick_proactor os proactor cb app_data s)
  unfolding tick_proactor
  tick_proactor-Keeps none app_data s h = h
  tick_proactor-Keeps (some cb) app_data s h = upcall-Keeps os Q stable proactor _ s tt h

  tick_socket-Keeps :
      (p : ℤ) (c : Socket) (cb : Option ℕ) (s : State)
      → Q s
      → Every Q (tick_socket os proactor p c cb s)
  unfolding tick_socket
  tick_socket-Keeps p c none s h = h
  tick_socket-Keeps p c (some cb) s h = upcall-Keeps os Q stable proactor _ s tt h

  tick_sockets-Keeps :
      (fuel : ℕ) (p : ℤ) (s : State) → Q s → Every Q (tick_sockets os fuel proactor p s)
  unfolding tick_sockets
  tick_sockets-Keeps zero p s h = h
  tick_sockets-Keeps (suc fuel) p s h = if-Keeps os Q stable proactor (p ==ℤ null) _ _ s h (
      load-Keeps os Q stable proactor p _ s h (λ c at.
        Every-bind Q _ _ (tick_socket-Keeps p c c.tick_cb s h) (λ _ t k.
          load-Keeps os Q stable proactor p _ t k (λ d at'. tick_sockets-Keeps fuel d.next t k))))

  ticks-Keeps : (fuel : ℕ) (s : State) → Q s → Every Q (ticks os fuel proactor s)
  unfolding ticks
  ticks-Keeps fuel s h =
      Every-bind Q _ _ (tick_proactor-Keeps s.proactor.event_cb s.proactor.app_data s h)
        (λ _ t k. tick_sockets-Keeps fuel _ t k)

  pub serve-Keeps :
      (fuel : ℕ) (n : ℤ) (before : Log) (s : State)
      → Q s
      → Every Q (serve os fuel proactor n before s)
  unfolding serve
  serve-Keeps fuel n before s h =
      if-Keeps os Q stable proactor ((n ==ℤ minus_one) && (os.errno before == eintr)) _ _ s h (
        Every-bind Q _ _
          (dispatch_all-Keeps os Q stable proactor (take (pos_part n) (os.ready before)) s h)
          (λ _ t k. ticks-Keeps fuel t k))

-- The test of the `while` loop, whichever way it goes.
pub turn-Every :
    (os : Os) (P : State → Type 0) (b : Bool) (again : M (Unit {0})) (s : State)
    → P s
    → Every P (again s)
    → Every P (turn os b again s)
unfolding turn
turn-Every os P true again s h k = h
turn-Every os P false again s h k = k

-- The loop, for what survives the wait too.
module _ (os : Os) (Q : State → Type 0) (stable : Stable os Q) (proactor : ℤ)
    (waits : (kq : ℤ) (n sec nsec : ℕ) (r : ℤ) (s : State)
      → Q s
      → Q (logged (wait kq n sec nsec) r s)) where
  round-Keeps : (fuel : ℕ) (s : State) → Q s → Every Q (round os fuel proactor s)
  unfolding round
  round-Keeps fuel s h =
      let p = s.proactor in
      let n = os.sys s.log (wait p.kq num_events p.tick_sec p.tick_nsec) in
      Every-bind Q _ _ (perform_all-Keeps os Q stable proactor _ _ (waits _ _ _ _ n s h))
        (λ _ t k. serve-Keeps os Q stable proactor fuel n s.log t k)

  rounds-Keeps : (fuel : ℕ) (s : State) → Q s → Every Q (rounds os fuel proactor s)
  unfolding rounds
  rounds-Keeps zero s h = h
  rounds-Keeps (suc fuel) s h =
      turn-Every os Q s.proactor.stop _ s h
        (Every-bind Q _ _ (round-Keeps (suc fuel) s h) (λ _ t k. rounds-Keeps fuel t k))

  pub run-Keeps : (fuel : ℕ) (s : State) → Q s → Every Q (run os fuel proactor s)
  unfolding run
  run-Keeps fuel s h =
      if-Keeps os Q stable proactor (proactor ==ℤ null) _ _ s h (rounds-Keeps fuel s h)
