-- ===== src/Kevent/Loop.antt =====
-- `proactor_net_run`.
use tag_sim.Common.{
  ℕ, zero, suc, Bool, true, false, ◌||◌, ◌&&◌, Option, none, some, List, [], ◌∷◌, take,
  if◌then◌else◌, ◌==◌, ℤ, minus_one, ◌==ℤ◌, pos_part,
}
use tag_sim.Machine.{done, going, pure, ◌>>=◌, ◌>>◌, get}
use tag_sim.Status.Codes.{Status}
use tag_sim.Kevent.State.{
  null, tcp_listener, tcp_client, udp, tick, Socket, wait, read, on_event, on_tick, Event,
  evfilt_read, evfilt_write, Filter, other_filter, Log, Os, M, load, call, num_events, eintr,
}
use tag_sim.Kevent.Lifecycle.{perform_all, upcall}
use tag_sim.Kevent.Ready.{process_accept_ready, process_read_ready, process_write_ready}

module _ (os : Os) where
  -- By the type of the socket.
  unfoldable pub by_type : ℤ → ℤ → ℕ → M (Unit {0})
  by_type proactor p kind =
      if kind == tcp_listener
      then (do rc ← process_accept_ready os proactor p; pure tt)
      else if (kind == tcp_client) || (kind == udp)
      then (do rc ← process_read_ready os proactor p; pure tt)
      else pure tt

  unfoldable pub by_filter : ℤ → ℤ → Filter → M (Unit {0})
  unfolding by_type
  by_filter proactor p other_filter = pure tt
  by_filter proactor p evfilt_write = process_write_ready os proactor p
  by_filter proactor p evfilt_read =
      if p ==ℤ null then pure tt else (do socket ← load p; by_type proactor p socket.socket_type)

  unfoldable pub dispatch : ℤ → Event → M (Unit {0})
  unfolding by_filter
  dispatch proactor e = do
    s ← get
    let woken = e.ident ==ℤ s.proactor.wakeup_read
    if woken
        then (do r ← call os (read s.proactor.wakeup_read 1); pure tt)
        else by_filter proactor e.udata e.filter

  unfoldable pub dispatch_all : ℤ → List Event → M (Unit {0})
  dispatch_all proactor [] = pure tt
  dispatch_all proactor (e ∷ rest) = dispatch proactor e >> dispatch_all proactor rest

  unfoldable pub tick_proactor : ℤ → Option ℕ → ℕ → M (Unit {0})
  tick_proactor proactor none app_data = pure tt
  tick_proactor proactor (some cb) app_data =
      upcall os proactor (on_event cb tick Status.ok app_data)

  unfoldable pub tick_socket : ℤ → ℤ → Socket → Option ℕ → M (Unit {0})
  tick_socket proactor p socket none = pure tt
  tick_socket proactor p socket (some cb) = do
    s ← get
    upcall os proactor (on_tick cb p Status.ok socket.sock_data s.proactor.app_data)

  -- `sock = sock->next` is read after the callback.
  unfoldable pub tick_sockets : ℕ → ℤ → ℤ → M (Unit {0})
  unfolding tick_socket
  tick_sockets zero proactor p = going
  tick_sockets (suc fuel) proactor p =
      let rest = tick_sockets fuel proactor in
      if p ==ℤ null then pure tt else (do
        socket ← load p
        tick_socket proactor p socket socket.tick_cb
        socket ← load p
        rest socket.next)

  -- What follows the events. The loop variable over the sockets has no initialiser.
  unfoldable pub ticks : ℕ → ℤ → M (Unit {0})
  ticks fuel proactor = do
    s ← get
    tick_proactor proactor s.proactor.event_cb s.proactor.app_data
    s ← get
    tick_sockets fuel proactor (os.garbage s.log)

  unfoldable pub serve : ℕ → ℤ → ℤ → Log → M (Unit {0})
  serve fuel proactor n before =
      if (n ==ℤ minus_one) && (os.errno before == eintr)
      then pure tt
      else (do dispatch_all proactor (take (pos_part n) (os.ready before)); ticks fuel proactor)

  -- One round. While `kevent` blocks, other threads may use the interface.
  unfoldable pub round : ℕ → ℤ → M (Unit {0})
  unfolding serve
  round fuel proactor = do
    before ← get
    let p = before.proactor
    n ← call os (wait p.kq num_events p.tick_sec p.tick_nsec)
    after ← get
    perform_all os proactor (os.app after.log)
    serve fuel proactor n before.log

  unfoldable pub turn : Bool → M (Unit {0}) → M (Unit {0})
  turn true again s = done tt s
  turn false again s = again s

  -- `fuel` bounds the rounds, and in each the walk over the sockets.
  unfoldable pub rounds : ℕ → ℤ → M (Unit {0})
  unfolding turn
  rounds zero proactor s = going s
  rounds (suc fuel) proactor s =
      let again = round (suc fuel) proactor >> rounds fuel proactor in turn s.proactor.stop again s

  unfoldable pub run : ℕ → ℤ → M (Unit {0})
  unfolding rounds
  run fuel proactor = if proactor ==ℤ null then pure tt else rounds fuel proactor
