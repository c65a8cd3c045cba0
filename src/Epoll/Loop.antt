-- ===== src/Epoll/Loop.antt =====
-- `proactor_tcp_epoll_run`.
use tag_sim.Common.{
  ℤ, ap, Bool, ◌≡◌, ℕ, zero, suc, true, false, List, [], ◌∷◌, if◌then◌else◌, ◌==◌, take, pos_part,
}
use tag_sim.Epoll.State.{
  Log, State, epoll_wait, Event, Os, M, fails, handle_error, call, eintr, max_events,
}
use tag_sim.Machine.{done, going, pure, ◌>>=◌, ◌>>◌, get}
use tag_sim.Epoll.Api.{perform_all}
use tag_sim.Epoll.Events.{dispatch}

module _ (os : Os) where
  unfoldable pub dispatch_all : List Event → M (Unit {0})
  dispatch_all [] = pure tt
  dispatch_all (e ∷ rest) = dispatch os e >> dispatch_all rest

  -- What is done with the result `n` of `epoll_wait`, called after `before`.
  unfoldable pub serve : ℤ → Log → M (Unit {0})
  serve n before =
      if fails n
      then (if os.errno before == eintr then pure tt else handle_error "epoll_wait")
      else dispatch_all (take (pos_part n) (os.ready before))

  -- One round of the `while` loop. While `epoll_wait` blocks, other threads may use the interface.
  unfoldable pub round : M (Unit {0})
  round = do
    before ← get
    n ← call os (epoll_wait before.epoll_fd max_events)
    after ← get
    perform_all os (os.app after.log)
    serve n before.log

  -- The test of the `while` loop.
  turn : Bool → M (Unit {0}) → M (Unit {0})
  turn true again s = done tt s
  turn false again s = (round >> again) s

  -- `fuel` bounds the rounds; `going` is a loop that is still running.
  unfoldable pub run : ℕ → M (Unit {0})
  unfolding turn
  run zero s = going s
  run (suc fuel) s = let again = run fuel in turn s.stop again s

  pub run_stopped : (fuel : ℕ) (s : State) → s.stop ≡ true → run (suc fuel) s ≡ done tt s
  unfolding run
  run_stopped fuel s h = ap (λ b. turn b (run fuel) s) h

  pub run_goes_on :
      (fuel : ℕ) (s : State) → s.stop ≡ false → run (suc fuel) s ≡ (round >>= λ _. run fuel) s
  unfolding run
  run_goes_on fuel s h = ap (λ b. turn b (run fuel) s) h
