-- ===== src/Iocp/Loop.antt =====
-- `proactor_tcp_iocp_run`.
use tag_sim.Common.{ℕ, zero, suc, Bool, true, false, ◌≡◌, ap, if◌then◌else◌, ℤ}
use tag_sim.Iocp.State.{get_completion, Os, State, M, Log, handle_error, call}
use tag_sim.Iocp.Setup.{is_null}
use tag_sim.Iocp.Api.{perform_all}
use tag_sim.Iocp.Events.{dispatch}
use tag_sim.Machine.{done, going, ◌>>=◌, ◌>>◌, get}

-- The wait never ends.
abbrev blocked : M (Unit {0})
blocked s = going s

module _ (os : Os) where
  -- What is done with the result of `GetQueuedCompletionStatus`, called after `before`.
  unfoldable pub serve : ℤ → Log → M (Unit {0})
  serve result before =
      if is_null result
      then handle_error "GetQueuedCompletionStatus"
      else dispatch os (os.key before)

  -- One round of the `while` loop. While it waits, other threads may use the interface. The call is logged
  -- when it is made; where it never returns, the loop is still in it.
  unfoldable pub round : M (Unit {0})
  round = do
    before ← get
    result ← call os (get_completion before.iocp)
    after ← get
    perform_all os (os.app after.log)
    if os.returns before.log then serve result before.log else blocked

  -- The test of the `while` loop.
  turn : Bool → M (Unit {0}) → M (Unit {0})
  turn true again s = done tt s
  turn false again s = (round >> again) s

  -- `fuel` bounds the rounds; `going` is a loop that is still running.
  unfoldable pub run : ℕ → M (Unit {0})
  unfolding turn
  run zero s = going s
  run (suc fuel) s = let again = run fuel in turn s.stop again s

  pub run_stopped : (fuel : ℕ) (s : State) → s.stop ≡ true → run (suc fuel) s ≡ done tt s
  unfolding run
  run_stopped fuel s h = ap (λ b. turn b (run fuel) s) h

  pub run_goes_on :
      (fuel : ℕ) (s : State) → s.stop ≡ false → run (suc fuel) s ≡ (round >>= λ _. run fuel) s
  unfolding run
  run_goes_on fuel s h = ap (λ b. turn b (run fuel) s) h
