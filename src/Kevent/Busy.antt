-- ===== src/Kevent/Busy.antt =====
-- What the event loop does while `kevent` fails.
use tag_sim.Common.{
  ℕ, zero, suc, ◌≡◌, refl, ap, ◌∙◌, true, false, Option, none, some, [], ◌∷◌, ℤ, pos, ◌==ℤ◌, ◌==◌,
  minus_one,
}
use tag_sim.Machine.{done, going, and_then}
use tag_sim.Status.Codes.{Status}
use tag_sim.Kevent.State.{Log, wait, on_event, tick, Os, State, Proactor, null, num_events, eintr}
use tag_sim.Kevent.Lifecycle.{perform_all, upcall}
use tag_sim.Kevent.Loop.{
  run, rounds, round, turn, serve, dispatch_all, ticks, tick_proactor, tick_sockets,
}

-- Every call of `kevent` fails, and a signal is not the reason; no callback and no other thread asks for
-- anything, and the loop variable of the ticks holds null.
pub record Failing (os : Os) : Type 0 where
  pub fails : (log : Log) (kq : ℤ) (n sec nsec : ℕ) → os.sys log (wait kq n sec nsec) ≡ minus_one
  pub no_signal : (log : Log) → (os.errno log == eintr) ≡ false
  pub quiet : (log : Log) → os.app log ≡ []
  pub zeroed : (log : Log) → (os.garbage log ==ℤ null) ≡ true

-- The tick of the proactor.
abbrev pub told : Option ℕ → ℕ → Log → Log
told none app_data log = log
told (some cb) app_data log = (on_event cb tick Status.ok app_data, pos 0) ∷ log

-- A number of rounds that consist of the failing call and the tick.
abbrev pub busy : Proactor → ℕ → Log → Log
busy p zero log = log
busy p (suc n) log =
    busy p n
      (told p.event_cb p.app_data ((wait p.kq num_events p.tick_sec p.tick_nsec, minus_one) ∷ log))

module _ (os : Os) (failing : Failing os) (proactor : ℤ) where
  tick_proactor-told :
      (cb : Option ℕ) (app_data : ℕ) (s : State)
      → tick_proactor os proactor cb app_data s
        ≡ done tt (record s { log = told cb app_data s.log })
  unfolding tick_proactor upcall perform_all
  tick_proactor-told none app_data s = refl
  tick_proactor-told (some cb) app_data s = rw (failing.quiet _) refl

  round-busy :
      (fuel : ℕ) (s : State)
      → round os (suc fuel) proactor s ≡ done tt (record s { log = busy s.proactor 1 s.log })
  unfolding round perform_all serve dispatch_all ticks tick_sockets
  round-busy fuel s =
      rw (failing.fails _ _ _ _ _, failing.quiet _, failing.no_signal _)
        (ap (λ r. and_then r (λ _ t. tick_sockets os (suc fuel) proactor (os.garbage t.log) t))
            (tick_proactor-told s.proactor.event_cb s.proactor.app_data _)
          ∙ rw (failing.zeroed _) refl)

  rounds-busy :
      (fuel : ℕ) (s : State)
      → s.proactor.stop ≡ false
      → rounds os fuel proactor s ≡ going (record s { log = busy s.proactor fuel s.log })
  unfolding rounds turn
  rounds-busy zero s runs = refl
  rounds-busy (suc fuel) s runs =
      ap
        (λ b.
          turn os b (λ t. and_then (round os (suc fuel) proactor t) (λ _. rounds os fuel proactor))
            s)
        runs
      ∙ ap (λ r. and_then r (λ _. rounds os fuel proactor)) (round-busy fuel s)
      ∙ rounds-busy fuel (record s { log = busy s.proactor 1 s.log }) runs

  -- Where every call of `kevent` fails without a signal, nobody asks for a stop, and the loop variable of
  -- the ticks holds null, the loop never ends, whatever the fuel: it calls `kevent` and then the
  -- callback of the proactor, if there is one, with a tick and STATUS_OK, again and again, and makes no
  -- other call.
  pub run-busy :
      (fuel : ℕ) (s : State)
      → (proactor ==ℤ null) ≡ false
      → s.proactor.stop ≡ false
      → run os fuel proactor s ≡ going (record s { log = busy s.proactor fuel s.log })
  unfolding run
  run-busy fuel s given runs = rw given (rounds-busy fuel s runs)
