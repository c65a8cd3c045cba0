-- ===== src/Iocp/Stop.antt =====
-- A request to stop ends the event loop, once the wait is over.
use tag_sim.Common.{
  ℕ, suc, ◌≡◌, refl, ◌||◌, Bool, true, false, List, [], ◌∷◌, arith, ℤ, Bool-cases, inl, inr,
}
use tag_sim.Iocp.State.{get_completion, Request, Os, State, logged}
use tag_sim.Iocp.Api.{perform, perform_all}
use tag_sim.Iocp.Events.{handle_data_event}
use tag_sim.Iocp.Loop.{run, round, run_stopped, run_goes_on}
use tag_sim.Iocp.Keep.{perform_all-After, serve-After, handle_data_event-After}
use tag_sim.Machine.{After, After-bind}

abbrev is_stop : Request → Bool
is_stop Request.stop = true
is_stop _ = false

abbrev pub asks_stop : List Request → Bool
asks_stop [] = false
asks_stop (q ∷ qs) = is_stop q || asks_stop qs

abbrev Stopped : State → Type 0
Stopped s = s.stop ≡ true

module _ (os : Os) where
  perform-Stopped : (q : Request) (s : State) → Stopped s → After Stopped (perform os q s)
  unfolding perform
  perform-Stopped (Request.send fd memory length) s h = ground arith
  perform-Stopped Request.stop s h = refl
  perform-Stopped _ s h = h

  perform-any : (q : Request) (s : State) → Unit {0} → After (λ _. Unit {0}) (perform os q s)
  unfolding perform
  perform-any (Request.send fd memory length) s h = ground arith
  perform-any _ s h = tt

  stop_stops : (s : State) → After Stopped (perform os Request.stop s)
  unfolding perform
  stop_stops s = refl

  perform_all-stops :
      (qs : List Request) (s : State) → asks_stop qs ≡ true → After Stopped (perform_all os qs s)
  unfolding perform_all
  perform_all-stops [] s e = cc
  perform_all-stops (Request.stop ∷ qs) s e =
      After-bind Stopped Stopped (perform os Request.stop s) _ (stop_stops s)
        (λ _ t k. perform_all-After os Stopped perform-Stopped qs t k)
  perform_all-stops (q ∷ qs) s e =
      After-bind (λ _. Unit {0}) Stopped (perform os q s) _ (perform-any q s tt)
        (λ _ t k. perform_all-stops qs t e)

  receives-Stopped : (fd : ℤ) (s : State) → Stopped s → After Stopped (handle_data_event os fd s)
  receives-Stopped fd s h =
      handle_data_event-After os Stopped fd s perform-Stopped (λ p r room. h)
        (λ cb bytes d p t some_read k. k)

  -- Another thread asks for a stop while the loop waits.
  abbrev pub Asked : State → Type 0
  Asked s =
      asks_stop (os.app ((get_completion s.iocp, os.sys s.log (get_completion s.iocp)) ∷ s.log))
      ≡ true

  -- The requests that are made while the loop waits.
  waiting-Stopped :
      (s : State)
      → Asked s
      → After Stopped (
          let t = logged (get_completion s.iocp) (os.sys s.log (get_completion s.iocp)) s in
          perform_all os (os.app t.log) t)
  waiting-Stopped s asked = perform_all-stops _ _ asked

  round-stops : (s : State) → Asked s → os.returns s.log ≡ true → After Stopped (round os s)
  unfolding round
  round-stops s asked over = rw over (
      After-bind Stopped Stopped _ _ (waiting-Stopped s asked) (λ _ u k.
        serve-After os Stopped (λ c r v e h. h) perform-Stopped
          (λ fd v _ h. receives-Stopped fd v h) _ s.log u k))

  -- If another thread asks for a stop while the loop waits, and the wait ends, the loop ends after that
  -- completion, unless the process exits: there is no second wait.
  pub run-Stopped :
      (fuel : ℕ) (s : State)
      → Asked s
      → os.returns s.log ≡ true
      → After Stopped (run os (suc (suc fuel)) s)
  run-Stopped fuel s asked over = elim (Bool-cases s.stop) [
    | inl stopped ↦ rw (run_stopped os (suc fuel) s stopped) stopped
    | inr runs ↦ rw (run_goes_on os (suc fuel) s runs) (
        After-bind Stopped Stopped (round os s) _ (round-stops s asked over)
          (λ _ t k. rw (run_stopped os fuel t k) k))
  ]
