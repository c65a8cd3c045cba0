-- ===== src/Epoll/Stop.antt =====
-- A request to stop ends the event loop.
use tag_sim.Common.{
  inr, inl, ◌||◌, Bool-cases, ℕ, suc, ◌≡◌, refl, Bool, true, false, ◌&&◌, not, List, [], ◌∷◌, arith,
}
use tag_sim.Epoll.State.{epoll_wait, max_events, Request, Os, State}
use tag_sim.Epoll.Api.{perform, perform_all}
use tag_sim.Epoll.Loop.{run, round, run_stopped, run_goes_on}
use tag_sim.Machine.{After, After-bind}
use tag_sim.Epoll.Keep.{logged, perform_all-After}
use tag_sim.Epoll.Memory.{Owned, Held, perform-Held, serve-Held}

abbrev is_stop : Request → Bool
is_stop Request.stop = true
is_stop _ = false

abbrev pub asks_stop : List Request → Bool
asks_stop [] = false
asks_stop (q ∷ qs) = is_stop q || asks_stop qs

stop_of : (s : State) → (true && not s.stop) ≡ false → s.stop ≡ true
stop_of s h = ground arith

module _ (os : Os) where
  stop-Held : (s : State) → Held false s → After (Held true) (perform os Request.stop s)
  unfolding perform
  stop-Held s h = ground arith

  perform_all-stops :
      (qs : List Request) (s : State)
      → asks_stop qs ≡ true
      → Held false s
      → After (Held true) (perform_all os qs s)
  unfolding perform_all
  perform_all-stops [] s e h = cc
  perform_all-stops (Request.stop ∷ qs) s e h =
      After-bind (Held true) (Held true) (perform os Request.stop s) _ (stop-Held s h)
        (λ _ t k. perform_all-After os (Held true) (perform-Held os true) qs t k)
  perform_all-stops (q ∷ qs) s e h =
      After-bind (Held false) (Held true) (perform os q s) _ (perform-Held os false q s h)
        (λ _ t k. perform_all-stops qs t e k)

  round-stops :
      (s : State)
      → Owned s
      → asks_stop (
          os.app (
            (epoll_wait s.epoll_fd max_events, os.sys s.log (epoll_wait s.epoll_fd max_events))
            ∷ s.log))
        ≡ true
      → After (Held true) (round os s)
  unfolding round
  round-stops s h asked =
      let c = epoll_wait s.epoll_fd max_events in
      let n = os.sys s.log c in
      let s' = logged c n s in
      After-bind (Held true) (Held true) (perform_all os (os.app s'.log) s') _
        (perform_all-stops (os.app s'.log) s' asked (h, refl))
        (λ _ t k. serve-Held os true n s.log t k)

  -- If another thread asks for a stop while the loop waits for events, the loop ends after the events
  -- of that round, with the stop still asked for, unless the process exits: no further call of
  -- `epoll_wait` is made, and no round is needed beyond this one.
  pub run-stops :
      (fuel : ℕ) (s : State)
      → Owned s
      → asks_stop (
          os.app (
            (epoll_wait s.epoll_fd max_events, os.sys s.log (epoll_wait s.epoll_fd max_events))
            ∷ s.log))
        ≡ true
      → After (λ t. t.stop ≡ true) (run os (suc (suc fuel)) s)
  run-stops fuel s h asked = elim (Bool-cases s.stop) [
    | inl stopped ↦ rw (run_stopped os (suc fuel) s stopped) stopped
    | inr runs ↦ rw (run_goes_on os (suc fuel) s runs) (
        After-bind (Held true) (λ t. t.stop ≡ true) (round os s) _ (round-stops s h asked)
          (λ _ t k. rw (run_stopped os fuel t (stop_of t k.1)) (stop_of t k.1)))
  ]
