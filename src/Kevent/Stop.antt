-- ===== src/Kevent/Stop.antt =====
-- A request to stop the event loop, which another thread makes while `kevent` blocks.
use tag_sim.Common.{
  ◌∙◌, ℕ, zero, suc, ◌≤◌, ◌≡◌, refl, Bool, true, false, List, [], ◌∷◌, ℤ, ◌==ℤ◌, Bool-cases, inl,
  inr, arith,
}
use tag_sim.Machine.{Every, Every-bind, Returned-Every, Every-map}
use tag_sim.Kevent.State.{
  Log, Call, wait, close, free, Request, stop_request, wake_request, Os, State, null, num_events,
}
use tag_sim.Kevent.Lifecycle.{perform_all, perform, stop, wake}
use tag_sim.Kevent.Loop.{run, rounds, round, turn}
use tag_sim.Kevent.Sockets.{logged, perform-Unseen}
use tag_sim.Kevent.Keep.{Handled, Stable, perform_all-Keeps}
use tag_sim.Kevent.Keep.Loop.{serve-Keeps, turn-Every}

-- How often the loop waited.
abbrev pub waits : Log → ℕ
waits [] = 0
waits ((wait kq n sec nsec, r) ∷ log) = suc (waits log)
waits (_ ∷ log) = waits log

abbrev pub asks_stop : List Request → Bool
asks_stop [] = false
asks_stop (stop_request ∷ qs) = true
asks_stop (wake_request ∷ qs) = asks_stop qs

-- The state when the next wait of the loop is over.
abbrev pub waited : Os → State → State
waited os s =
    let p = s.proactor in
    let c = wait p.kq num_events p.tick_sec p.tick_nsec in logged c (os.sys s.log c) s

Handled-waits : (c : Call) (r : ℤ) (log : Log) → Handled c → waits ((c, r) ∷ log) ≡ waits log
Handled-waits (close fd) r log e = absurd e
Handled-waits (free p) r log e = absurd e
Handled-waits (wait kq n sec nsec) r log e = absurd e
Handled-waits _ r log e = refl

module _ (os : Os) (n : ℕ) where
  abbrev Counted : State → Type 0
  Counted s = waits s.log ≡ n

  -- A stop was asked for.
  abbrev Held : State → Type 0
  Held s = (s.proactor.stop ≡ true) × (waits s.log ≡ n)

  Held-Stable : Stable os Held
  Held-Stable = record {
    calls = λ c r s e h. (h.0, rw (Handled-waits c r s.log e) h.1);
    stops = λ s h. (refl, h.1);
    accepts = λ log fd addr s h. h;
    reads_end = λ p c addr s at h. h;
    reads_some = λ p c buffer log addr k s at has_buffer r h. h;
  }

  module _ (proactor : ℤ) (given : (proactor ==ℤ null) ≡ false) where
    stop-Held : (s : State) → Counted s → Every Held (stop os proactor s)
    unfolding stop wake
    stop-Held s h = rw given (refl, h)

    perform_all-stops :
        (qs : List Request) (s : State)
        → asks_stop qs ≡ true
        → Counted s
        → Every Held (perform_all os proactor qs s)
    unfolding perform_all perform
    perform_all-stops [] s e h = cc
    perform_all-stops (stop_request ∷ qs) s e h =
        Every-bind Held (stop os proactor s) _ (stop-Held s h)
          (λ _ t k. perform_all-Keeps os Held Held-Stable proactor qs t k)
    perform_all-stops (wake_request ∷ qs) s e h =
        Returned-Every (λ _ t. waits t.log ≡ waits s.log) Held (perform os proactor wake_request s)
          _ (perform-Unseen os proactor waits (λ fd bytes r log. refl) wake_request s)
          (λ _ t k. perform_all-stops qs t e (k ∙ h))

    rounds-Held : (fuel : ℕ) (s : State) → Held s → Every Held (rounds os fuel proactor s)
    unfolding rounds turn
    rounds-Held zero s h = h
    rounds-Held (suc fuel) s h = rw h.0 (refl, h.1)

    round-Held :
        (fuel : ℕ) (s : State)
        → asks_stop (os.app (waited os s).log) ≡ true
        → waits (waited os s).log ≡ n
        → Every Held (round os fuel proactor s)
    unfolding round
    round-Held fuel s asked h =
        let p = s.proactor in
        let n = os.sys s.log (wait p.kq num_events p.tick_sec p.tick_nsec) in
        Every-bind Held _ _ (perform_all-stops _ (waited os s) asked h)
          (λ _ t k. serve-Keeps os Held Held-Stable proactor fuel n s.log t k)

module _ (os : Os) where
  Held-Once : (s t : State) → Held os (suc (waits s.log)) t → waits t.log ≤ suc (waits s.log)
  Held-Once s t h = ground arith

  rounds-waits :
      (fuel : ℕ) (proactor : ℤ) (s : State)
      → (proactor ==ℤ null) ≡ false
      → asks_stop (os.app (waited os s).log) ≡ true
      → Every (λ t. waits t.log ≤ suc (waits s.log)) (rounds os fuel proactor s)
  unfolding rounds
  rounds-waits zero proactor s given asked = omega arith
  rounds-waits (suc fuel) proactor s given asked =
      let n = suc (waits s.log) in
      turn-Every os (λ t. waits t.log ≤ suc (waits s.log)) s.proactor.stop _ s (omega arith)
        (Every-map (Held os n) _ _ (Held-Once s) (
          Every-bind (Held os n) _ _ (round-Held os n proactor given (suc fuel) s asked refl)
            (λ _ t k. rounds-Held os n proactor given fuel t k)))

  -- If another thread asks for a stop while the next call of `kevent` blocks, then however
  -- `proactor_net_run` ends, and whatever the events, the callbacks and the sockets are, `kevent` is called
  -- at most once.
  pub run-waits :
      (fuel : ℕ) (proactor : ℤ) (s : State)
      → asks_stop (os.app (waited os s).log) ≡ true
      → Every (λ t. waits t.log ≤ suc (waits s.log)) (run os fuel proactor s)
  unfolding run
  run-waits fuel proactor s asked = elim (Bool-cases (proactor ==ℤ null)) [
    | inl none_given ↦ rw none_given (omega arith)
    | inr given ↦ rw given (rounds-waits fuel proactor s given asked)
  ]
