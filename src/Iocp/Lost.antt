-- ===== src/Iocp/Lost.antt =====
-- What the application hears of received data.
use tag_sim.Common.{ℕ, ◌≡◌, refl, ◌∙◌, List, [], ◌∷◌, arith, ℤ}
use tag_sim.Iocp.State.{
  accept, create_port, get_completion, on_accept, Log, Call, malloc, on_receive, Request, Os, State,
}
use tag_sim.Iocp.Api.{perform}
use tag_sim.Iocp.Events.{handle_data_event}
use tag_sim.Iocp.Loop.{run}
use tag_sim.Iocp.Keep.{Plain, handle_data_event-After, run-Along}
use tag_sim.Machine.{After, Along}

-- The buffers handed to the receive callback, the latest first.
abbrev pub heard : Log → List (List ℕ)
heard [] = []
heard ((on_receive cb fd bytes d, r) ∷ log) = bytes ∷ heard log
heard (_ ∷ log) = heard log

-- No receive is complete when `WSARecv` returns, and `bytes_received` keeps its 0.
abbrev pub AlwaysPends : Os → Type 0
AlwaysPends os = (log : Log) → os.bytes_received log ≡ 0

Plain-heard : (c : Call) (r : ℤ) (log : Log) → Plain c → heard ((c, r) ∷ log) ≡ heard log
Plain-heard (accept fd) r log e = refl
Plain-heard (create_port x port key) r log e = refl
Plain-heard (get_completion port) r log e = refl
Plain-heard (on_accept cb fd client d) r log e = refl
Plain-heard _ r log e = absurd e

module _ (os : Os) (before : List (List ℕ)) where
  abbrev Same : State → Type 0
  Same s = heard s.log ≡ before

  perform-Same : (q : Request) (s : State) → Same s → After Same (perform os q s)
  unfolding perform
  perform-Same (Request.send fd memory length) s h = ground arith
  perform-Same _ s h = h

  receives-Same :
      AlwaysPends os → (fd : ℤ) (s : State) → Same s → After Same (handle_data_event os fd s)
  receives-Same pends fd s h =
      handle_data_event-After os Same fd s perform-Same (λ p r room. h)
        (λ cb bytes d p t some_read k. absurd (ground (arith, pends ((malloc 8248, p) ∷ s.log))))

-- If each receive is still pending when `WSARecv` returns, the receive callback is never called by the
-- event loop: a completion that announces data makes the loop post another receive, and the data of
-- the completed one is not handed on.
pub run-heard :
    (os : Os) (fuel : ℕ) (s : State)
    → AlwaysPends os
    → Along (λ t. heard t.log ≡ heard s.log) (run os fuel s)
run-heard os fuel s pends =
    run-Along os (Same os (heard s.log)) (λ c r t e h. Plain-heard c r t.log e ∙ h)
      (perform-Same os (heard s.log)) (λ fd t _ h. receives-Same os (heard s.log) pends fd t h) fuel
      s refl
