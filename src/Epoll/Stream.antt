-- ===== src/Epoll/Stream.antt =====
-- The bytes of the requests reach the sockets in order.
use tag_sim.Common.{ℕ, ◌≡◌, ◌≢◌, ◌∙◌, ap, ℤ, All, take, ◌++◌, Option, none, some, refl}
use tag_sim.Epoll.State.{Log, Os, SendRequest, State}
use tag_sim.Epoll.Loop.{run}
use tag_sim.Epoll.Wire.{taken, submitted, remaining, Fits, WriteBounded}
use tag_sim.Channel.{Reach-Ordered, unsent}
use tag_sim.Epoll.Simulate.{view, under_way_of, Simulates}
use tag_sim.Epoll.Refine.{run-Simulates}
use tag_sim.Machine.{Along, Along-map}

pub record InOrder (w : ℤ) (s : State) : Type 0 where
  pub pipe : s.wakeup_write ≡ w
  pub fits : Fits s.current_send_request
  pub order : submitted s.log ≡ taken w s.log ++ remaining s.current_send_request

unsent-under_way_of : (p : Option SendRequest) → unsent (under_way_of p) ≡ remaining p
unsent-under_way_of none = refl
unsent-under_way_of (some r) = refl

Simulates-InOrder : (w : ℤ) (s t : State) → InOrder w s → Simulates (view w s) w t → InOrder w t
Simulates-InOrder w s t h k = record {
  pipe = k.pipe;
  fits = k.fits;
  order =
      Reach-Ordered k.path (rw (unsent-under_way_of s.current_send_request) h.order)
      ∙ ap (λ r. taken w t.log ++ r) (unsent-under_way_of t.current_send_request);
}

-- While `write` takes no more than it is given and `epoll_wait` never reports the writing end of the
-- wake pipe, the bytes that `write` has taken and those left of the pending request are together the
-- bytes of all accepted requests: none is lost, doubled or out of order, whenever the event loop has
-- ended or goes on, and whatever the callbacks and the other threads request.
pub run-InOrder :
    (os : Os) (w : ℤ)
    → WriteBounded os
    → ((log : Log) (n : ℕ) → All (λ e. e.fd ≢ w) (take n (os.ready log)))
    → (fuel : ℕ) (s : State) → InOrder w s
    → Along (InOrder w) (run os fuel s)
run-InOrder os w bounded reported fuel s h =
    Along-map (Simulates (view w s) w) (InOrder w) (run os fuel s)
      (λ t k. Simulates-InOrder w s t h k)
      (run-Simulates os w bounded reported fuel s h.pipe h.fits)
