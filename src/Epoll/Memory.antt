-- ===== src/Epoll/Memory.antt =====
-- The allocator's blocks: those in use are the two of the pending request, at every moment.
use tag_sim.Common.{
  Bool, false, ◌&&◌, not, ◌+◌, ◌-◌, ◌∙◌, ap, drop, All, ℕ, ◌≡◌, refl, Option, none, some, List, [],
  ◌∷◌, arith, ℤ, pos, negsuc, ==ℤ_refl, take,
}
use tag_sim.Epoll.State.{
  Log, write, memcpy, malloc, free, Call, Event, Request, Os, SendRequest, State,
}
use tag_sim.Epoll.Heap.{live}
use tag_sim.Epoll.Api.{perform}
use tag_sim.Epoll.Events.{
  completed, release, finish_send, data_sent, write_pending, handle_write_event,
}
use tag_sim.Epoll.Loop.{serve, run}
use tag_sim.Epoll.Keep.{Plain, logged, completed-After, serve-After, run-Along}
use tag_sim.Machine.{After, Along, After-bind, Along-map}

abbrev pub blocks : Option SendRequest → List ℤ
blocks none = []
blocks (some r) = r.data_ptr ∷ r.block ∷ []

abbrev pub Owned : State → Type 0
Owned s = live s.log ≡ some (blocks s.current_send_request)

-- With `sticky` the state is also one in which the loop has been asked to stop.
abbrev pub Held : Bool → State → Type 0
Held sticky s = Owned s × ((sticky && not s.stop) ≡ false)

-- The request `r` is pending and its blocks are in use.
abbrev Pending : Bool → SendRequest → State → Type 0
Pending sticky r s =
    (s.current_send_request ≡ some r)
    × (live s.log ≡ some (blocks (some r)))
    × ((sticky && not s.stop) ≡ false)

Plain-live : (c : Call) (r : ℤ) (log : Log) → Plain c → live ((c, r) ∷ log) ≡ live log
Plain-live (malloc n) r log e = absurd e
Plain-live (memcpy p bytes) r log e = absurd e
Plain-live (free p) r log e = absurd e
Plain-live (write fd bytes) r log e = absurd e
Plain-live _ r log e = refl

module _ (os : Os) (sticky : Bool) where
  perform-Pending :
      (q : Request) (r : SendRequest) (s : State)
      → Pending sticky r s
      → After (Pending sticky r) (perform os q s)
  unfolding perform
  perform-Pending (Request.send fd bytes) r s h = ground arith
  perform-Pending Request.stop r s h = ground arith
  perform-Pending _ r s h = ground arith

  pub perform-Held :
      (q : Request) (s : State) → Held sticky s → After (Held sticky) (perform os q s)
  unfolding perform
  perform-Held (Request.send fd bytes) s h = ground arith
  perform-Held Request.stop s h = ground arith
  perform-Held _ s h = ground arith

  release-Held :
      (r : SendRequest) (s : State)
      → Pending sticky r s
      → After (Held sticky) (release os s.current_send_request s)
  unfolding release
  release-Held r s h = rw h.0 (rw (h.1, ==ℤ_refl r.data_ptr, ==ℤ_refl r.block) refl, h.2)

  finish_send-Held :
      (fd : ℤ) (r : SendRequest) (s : State)
      → Pending sticky r s
      → After (Held sticky) (finish_send os fd s)
  unfolding finish_send
  finish_send-Held fd r s h =
      After-bind (Pending sticky r) (Held sticky)
        (completed os s.send_complete_callback fd s.send_complete_user_data s) _
        (completed-After os (Pending sticky r) (λ q t k. perform-Pending q r t k)
          s.send_complete_callback fd s.send_complete_user_data s
          (λ c e. (h.0, Plain-live c (pos 0) s.log e ∙ h.1, h.2)) h)
        (λ _ t k. release-Held r t k)

  data_sent-Held :
      (fd : ℤ) (r : SendRequest) (n : ℤ) (s : State)
      → Pending sticky r s
      → After (Held sticky) (data_sent os fd r n s)
  unfolding data_sent
  data_sent-Held fd r (negsuc n) s h = ground arith
  data_sent-Held fd r (pos n) s h = ground (
    arith,
    finish_send-Held fd (record r { offset = r.offset + n })
        (record s { current_send_request = some (record r { offset = r.offset + n }) })
        (refl, h.1, h.2),
  )

  write_pending-Held :
      (p : Option SendRequest) (fd : ℤ) (s : State)
      → s.current_send_request ≡ p
      → Held sticky s
      → After (Held sticky) (write_pending os p fd s)
  unfolding write_pending
  write_pending-Held none fd s e h = h
  write_pending-Held (some r) fd s e h =
      let c = write fd (take (r.size - r.offset) (drop r.offset r.content)) in
      let n = os.sys s.log c in
      data_sent-Held fd r n (logged c n s) (e, h.0 ∙ ap (λ o. some (blocks o)) e, h.1)

  handle_write_event-Held :
      (fd : ℤ) (s : State)
      → Unit {0}
      → Held sticky s
      → After (Held sticky) (handle_write_event os fd s)
  unfolding handle_write_event
  handle_write_event-Held fd s q h = write_pending-Held s.current_send_request fd s refl h

  Plain-Held : (c : Call) (r : ℤ) (s : State) → Plain c → Held sticky s → Held sticky (logged c r s)
  Plain-Held c r s e h = (Plain-live c r s.log e ∙ h.0, h.1)

pub All-Unit : (es : List Event) → All (λ e. Unit {0}) es
All-Unit [] = tt
All-Unit (e ∷ es) = (tt, All-Unit es)

-- The handlers of a round end, and keep the blocks of the pending request and a stop that was asked
-- for.
pub serve-Held :
    (os : Os) (sticky : Bool) (n : ℤ) (before : Log) (s : State)
    → Held sticky s
    → After (Held sticky) (serve os n before s)
serve-Held os sticky =
    serve-After os (Held sticky) (λ _. Unit {0}) (Plain-Held os sticky) (perform-Held os sticky)
      (handle_write_event-Held os sticky) (λ log n. All-Unit (take n (os.ready log)))

-- Where the blocks of the pending request are in use, and no others, when the event loop starts, and where
-- the callbacks and the other threads use only `send`, `wake`, `stop` and the setters of the callbacks: it
-- never frees a block that is not in use and never loses one, whatever the system answers. When it
-- returns, or after any number of rounds, the blocks in use are again those of the pending request. It
-- never reads a null `current_send_request`.
pub run-Owned : (os : Os) (fuel : ℕ) (s : State) → Owned s → Along Owned (run os fuel s)
run-Owned os fuel s h =
    Along-map (Held false) Owned (run os fuel s) (λ t k. k.0)
      (run-Along os (Held false) (λ _. Unit {0}) (Plain-Held os false) (perform-Held os false)
        (handle_write_event-Held os false) (λ log n. All-Unit (take n (os.ready log))) fuel s
        (h, refl))
