-- ===== src/Iocp/Leak.antt =====
-- The blocks of the operations, none of which the event loop frees.
use tag_sim.Common.{ℕ, ◌≡◌, refl, Option, some, List, [], ◌∷◌, arith, ℤ}
use tag_sim.Common.Blocks.{take_block, free_block}
use tag_sim.Iocp.State.{
  accept, create_port, get_completion, on_accept, Log, Call, malloc, free, wsa_recv, wsa_send,
  Request, Os, State, logged,
}
use tag_sim.Iocp.Api.{perform}
use tag_sim.Iocp.Events.{handle_data_event}
use tag_sim.Iocp.Loop.{run}
use tag_sim.Iocp.Keep.{Plain, handle_data_event-After, run-Along}
use tag_sim.Machine.{After, Along}

-- The blocks in use after the calls of a log; `none` where a block was freed that was not in use.
abbrev pub in_use : Log → Option (List ℤ)
in_use [] = some []
in_use ((malloc n, p) ∷ log) = take_block p (in_use log)
in_use ((free p, r) ∷ log) = free_block p (in_use log)
in_use (_ ∷ log) = in_use log

-- The blocks of all receives and sends that were ever posted, the latest first.
abbrev pub posted : Log → List ℤ
posted [] = []
posted ((wsa_recv fd p n, r) ∷ log) = p ∷ posted log
posted ((wsa_send fd p memory n, r) ∷ log) = p ∷ posted log
posted (_ ∷ log) = posted log

abbrev pub Kept : State → Type 0
Kept s = in_use s.log ≡ some (posted s.log)

Plain-Kept : (c : Call) (r : ℤ) (s : State) → Plain c → Kept s → Kept (logged c r s)
Plain-Kept (accept fd) r s e h = h
Plain-Kept (create_port x port key) r s e h = h
Plain-Kept (get_completion port) r s e h = h
Plain-Kept (on_accept cb fd client d) r s e h = h
Plain-Kept _ r s e h = absurd e

module _ (os : Os) where
  perform-Kept : (q : Request) (s : State) → Kept s → After Kept (perform os q s)
  unfolding perform
  perform-Kept (Request.send fd memory length) s h = ground arith
  perform-Kept _ s h = h

  receives-Kept : (fd : ℤ) (s : State) → Kept s → After Kept (handle_data_event os fd s)
  receives-Kept fd s h =
      handle_data_event-After os Kept fd s perform-Kept (λ p r room. rw (h, room) refl)
        (λ cb bytes d p t some_read k. k)

  -- Whatever the system, the callbacks and the other threads do: if the blocks in use are those of the
  -- operations posted so far, as they are when the program starts, then they are so whenever the event
  -- loop has ended or goes on. The block of each receive and of each send stays in use for good, also
  -- when the operation is complete, and none is freed twice.
  pub run-Kept : (fuel : ℕ) (s : State) → Kept s → Along Kept (run os fuel s)
  run-Kept = run-Along os Kept Plain-Kept perform-Kept (λ fd s _ h. receives-Kept fd s h)
