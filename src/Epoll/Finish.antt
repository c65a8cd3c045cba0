-- ===== src/Epoll/Finish.antt =====
-- A pending request is finished by enough writable events.
use tag_sim.Common.{
  ℕ, zero, suc, ◌+◌, ◌-◌, ◌≤◌, ◌≡◌, refl, ◌∙◌, ap, subst, true, false, Option, none, some, List, [],
  ◌∷◌, arith, ℤ, pos, ◌==ℤ◌, length, leb, Bool-cases, inl, inr,
}
use Prim.Native.Nat.{min}
use tag_sim.Epoll.State.{Log, Bytes, write, Event, Os, SendRequest, State, epollin, epollout}
use tag_sim.Epoll.Events.{
  has, finish_send, data_sent, write_pending, handle_write_event, choose, dispatch,
}
use tag_sim.Epoll.Loop.{dispatch_all}
use tag_sim.Epoll.Keep.{logged}
use tag_sim.Epoll.Same.{Same, Busy, finish_send-Same}
use tag_sim.Epoll.Wire.{length-chunk, Fits, chunk, advance, moved, advance-Fits}
use tag_sim.Machine.{After, After-bind, After-map}

-- `write` takes some of what it is given, if that is not empty, and no more than all of it.
abbrev pub Progresses : Os → Type 0
Progresses os =
    (log : Log) (fd : ℤ) (bytes : Bytes)
    → (n : ℕ) × (os.sys log (write fd bytes) ≡ pos n)
      × (n ≤ length bytes)
      × (min 1 (length bytes) ≤ n)

-- How many events are enough: one for each byte left, and one for an empty message.
abbrev pub writes_left : Option SendRequest → ℕ
writes_left none = 0
writes_left (some r) = suc (r.size - r.offset)

abbrev pub repeat : ℕ → Event → List Event
repeat zero e = []
repeat (suc n) e = e ∷ repeat n e

-- The event is that of a connection that is only writable.
pub record IsWritable (s : State) (e : Event) : Type 0 where
  pub not_pipe : (e.fd ==ℤ s.wakeup_read) ≡ false
  pub not_server : (e.fd ==ℤ s.server_socket) ≡ false
  pub not_in : has e.events epollin ≡ false
  pub out : has e.events epollout ≡ true

module _ (os : Os) (s0 : State) where
  -- At most `n` more writes are needed.
  abbrev Needs : ℕ → State → Type 0
  Needs n s = Same os s0 s × Fits s.current_send_request × (writes_left s.current_send_request ≤ n)

  finish_send-Needs :
      (n : ℕ) (fd : ℤ) (r : SendRequest) (s : State)
      → Busy os s0 r s
      → After (Needs n) (finish_send os fd s)
  finish_send-Needs n fd r s h =
      finish_send-Same os s0 (Needs n) fd r s (λ t e k. (k, rw e tt, rw e (omega arith))) h

  data_sent-Needs :
      (n : ℕ) (fd : ℤ) (r : SendRequest) (k : ℕ) (s : State)
      → Same os s0 s
      → Fits (some r)
      → r.size - r.offset ≤ n
      → k ≤ length (chunk r)
      → min 1 (length (chunk r)) ≤ k
      → After (Needs n) (data_sent os fd r (pos k) (logged (write fd (chunk r)) (pos k) s))
  unfolding data_sent
  data_sent-Needs n fd r k s same f few bound some_taken =
      elim (Bool-cases (leb r.size (r.offset + k))) [
        | inl whole ↦ rw whole (finish_send-Needs n fd (advance r k) (moved fd r k s) (refl, same))
        | inr part ↦ rw part (same, advance-Fits r k f bound, ground (arith, length-chunk r f))
      ]

  write_pending-Needs :
      (n : ℕ) (p : Option SendRequest) (fd : ℤ) (s : State)
      → Progresses os
      → s.current_send_request ≡ p
      → Needs (suc n) s
      → After (Needs n) (write_pending os p fd s)
  unfolding write_pending
  write_pending-Needs n none fd s progress e h = (h.0, h.1, rw e (omega arith))
  write_pending-Needs n (some r) fd s progress e h =
      let taken = progress s.log fd (chunk r) in
      rw taken.1 (
        data_sent-Needs n fd r taken.0 s h.0 (subst Fits e h.1)
          (let few : writes_left (some r) ≤ suc n = subst (λ p. writes_left p ≤ suc n) e h.2 in
            omega arith)
          taken.2 taken.3)

  dispatch-Needs :
      (n : ℕ) (e : Event) (s : State)
      → Progresses os
      → IsWritable s0 e
      → Needs (suc n) s
      → After (Needs n) (dispatch os e s)
  unfolding dispatch choose handle_write_event
  dispatch-Needs n e s progress writable h =
      let pipe : (e.fd ==ℤ s.wakeup_read) ≡ false =
        ap (λ w. e.fd ==ℤ w) h.0.0 ∙ writable.not_pipe in
      let server : (e.fd ==ℤ s.server_socket) ≡ false =
        ap (λ w. e.fd ==ℤ w) h.0.1 ∙ writable.not_server in
      simp (pipe, server, writable.not_in, writable.out)
        (write_pending-Needs n s.current_send_request e.fd s progress refl h)

  dispatch_all-Needs :
      (k : ℕ) (e : Event) (s : State)
      → Progresses os
      → IsWritable s0 e
      → Needs k s
      → After (Needs 0) (dispatch_all os (repeat k e) s)
  unfolding dispatch_all
  dispatch_all-Needs zero e s progress writable h = h
  dispatch_all-Needs (suc k) e s progress writable h =
      After-bind (Needs k) (Needs 0) (dispatch os e s) _ (dispatch-Needs k e s progress writable h)
        (λ _ t h'. dispatch_all-Needs k e t progress writable h')

pub none_left : (p : Option SendRequest) → writes_left p ≤ 0 → p ≡ none
none_left none h = refl
none_left (some r) h = absurd (omega arith)

-- Where each `write` takes something, if there is something left, the pending request is finished by as
-- many writable events as it has bytes left, and one more, unless the process exits.
pub writes_finish :
    (os : Os) (e : Event) (s : State)
    → Progresses os
    → IsWritable s e
    → Fits s.current_send_request
    → After
        (λ t. t.current_send_request ≡ none)
        (dispatch_all os (repeat (writes_left s.current_send_request) e) s)
writes_finish os e s progress writable fits =
    After-map (Needs os s 0) _ (dispatch_all os (repeat (writes_left s.current_send_request) e) s)
      (λ t h. none_left t.current_send_request h.2)
      (dispatch_all-Needs os s (writes_left s.current_send_request) e s progress writable
        ((refl, refl, refl, refl, refl), fits, omega arith))
