-- ===== src/Epoll/Refine.antt =====
-- The event loop implements the channel.
use tag_sim.Common.{
  ℕ, ◌+◌, ◌≤◌, ◌≡◌, refl, ◌≢◌, sym, ap, ◌∙◌, subst, Option, none, some, [], ℤ, pos, negsuc, take,
  length, All, leb, append-nil, drop-all, Bool-cases, inl, inr,
}
use tag_sim.Epoll.State.{perror, Log, write, Os, SendRequest, State}
use tag_sim.Epoll.Events.{
  finish_send, release, data_sent, write_pending, handle_write_event, completed,
}
use tag_sim.Epoll.Loop.{run}
use tag_sim.Epoll.Keep.{logged, completed-After, run-Along}
use tag_sim.Epoll.Wire.{
  taken, left_of, Fits, WriteBounded, ne-test, chunk, advance, moved, split-order, advance-Fits,
}
use tag_sim.Channel.{Channel, Reach, here, next, transmit, finish}
use tag_sim.Machine.{After, Along, After-bind, Along-map}
use tag_sim.Epoll.Simulate.{
  view, under_way_of, Simulates, Sending, SameWire-Sim, perform-Sending, Plain-Sim, perform-Sim,
  le_of_leb,
}

module _ (os : Os) (w : ℤ) (c : Channel) where
  Sending-Fits : (r : SendRequest) (s : State) → Sending os w c r s → Fits (some r)
  Sending-Fits r s (e, h) = subst Fits e h.fits

  moved-Sending :
      (fd : ℤ) (r : SendRequest) (n : ℕ) (s : State)
      → fd ≢ w
      → n ≤ length (chunk r)
      → Sending os w c r s
      → Sending os w c (advance r n) (moved fd r n s)
  moved-Sending fd r n s apart bound h =
      let f = Sending-Fits r s h in
      (
        refl,
        record {
          pipe = h.1.pipe;
          fits = advance-Fits r n f bound;
          path = rw (ne-test w fd apart) (
              next h.1.path (
                transmit (take n (chunk r)) (left_of (advance r n))
                  (ap under_way_of h.0 ∙ ap some (sym (split-order r n f)))));
        },
      )

  release-Sim :
      (r : SendRequest) (s : State)
      → Sending os w c r s
      → left_of r ≡ []
      → After (Simulates c w) (release os s.current_send_request s)
  unfolding release
  release-Sim r s h over = rw h.0 (record {
    pipe = h.1.pipe;
    fits = tt;
    path = next h.1.path (finish (ap under_way_of h.0 ∙ ap some over));
  })

  finish_send-Sim :
      (fd : ℤ) (r : SendRequest) (s : State)
      → Sending os w c r s
      → left_of r ≡ []
      → After (Simulates c w) (finish_send os fd s)
  unfolding finish_send
  finish_send-Sim fd r s h over =
      let cb = s.send_complete_callback in
      let user_data = s.send_complete_user_data in
      After-bind (Sending os w c r) (Simulates c w) (completed os cb fd user_data s) _
        (completed-After os (Sending os w c r) (perform-Sending os w c r) cb fd user_data s
          (λ call e. (h.0, Plain-Sim os w c call (pos 0) s e h.1)) h)
        (λ _ t k. release-Sim r t k over)

  data_sent-Sim :
      (fd : ℤ) (r : SendRequest) (n : ℤ) (s : State)
      → fd ≢ w
      → ((k : ℕ) → n ≡ pos k → k ≤ length (chunk r))
      → Sending os w c r s
      → After (Simulates c w) (data_sent os fd r n (logged (write fd (chunk r)) n s))
  unfolding data_sent
  data_sent-Sim fd r (negsuc n) s apart bound h =
      let t = logged (write fd (chunk r)) (negsuc n) s in
      Plain-Sim os w c (perror "write") (pos 0) t tt (
        SameWire-Sim os w c s t h.1
          (refl, refl, rw (ne-test w fd apart, append-nil (taken w s.log)) refl, refl))
  data_sent-Sim fd r (pos n) s apart bound h =
      let k = moved-Sending fd r n s apart (bound n refl) h in
      let f = Sending-Fits r s h in
      elim (Bool-cases (leb r.size (r.offset + n))) [
        | inl whole ↦ rw whole (
            finish_send-Sim fd (advance r n) (moved fd r n s) k
              (drop-all (r.offset + n) r.content (le_of_leb r.size (r.offset + n) whole f.0)))
        | inr part ↦ rw part k.1
      ]

  write_pending-Sim :
      (p : Option SendRequest) (fd : ℤ) (s : State)
      → WriteBounded os
      → fd ≢ w
      → s.current_send_request ≡ p
      → (Simulates c w) s
      → After (Simulates c w) (write_pending os p fd s)
  unfolding write_pending
  write_pending-Sim none fd s bounded apart e h = h
  write_pending-Sim (some r) fd s bounded apart e h =
      data_sent-Sim fd r (os.sys s.log (write fd (chunk r))) s apart
        (λ k. bounded s.log fd (chunk r) k) (e, h)

  pub handle_write_event-Sim :
      WriteBounded os
      → (fd : ℤ) (s : State) → fd ≢ w
      → (Simulates c w) s
      → After (Simulates c w) (handle_write_event os fd s)
  unfolding handle_write_event
  handle_write_event-Sim bounded fd s apart h =
      write_pending-Sim s.current_send_request fd s bounded apart refl h

pub run-Simulates :
    (os : Os) (w : ℤ)
    → WriteBounded os
    → ((log : Log) (n : ℕ) → All (λ e. e.fd ≢ w) (take n (os.ready log)))
    → (fuel : ℕ) (s : State) → s.wakeup_write ≡ w
    → Fits s.current_send_request
    → Along (Simulates (view w s) w) (run os fuel s)
run-Simulates os w bounded reported fuel s pipe fits =
    run-Along os (Simulates (view w s) w) (λ fd. fd ≢ w) (Plain-Sim os w (view w s))
      (perform-Sim os w (view w s)) (handle_write_event-Sim os w (view w s) bounded) reported fuel s
      (record { pipe = pipe; fits = fits; path = here })

-- The sending side implements the channel. While `write` takes no more than it is given and
-- `epoll_wait` never reports the writing end of the wake pipe, all that the event loop, the callbacks
-- and the other threads do to the bytes on their way is a sequence of the channel's steps: from the
-- channel that the state stands for at first, the channel that it stands for when the loop has ended or
-- goes on can be reached.
pub run-Reach :
    (os : Os) (w : ℤ)
    → WriteBounded os
    → ((log : Log) (n : ℕ) → All (λ e. e.fd ≢ w) (take n (os.ready log)))
    → (fuel : ℕ) (s : State) → s.wakeup_write ≡ w
    → Fits s.current_send_request
    → Along (λ t. Reach (view w s) (view w t)) (run os fuel s)
run-Reach os w bounded reported fuel s pipe fits =
    Along-map (Simulates (view w s) w) _ (run os fuel s) (λ t k. k.path)
      (run-Simulates os w bounded reported fuel s pipe fits)
