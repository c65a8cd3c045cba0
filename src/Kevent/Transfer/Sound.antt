-- ===== src/Kevent/Transfer/Sound.antt =====
-- Sequences of calls of the last functions of proactor_net_kevent.c.
use tag_sim.Common.{
  ℕ, ◌+◌, ◌≤◌, ◌≡◌, refl, sym, ap, ◌∙◌, subst, Option, none, some, List, [], ◌∷◌, arith, ℤ, pos,
  negsuc, ==ℤ_refl, take, length, leb, append-nil, drop-all, Bool-cases, inl, inr,
}
use tag_sim.Channel.{Channel, here, next, transmit, finish}
use tag_sim.Kevent.Transfer.State.{
  write, read, perror, Request, SendRequest, Os, State, External, logged, Log,
}
use tag_sim.Kevent.Transfer.Handlers.{
  perform, handle_data_event, completed, release, finish_send, data_sent, write_pending,
  handle_write_event,
}
use tag_sim.Kevent.Transfer.Wire.{
  blocks, live, taken, left_of, under_way_of, view, Fits, Sound, WriteBounded, chunk, advance,
  split-order, advance-Fits, Plain-Sound, same-Sound,
}
use tag_sim.Machine.{pure, ◌>>◌, After, After-bind, Step}
use tag_sim.Kevent.Transfer.Keep.{Exits, completed-After, handle_data_event-After}
use tag_sim.Kevent.Transfer.Submit.{Pending, perform-Sound, perform-Pending}

-- What calls these functions: the application, or an event loop.
pub data Action : Type 0 where
  requested : Request → Action
  readable writable : ℤ → Action

unfoldable pub act : Os → External → Action → Step State (Unit {0})
act os ext (requested q) = perform os ext q
act os ext (readable fd) = handle_data_event os ext fd
act os ext (writable fd) = handle_write_event os ext fd

unfoldable pub act_all : Os → External → List Action → Step State (Unit {0})
unfolding act
act_all os ext [] = pure tt
act_all os ext (a ∷ rest) = act os ext a >> act_all os ext rest

-- Every `read` finds something.
abbrev pub Hears : Os → External → Type 0
Hears os ext =
    (log : Log) (fd : ℤ) → (n : ℕ) × (os.sys log (read fd ext.buffer_size) ≡ pos n) × (1 ≤ n)

module _ (os : Os) (ext : External) (exits : Exits ext) (c : Channel) where
  release-Sound :
      (r : SendRequest) (s : State)
      → Pending os ext exits c r s
      → left_of r ≡ []
      → After (Sound c) (release os ext s.current_send_request s)
  unfolding release
  release-Sound r s h over =
      subst (λ p. After (Sound c) (release os ext p s)) (sym h.0)
        (record {
          owned =
              let e = h.1.owned ∙ ap (λ o. some (blocks o)) h.0 in
              rw (e, ==ℤ_refl r.data_ptr, ==ℤ_refl r.block) refl;
          fits = tt;
          path = next h.1.path (finish (ap under_way_of h.0 ∙ ap some over));
        })

  finish_send-Sound :
      (fd : ℤ) (r : SendRequest) (s : State)
      → Pending os ext exits c r s
      → left_of r ≡ []
      → After (Sound c) (finish_send os ext fd s)
  unfolding finish_send
  finish_send-Sound fd r s h over =
      let cb = s.send_complete_callback in
      let user_data = s.send_complete_user_data in
      After-bind (Pending os ext exits c r) (Sound c) (completed os ext cb fd user_data s) _
        (completed-After os ext (Pending os ext exits c r)
          (λ call x t e k. (k.0, Plain-Sound c call x t e k.1)) (perform-Pending os ext exits c r)
          cb fd user_data s h)
        (λ _ t k. release-Sound r t k over)

  moved-Pending :
      (fd : ℤ) (r : SendRequest) (n : ℕ) (s : State)
      → n ≤ length (chunk r)
      → Pending os ext exits c r s
      → Pending os ext exits c (advance r n) (record (logged (write fd (chunk r)) (pos n) s) {
        current_send_request = some (advance r n);
      })
  moved-Pending fd r n s bound h =
      let f = subst Fits h.0 h.1.fits in
      (
        refl,
        record {
          owned = h.1.owned ∙ ap (λ o. some (blocks o)) h.0;
          fits = advance-Fits r n f bound;
          path = next h.1.path (
              transmit (take n (chunk r)) (left_of (advance r n))
                (ap under_way_of h.0 ∙ ap some (sym (split-order r n f))));
        },
      )

  data_sent-Sound :
      (fd : ℤ) (r : SendRequest) (n : ℤ) (s : State)
      → ((k : ℕ) → n ≡ pos k → k ≤ length (chunk r))
      → Pending os ext exits c r s
      → After (Sound c) (data_sent os ext fd r n (logged (write fd (chunk r)) n s))
  unfolding data_sent
  data_sent-Sound fd r (negsuc n) s bound h =
      let t = logged (write fd (chunk r)) (negsuc n) s in
      Plain-Sound c (perror "write") (pos 0) t tt
        (same-Sound c s t refl refl (append-nil (taken s.log)) refl h.1)
  data_sent-Sound fd r (pos n) s bound h =
      let k = moved-Pending fd r n s (bound n refl) h in
      let f = subst Fits h.0 h.1.fits in
      elim (Bool-cases (leb r.size (r.offset + n))) [
        | inl whole ↦ rw whole (
            finish_send-Sound fd (advance r n) _ k
              (drop-all (r.offset + n) r.content (ground (arith, f.0))))
        | inr part ↦ rw part k.1
      ]

  write_pending-Sound :
      (p : Option SendRequest) (fd : ℤ) (s : State)
      → WriteBounded os
      → s.current_send_request ≡ p
      → Sound c s
      → After (Sound c) (write_pending os ext p fd s)
  unfolding write_pending
  write_pending-Sound none fd s bounded e h = h
  write_pending-Sound (some r) fd s bounded e h =
      data_sent-Sound fd r (os.sys s.log (write fd (chunk r))) s (λ k. bounded s.log fd (chunk r) k)
        (e, h)

  handle_write_event-Sound :
      (fd : ℤ) (s : State)
      → WriteBounded os
      → Sound c s
      → After (Sound c) (handle_write_event os ext fd s)
  unfolding handle_write_event
  handle_write_event-Sound fd s bounded h =
      write_pending-Sound s.current_send_request fd s bounded refl h

  action-Sound :
      (a : Action) (s : State)
      → WriteBounded os
      → Hears os ext
      → Sound c s
      → After (Sound c) (act os ext a s)
  unfolding act
  action-Sound (requested q) s bounded hears h = perform-Sound os ext exits c q s h
  action-Sound (readable fd) s bounded hears h =
      let e = hears s.log fd in
      handle_data_event-After os ext (Sound c) (λ call r t k. Plain-Sound c call r t k)
        (perform-Sound os ext exits c) fd e.0 s e.1 (ground (arith, e.2)) h
  action-Sound (writable fd) s bounded hears h = handle_write_event-Sound fd s bounded h

  actions-Sound :
      (actions : List Action) (s : State)
      → WriteBounded os
      → Hears os ext
      → Sound c s
      → After (Sound c) (act_all os ext actions s)
  unfolding act_all
  actions-Sound [] s bounded hears h = h
  actions-Sound (a ∷ rest) s bounded hears h =
      After-bind (Sound c) (Sound c) (act os ext a s) _ (action-Sound a s bounded hears h)
        (λ _ t k. actions-Sound rest t bounded hears k)

-- Where `handle_error` ends the process, `write` takes no more than it is given and every `read` finds
-- something, any sequence of sends, setters, readable and writable events, with whatever the callbacks
-- do, never uses a null pointer and implements the channel: the bytes on their way move by the steps of
-- the channel, the offset stays within the request, and the blocks in use are again those of the
-- pending request.
pub act_all-Sound :
    (os : Os) (ext : External)
    → Exits ext
    → WriteBounded os
    → Hears os ext
    → (actions : List Action) (s : State) → live s.log ≡ some (blocks s.current_send_request)
    → Fits s.current_send_request
    → After (Sound (view s)) (act_all os ext actions s)
act_all-Sound os ext exits bounded hears actions s owned fits =
    actions-Sound os ext exits (view s) actions s bounded hears
      (record { owned = owned; fits = fits; path = here })
