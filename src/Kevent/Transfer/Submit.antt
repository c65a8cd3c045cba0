-- ===== src/Kevent/Transfer/Submit.antt =====
-- The requests of the application to the last functions of proactor_net_kevent.c.
use tag_sim.Common.{false, ◌≡◌, refl, sym, ap, ◌∙◌, subst, Option, none, some, arith, ℤ, ◌==ℤ◌}
use tag_sim.Channel.{Channel, next, submit}
use tag_sim.Kevent.State.{null}
use tag_sim.Kevent.Transfer.State.{Bytes, Request, SendRequest, Os, State, External}
use tag_sim.Kevent.Transfer.Handlers.{start_send, send_when, perform}
use tag_sim.Kevent.Transfer.Wire.{blocks, under_way_of, Sound, Plain-Sound, same-Sound}
use tag_sim.Machine.{pure, ◌>>=◌, After, After-bind}
use tag_sim.Kevent.Transfer.Keep.{Exits, start_send-After, requested_state, watching}

module _ (os : Os) (ext : External) (exits : Exits ext) (c : Channel) where
  -- The request of a state is `r`.
  abbrev pub Pending : SendRequest → State → Type 0
  Pending r s = (s.current_send_request ≡ some r) × Sound c s

  requested-Sound :
      (bytes : Bytes) (block data_ptr : ℤ) (s : State)
      → s.current_send_request ≡ none
      → (block ==ℤ null) ≡ false
      → (data_ptr ==ℤ null) ≡ false
      → Sound c s
      → Sound c (requested_state os ext exits bytes block data_ptr s)
  requested-Sound bytes block data_ptr s idle made copied h = record {
    owned = let e = h.owned ∙ ap (λ o. some (blocks o)) idle in rw (e, made, copied) refl;
    fits = (refl, omega arith);
    path = next h.path (submit bytes (ap under_way_of idle));
  }

  start_send-Sound :
      (fd : ℤ) (bytes : Bytes) (s : State)
      → s.current_send_request ≡ none
      → Sound c s
      → After (Sound c) (start_send os ext fd bytes s)
  start_send-Sound fd bytes s idle h =
      start_send-After os ext exits (Sound c) fd bytes s (λ block data_ptr r made copied.
        Plain-Sound c (watching os ext exits fd s) r
          (requested_state os ext exits bytes block data_ptr s) tt
          (requested-Sound bytes block data_ptr s idle made copied h))

  send_when-Sound :
      (p : Option SendRequest) (fd : ℤ) (bytes : Bytes) (s : State)
      → s.current_send_request ≡ p
      → Sound c s
      → After (Sound c) (send_when os ext p fd bytes s)
  unfolding send_when
  send_when-Sound (some r) fd bytes s e h = h
  send_when-Sound none fd bytes s e h = start_send-Sound fd bytes s e h

  pub perform-Sound : (q : Request) (s : State) → Sound c s → After (Sound c) (perform os ext q s)
  unfolding perform
  perform-Sound (Request.send fd bytes) s h =
      After-bind (Sound c) (Sound c) (send_when os ext s.current_send_request fd bytes s) _
        (send_when-Sound s.current_send_request fd bytes s refl h) (λ _ t k. k)
  perform-Sound (Request.set_receive_callback cb d) s h = same-Sound c s _ refl refl refl refl h
  perform-Sound (Request.set_send_complete_callback cb d) s h =
      same-Sound c s _ refl refl refl refl h
  perform-Sound (Request.set_accept_callback cb d) s h = same-Sound c s _ refl refl refl refl h

  -- While a request is pending, a send is refused.
  pub perform-Pending :
      (r : SendRequest) (q : Request) (s : State)
      → Pending r s
      → After (Pending r) (perform os ext q s)
  unfolding perform
  perform-Pending r (Request.send fd bytes) s h =
      subst (λ p. After (Pending r) ((send_when os ext p fd bytes >>= λ _. pure tt) s)) (sym h.0) h
  perform-Pending r (Request.set_receive_callback cb d) s h =
      (h.0, same-Sound c s _ refl refl refl refl h.1)
  perform-Pending r (Request.set_send_complete_callback cb d) s h =
      (h.0, same-Sound c s _ refl refl refl refl h.1)
  perform-Pending r (Request.set_accept_callback cb d) s h =
      (h.0, same-Sound c s _ refl refl refl refl h.1)
