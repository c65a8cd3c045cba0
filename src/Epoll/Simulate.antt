-- ===== src/Epoll/Simulate.antt =====
-- The channel that a state of the event loop stands for, and what the requests of the application
-- and the calls that are only logged do to it.
use tag_sim.Common.{
  ℕ, ◌≤◌, ◌≡◌, refl, sym, ap, ◌∙◌, subst, true, Option, none, some, ◌∷◌, arith, ℤ, pos, ◌==ℤ◌,
  ==ℤ_refl, length, leb, Bool-cases, inl, inr,
}
use tag_sim.Epoll.State.{
  need, Bytes, malloc, memcpy, epoll_ctl, modify, epollout, Call, Request, Os, SendRequest, State,
  fails,
}
use tag_sim.Epoll.Api.{perform, send_when, start_send, null}
use tag_sim.Epoll.Keep.{Plain, logged}
use tag_sim.Epoll.Wire.{taken, submitted, left_of, Fits, Plain-taken, Plain-submitted}
use tag_sim.Channel.{Channel, Reach, next, submit}
use tag_sim.Machine.{pure, ◌>>=◌, After, After-bind, After-map}

abbrev pub under_way_of : Option SendRequest → Option Bytes
under_way_of none = none
under_way_of (some r) = some (left_of r)

-- The channel that a state stands for.
abbrev pub view : ℤ → State → Channel
view w s = record {
  submitted = submitted s.log;
  sent = taken w s.log;
  under_way = under_way_of s.current_send_request;
}

-- `w` is the writing end of the wake pipe, and the channel `c` can come to be the one that the state
-- stands for.
pub record Simulates (c : Channel) (w : ℤ) (s : State) : Type 0 where
  pub pipe : s.wakeup_write ≡ w
  pub fits : Fits s.current_send_request
  pub path : Reach c (view w s)

-- What a request other than an accepted send leaves as it is.
abbrev pub SameWire : ℤ → State → State → Type 0
SameWire w s t =
    (t.wakeup_write ≡ s.wakeup_write)
    × (t.current_send_request ≡ s.current_send_request)
    × (taken w t.log ≡ taken w s.log)
    × (submitted t.log ≡ submitted s.log)

-- A send is refused, as one is pending.
abbrev pub Refused : Request → State → Type 0
Refused (Request.send fd bytes) s = (r : SendRequest) × (s.current_send_request ≡ some r)
Refused _ s = Unit {0}

pub le_of_leb : (a b : ℕ) {c : ℕ} → leb a b ≡ true → a ≡ c → c ≤ b
le_of_leb a b h e = ground arith

module _ (os : Os) (w : ℤ) (c : Channel) where
  abbrev pub Sim : State → Type 0
  Sim = Simulates c w

  pub SameWire-Sim : (s t : State) → Sim s → SameWire w s t → Sim t
  SameWire-Sim s t h k = record {
    pipe = k.0 ∙ h.pipe;
    fits = subst Fits (sym k.1) h.fits;
    path = subst (Reach c) (let e : view w s ≡ view w t = ground arith in e) h.path;
  }

  perform-SameWire :
      (q : Request) (s : State)
      → s.wakeup_write ≡ w
      → Refused q s
      → After (SameWire w s) (perform os q s)
  unfolding perform
  perform-SameWire (Request.send fd bytes) s h e = ground (arith, e.1)
  perform-SameWire Request.stop s h e = ground (arith, ==ℤ_refl w)
  perform-SameWire _ s h e = ground (arith, ==ℤ_refl w)

  busy-Refused :
      (q : Request) (r : SendRequest) (s : State) → s.current_send_request ≡ some r → Refused q s
  busy-Refused (Request.send fd bytes) r s e = (r, e)
  busy-Refused _ r s e = tt

  quiet : (q : Request) (s : State) → Refused q s → Sim s → After Sim (perform os q s)
  quiet q s e h =
      After-map (SameWire w s) Sim (perform os q s) (λ t k. SameWire-Sim s t h k)
        (perform-SameWire q s h.pipe e)

  -- The state once the request is made, and after its socket is registered.
  abbrev requested : Bytes → ℤ → ℤ → State → State
  requested bytes block data_ptr s = record s {
    current_send_request = some (record {
      block = block;
      data_ptr = data_ptr;
      content = bytes;
      size = length bytes;
      offset = 0;
    });
    log =
        (memcpy data_ptr bytes, pos 0)
        ∷ (malloc (length bytes), data_ptr)
        ∷ (malloc 32, block)
        ∷ s.log;
  }

  abbrev started : Bytes → ℤ → ℤ → ℤ → ℤ → State → State
  started bytes block data_ptr fd r s =
      logged (epoll_ctl s.epoll_fd modify fd epollout) r (requested bytes block data_ptr s)

  registered-After :
      (P : State → Type 0) (fd : ℤ) (bytes : Bytes) (block data_ptr : ℤ) (s : State)
      → ((block data_ptr r : ℤ) → P (started bytes block data_ptr fd r s))
      → After P (
          (need os (epoll_ctl s.epoll_fd modify fd epollout) "epoll_ctl" >>= λ _.
          pure {A = ℤ} (pos 0))
            (requested bytes block data_ptr s))
  registered-After P fd bytes block data_ptr s h =
      let r =
        os.sys (requested bytes block data_ptr s).log (epoll_ctl s.epoll_fd modify fd epollout) in
      elim (Bool-cases (fails r)) [
        | inl failed ↦ rw failed tt
        | inr passed ↦ rw passed (h block data_ptr r)
      ]

  start_send-After :
      (P : State → Type 0) (fd : ℤ) (bytes : Bytes) (s : State)
      → ((block data_ptr r : ℤ) → P (started bytes block data_ptr fd r s))
      → After P (start_send os fd bytes s)
  unfolding start_send
  start_send-After P fd bytes s h =
      let block = os.sys s.log (malloc 32) in
      let data_ptr = os.sys ((malloc 32, block) ∷ s.log) (malloc (length bytes)) in
      elim (Bool-cases (block ==ℤ null)) [
        | inl full ↦ rw full tt
        | inr room ↦ rw room (elim (Bool-cases (data_ptr ==ℤ null)) [
          | inl full ↦ rw full tt
          | inr room ↦ rw room (registered-After P fd bytes block data_ptr s h)
        ])
      ]

  submit-Sim :
      (fd : ℤ) (bytes : Bytes) (s : State)
      → s.current_send_request ≡ none
      → Sim s
      → (block data_ptr r : ℤ) → Sim (started bytes block data_ptr fd r s)
  submit-Sim fd bytes s idle h block data_ptr r = record {
    pipe = h.pipe;
    fits = (refl, omega arith);
    path = next h.path (submit bytes (ap under_way_of idle));
  }

  send_when-Sim :
      (p : Option SendRequest) (fd : ℤ) (bytes : Bytes) (s : State)
      → s.current_send_request ≡ p
      → Sim s
      → After Sim (send_when os p fd bytes s)
  unfolding send_when
  send_when-Sim (some r) fd bytes s e h = h
  send_when-Sim none fd bytes s e h = start_send-After Sim fd bytes s (submit-Sim fd bytes s e h)

  pub perform-Sim : (q : Request) (s : State) → Sim s → After Sim (perform os q s)
  unfolding perform
  perform-Sim (Request.send fd bytes) s h =
      After-bind Sim Sim (send_when os s.current_send_request fd bytes s) _
        (send_when-Sim s.current_send_request fd bytes s refl h) (λ _ t k. k)
  perform-Sim Request.stop s h = quiet Request.stop s tt h
  perform-Sim Request.wake s h = quiet Request.wake s tt h
  perform-Sim (Request.set_receive_callback cb d) s h =
      quiet (Request.set_receive_callback cb d) s tt h
  perform-Sim (Request.set_send_complete_callback cb d) s h =
      quiet (Request.set_send_complete_callback cb d) s tt h
  perform-Sim (Request.set_accept_callback cb d) s h =
      quiet (Request.set_accept_callback cb d) s tt h

  abbrev pub Sending : SendRequest → State → Type 0
  Sending r s = (s.current_send_request ≡ some r) × Sim s

  pub perform-Sending :
      (r : SendRequest) (q : Request) (s : State) → Sending r s → After (Sending r) (perform os q s)
  perform-Sending r q s h =
      After-map (SameWire w s) (Sending r) (perform os q s)
        (λ t k. (k.1 ∙ h.0, SameWire-Sim s t h.1 k))
        (perform-SameWire q s h.1.pipe (busy-Refused q r s h.0))

  pub Plain-Sim : (call : Call) (r : ℤ) (s : State) → Plain call → Sim s → Sim (logged call r s)
  Plain-Sim call r s e h =
      SameWire-Sim s (logged call r s) h
        (refl, refl, Plain-taken w call r s.log e, Plain-submitted call r s.log e)
