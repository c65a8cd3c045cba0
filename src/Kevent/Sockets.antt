-- ===== src/Kevent/Sockets.antt =====
-- What the application's requests leave alone: the sockets, and which descriptors were closed and
-- which blocks were freed.
use tag_sim.Common.{
  ℕ, ◌∙◌, ◌==ℤ◌, Bool-cases, inl, inr, ◌≡◌, refl, List, [], ◌∷◌, ◌++◌, ℤ, pos, arith,
}
use tag_sim.Machine.{Returned-bind, Returned-map, Returned}
use tag_sim.Kevent.State.{
  write, null, Call, Log, close, free, Request, stop_request, wake_request, Os, State,
}
use tag_sim.Kevent.Lifecycle.{wake, perform, perform_all, upcall, stop}

-- The descriptors closed and the blocks freed, in order.
abbrev pub closes : Log → List ℤ
closes [] = []
closes ((close fd, r) ∷ log) = closes log ++ (fd ∷ [])
closes (_ ∷ log) = closes log

abbrev pub frees : Log → List ℤ
frees [] = []
frees ((free p, r) ∷ log) = frees log ++ (p ∷ [])
frees (_ ∷ log) = frees log

-- `t` differs from `s` by calls that close and free nothing, and perhaps by a stop.
pub record Same (s t : State) : Type 0 where
  pub heap : t.heap ≡ s.heap
  pub proactor : t.proactor ≡ record s.proactor { stop = t.proactor.stop }
  pub closed : closes t.log ≡ closes s.log
  pub freed : frees t.log ≡ frees s.log

pub Same-refl : (s : State) → Same s s
Same-refl s = record { heap = refl; proactor = refl; closed = refl; freed = refl }

pub Same-trans : {s t u : State} → Same s t → Same t u → Same s u
Same-trans h k = ground arith

-- The calls that close and free nothing.
abbrev pub Silent : Call → Type 0
Silent (close fd) = ⊥
Silent (free p) = ⊥
Silent _ = Unit {0}

abbrev pub logged : Call → ℤ → State → State
logged c r s = record s { log = (c, r) ∷ s.log }

pub Silent-Same : (c : Call) (r : ℤ) (s : State) → Silent c → Same s (logged c r s)
Silent-Same (close fd) r s e = absurd e
Silent-Same (free p) r s e = absurd e
Silent-Same _ r s e = record { heap = refl; proactor = refl; closed = refl; freed = refl }

module _ (os : Os) (proactor : ℤ) where
  pub stop-Same : (s : State) → Returned (λ _ t. Same s t) (stop os proactor s)
  unfolding stop
  stop-Same s = ground arith

  perform-Same : (q : Request) (s : State) → Returned (λ _ t. Same s t) (perform os proactor q s)
  unfolding perform
  perform-Same stop_request s = ground arith
  perform-Same wake_request s = ground arith

  pub perform_all-Same :
      (qs : List Request) (s : State) → Returned (λ _ t. Same s t) (perform_all os proactor qs s)
  unfolding perform_all
  perform_all-Same [] s = Same-refl s
  perform_all-Same (q ∷ qs) s =
      Returned-bind (λ _ t. Same s t) (λ _ t. Same s t) (perform os proactor q s) _
        (perform-Same q s)
        (λ _ t h.
          Returned-map (λ _ u. Same t u) (λ _ u. Same s u) (perform_all os proactor qs t)
            (λ _ u k. Same-trans h k) (perform_all-Same qs t))

  -- A callback leaves the sockets and the proactor's settings alone.
  pub upcall-Same :
      (c : Call) (s : State) → Silent c → Returned (λ _ t. Same s t) (upcall os proactor c s)
  unfolding upcall
  upcall-Same c s e =
      let s' = logged c (pos 0) s in
      Returned-map (λ _ u. Same s' u) (λ _ u. Same s u) (perform_all os proactor (os.app s'.log) s')
        (λ _ u k. Same-trans (Silent-Same c (pos 0) s e) k) (perform_all-Same (os.app s'.log) s')

-- What a request leaves of the log, for a view that does not see the calls of `write`.
module _ (os : Os) (proactor : ℤ) {X : Type 0} (f : Log → X)
    (blind : (fd : ℤ) (bytes : List ℕ) (r : ℤ) (log : Log)
      → f ((write fd bytes, r) ∷ log) ≡ f log) where
  abbrev Unseen : State → State → Type 0
  Unseen s t = f t.log ≡ f s.log

  pub perform-Unseen :
      (q : Request) (s : State) → Returned (λ _ t. Unseen s t) (perform os proactor q s)
  unfolding perform stop wake
  perform-Unseen stop_request s = elim (Bool-cases (proactor ==ℤ null)) [
    | inl none_given ↦ rw none_given refl
    | inr given ↦ rw given (blind _ _ _ s.log)
  ]
  perform-Unseen wake_request s = elim (Bool-cases (proactor ==ℤ null)) [
    | inl none_given ↦ rw none_given refl
    | inr given ↦ rw given (blind _ _ _ s.log)
  ]

  pub perform_all-Unseen :
      (qs : List Request) (s : State)
      → Returned (λ _ t. f t.log ≡ f s.log) (perform_all os proactor qs s)
  unfolding perform_all
  perform_all-Unseen [] s = refl
  perform_all-Unseen (q ∷ qs) s =
      Returned-bind (λ _ t. Unseen s t) (λ _ t. Unseen s t) (perform os proactor q s) _
        (perform-Unseen q s)
        (λ _ t h.
          Returned-map (λ _ u. Unseen t u) (λ _ u. Unseen s u) (perform_all os proactor qs t)
            (λ _ u k. k ∙ h) (perform_all-Unseen qs t))
