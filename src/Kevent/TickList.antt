-- ===== src/Kevent/TickList.antt =====
-- The walk over a list of sockets that gives each its tick.
use tag_sim.Common.{
  ℕ, zero, suc, ◌<◌, ◌≡◌, refl, sym, ap, ◌∙◌, Option, none, some, List, [], ◌∷◌, ◌++◌, append_assoc,
  append-nil, ℤ, pos, length, arith,
}
use tag_sim.Machine.{Returned-both, Returned, Returned-bind, Returned-map}
use tag_sim.Status.Codes.{Status}
use tag_sim.Kevent.State.{Socket, Os, State, Log, on_tick, Request}
use tag_sim.Kevent.Lifecycle.{perform_all, upcall}
use tag_sim.Kevent.Loop.{tick_socket, tick_sockets}
use tag_sim.Kevent.Sockets.{Same, perform_all-Same, perform_all-Unseen, logged}
use tag_sim.Kevent.Chain.{Cells, Chain, end, link}

-- The sockets that got a tick, in order, with the callback that was called.
abbrev pub ticked : Log → List (ℤ × ℕ)
ticked [] = []
ticked ((on_tick cb p status sock_data app_data, r) ∷ log) = ticked log ++ ((p, cb) ∷ [])
ticked (_ ∷ log) = ticked log

abbrev pub ticker : ℤ → Option ℕ → List (ℤ × ℕ)
ticker p none = []
ticker p (some cb) = (p, cb) ∷ []

-- The sockets that have a callback for ticks.
abbrev pub tickers : Cells → List (ℤ × ℕ)
tickers [] = []
tickers ((p, c) ∷ xs) = ticker p c.tick_cb ++ tickers xs

-- The same sockets, and the ticks `more` since then.
abbrev pub Ticked : List (ℤ × ℕ) → State → State → Type 0
Ticked more s t = (t.heap ≡ s.heap) × (ticked t.log ≡ ticked s.log ++ more)

-- What an application's requests leave alone.
abbrev pub Quiet : State → State → Type 0
Quiet s t = (t.heap ≡ s.heap) × (ticked t.log ≡ ticked s.log)

module _ (os : Os) (proactor : ℤ) where
  pub perform_all-Quiet :
      (qs : List Request) (s : State) → Returned (λ _ t. Quiet s t) (perform_all os proactor qs s)
  perform_all-Quiet qs s =
      Returned-map (λ _ t. Same s t × (ticked t.log ≡ ticked s.log)) (λ _ t. Quiet s t)
        (perform_all os proactor qs s) (λ _ t h. (h.0.heap, h.1))
        (Returned-both (λ _ t. Same s t) _ (perform_all os proactor qs s)
          (perform_all-Same os proactor qs s)
          (perform_all-Unseen os proactor ticked (λ fd bytes r log. refl) qs s))

  tick_socket-Ticked :
      (p : ℤ) (c : Socket) (cb : Option ℕ) (s : State)
      → Returned (λ _ t. Ticked (ticker p cb) s t) (tick_socket os proactor p c cb s)
  unfolding tick_socket upcall
  tick_socket-Ticked p c none s = (refl, sym (append-nil (ticked s.log)))
  tick_socket-Ticked p c (some cb) s =
      let t = logged (on_tick cb p Status.ok c.sock_data s.proactor.app_data) (pos 0) s in
      Returned-map (λ _ u. Quiet t u) (λ _ u. Ticked ((p, cb) ∷ []) s u)
        (perform_all os proactor (os.app t.log) t) (λ _ u k. k) (perform_all-Quiet (os.app t.log) t)

  -- From the head of a chain `xs` of sockets, and with more fuel than sockets, the walk ends: each
  -- socket that has a callback for ticks gets one tick, in the order of the chain, and no other does,
  -- whatever the callbacks request.
  pub tick_sockets-Ticked :
      (fuel : ℕ) {p : ℤ} {xs : Cells} (s : State)
      → Chain s.heap p xs
      → length xs < fuel
      → Returned (λ _ t. Ticked (tickers xs) s t) (tick_sockets os fuel proactor p s)
  unfolding tick_sockets
  tick_sockets-Ticked zero s chain enough = absurd (omega arith)
  tick_sockets-Ticked (suc fuel) s (end e) enough = rw e (refl, sym (append-nil (ticked s.log)))
  tick_sockets-Ticked (suc fuel) s (link {p} {q} {c} {xs} ne at nx out rest) enough =
      simp (ne, at)
        (Returned-bind (λ _ t. Ticked (ticker p c.tick_cb) s t)
          (λ _ t. Ticked (tickers ((p, c) ∷ xs)) s t) (tick_socket os proactor p c c.tick_cb s) _
          (tick_socket-Ticked p c c.tick_cb s)
          (λ _ t h.
            let at' : t.heap p ≡ some c = ap (λ f. f p) h.0 ∙ at in
            simp (ne, at')
              (Returned-map (λ _ u. Ticked (tickers xs) t u)
                (λ _ u. Ticked (tickers ((p, c) ∷ xs)) s u) (tick_sockets os fuel proactor c.next t)
                (λ _ u k. (
                  k.0 ∙ h.0,
                  k.1
                      ∙ ap (λ l. l ++ tickers xs) h.1
                      ∙ append_assoc (ticked s.log) (ticker p c.tick_cb) (tickers xs),
                ))
                (tick_sockets-Ticked fuel {xs = xs} t (rw (nx, h.0) rest) (omega arith)))))
