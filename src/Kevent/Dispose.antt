-- ===== src/Kevent/Dispose.antt =====
-- `proactor_net_dispose` over a well-formed list of sockets.
use tag_sim.Common.{
  inr, inl, Bool-cases, ℕ, zero, suc, ◌<◌, ◌≡◌, refl, sym, ap, ◌∙◌, false, not, Option, none, some,
  List, [], ◌∷◌, ◌++◌, append_assoc, append-nil, ℤ, pos, ◌==ℤ◌, if◌then◌else◌, length, arith,
}
use tag_sim.Machine.{◌>>◌, Run, Returned, Returned-bind, Returned-map}
use tag_sim.Status.Codes.{Status}
use tag_sim.Kevent.State.{
  dispose_event, on_event, note, null, Socket, Proactor, Os, State, close, free, on_close,
  invalid_socket, update,
}
use tag_sim.Kevent.Lifecycle.{tell_closed, close_sockets, close_pipe, tell_dispose, dispose, stop}
use tag_sim.Kevent.Sockets.{
  closes, frees, Same, Same-refl, Same-trans, upcall-Same, stop-Same, logged,
}
use tag_sim.Kevent.Chain.{Cells, has, Chain, end, link, addresses, descriptors, Chain-frame, spared}

-- All the sockets `xs` are closed and freed, in order; the rest is as it was.
pub record Emptied (xs : Cells) (s t : State) : Type 0 where
  pub closed : closes t.log ≡ closes s.log ++ descriptors xs
  pub freed : frees t.log ≡ frees s.log ++ addresses xs
  pub heap : (q : ℤ) → t.heap q ≡ (if has q xs then none else s.heap q)
  pub proactor : t.proactor ≡ record s.proactor { stop = t.proactor.stop }

abbrev pipe_ends : Proactor → List ℤ
pipe_ends p = if p.wakeup_read ==ℤ invalid_socket then [] else p.wakeup_read ∷ p.wakeup_write ∷ []

abbrev pub last_closed : Proactor → List ℤ
last_closed p = pipe_ends p ++ (p.kq ∷ [])

-- All that a disposal closes and frees.
pub record Disposed (xs : Cells) (s t : State) : Type 0 where
  pub closed : closes t.log ≡ closes s.log ++ (descriptors xs ++ last_closed s.proactor)
  pub freed : frees t.log ≡ frees s.log ++ addresses xs
  pub heap : (q : ℤ) → t.heap q ≡ (if has q xs then none else s.heap q)

module _ (os : Os) (proactor : ℤ) where
  tell_closed-Same :
      (cb : Option ℕ) (c : Socket) (s : State)
      → Returned (λ _ t. Same s t) (tell_closed os proactor cb c s)
  unfolding tell_closed
  tell_closed-Same none c s = Same-refl s
  tell_closed-Same (some cb) c s =
      upcall-Same os proactor (on_close cb (os.handle c.sock) c.status c.sock_data) s tt

  -- The state after the socket at `p` is closed and freed.
  abbrev dropped : ℤ → Socket → State → State
  dropped p c s = record (logged (free p) (pos 0) (logged (close c.sock) (pos 0) s)) {
    heap = update s.heap p none;
  }

  Emptied-cons :
      (p : ℤ) (c : Socket) (xs : Cells) {s t u : State}
      → Same s t
      → Emptied xs (dropped p c t) u
      → Emptied ((p, c) ∷ xs) s u
  Emptied-cons p c xs {s} {t} h k = record {
    closed =
        k.closed
        ∙ append_assoc (closes t.log) (c.sock ∷ []) (descriptors xs)
        ∙ ap (λ l. l ++ (c.sock ∷ descriptors xs)) h.closed;
    freed =
        k.freed
        ∙ append_assoc (frees t.log) (p ∷ []) (addresses xs)
        ∙ ap (λ l. l ++ (p ∷ addresses xs)) h.freed;
    heap = λ q. ground (arith, k.heap q, ap (λ f. f q) h.heap);
    proactor = ground arith;
  }

  pub close_sockets-Emptied :
      (fuel : ℕ) {p : ℤ} {xs : Cells} (s : State)
      → Chain s.heap p xs
      → length xs < fuel
      → Returned (λ _ t. Emptied xs s t) (close_sockets os fuel proactor p s)
  unfolding close_sockets
  close_sockets-Emptied zero s chain enough = absurd (omega arith)
  close_sockets-Emptied (suc fuel) s (end e) enough = rw e (record {
    closed = sym (append-nil _);
    freed = sym (append-nil _);
    heap = λ q. refl;
    proactor = refl;
  })
  close_sockets-Emptied (suc fuel) s (link {p} {c} {xs} ne at nx out rest) enough =
      simp (ne, at)
        (Returned-bind (λ _ t. Same s t) (λ _ t. Emptied ((p, c) ∷ xs) s t)
          (tell_closed os proactor c.close_cb c s) _ (tell_closed-Same c.close_cb c s)
          (λ _ t h.
            let t' = dropped p c t in
            Returned-map (λ _ u. Emptied xs t' u) (λ _ u. Emptied ((p, c) ∷ xs) s u)
              (close_sockets os fuel proactor c.next t') (λ _ u k. Emptied-cons p c xs h k)
              (close_sockets-Emptied fuel t'
                (rw nx (
                  Chain-frame rest (λ q m. spared t.heap p q xs none out m ∙ ap (λ f. f q) h.heap)))
                (omega arith))))

  tell_dispose-Same :
      (cb : Option ℕ) (status : Status) (app_data : ℕ) (s : State)
      → Returned (λ _ t. Same s t) (tell_dispose os proactor cb status app_data s)
  unfolding tell_dispose
  tell_dispose-Same none status app_data s = Same-refl s
  tell_dispose-Same (some cb) status app_data s =
      upcall-Same os proactor (on_event cb dispose_event status app_data) s tt

  -- The last part of a disposal: the pipe's ends and the queue.
  record Shut (s t : State) : Type 0 where
    pub closed : closes t.log ≡ closes s.log ++ last_closed s.proactor
    pub freed : frees t.log ≡ frees s.log
    pub heap : t.heap ≡ s.heap

  close_rest : State → Run State (Unit {0})
  unfolding close_pipe
  close_rest s =
      let p = s.proactor in
      (close_pipe os (not (p.wakeup_read ==ℤ invalid_socket)) p.wakeup_read p.wakeup_write
          >> note (close p.kq))
        s

  close_rest-Shut : (s : State) → Returned (λ _ t. Shut s t) (close_rest s)
  unfolding close_rest
  close_rest-Shut s = elim (Bool-cases (s.proactor.wakeup_read ==ℤ invalid_socket)) [
    | inl shut ↦ simp (shut) (record { closed = rw shut refl; freed = refl; heap = refl })
    | inr opened ↦ simp (opened) (record {
      closed = rw opened (
          append_assoc _ (s.proactor.wakeup_write ∷ []) (s.proactor.kq ∷ [])
          ∙ append_assoc _ (s.proactor.wakeup_read ∷ []) _);
      freed = refl;
      heap = refl;
    })
  ]

  Disposed-trans :
      (xs : Cells) {s t u v : State} → Same s t → Emptied xs t u → Shut u v → Disposed xs s v
  Disposed-trans xs {s} {t} {u} {v} h k l = record {
    closed =
        l.closed
        ∙ ap (λ r. closes u.log ++ r) (ap last_closed k.proactor ∙ ap last_closed h.proactor)
        ∙ ap (λ r. r ++ last_closed s.proactor) (k.closed ∙ ap (λ r. r ++ descriptors xs) h.closed)
        ∙ append_assoc (closes s.log) (descriptors xs) (last_closed s.proactor);
    freed = l.freed ∙ k.freed ∙ ap (λ l. l ++ addresses xs) h.freed;
    heap = λ q. ground (arith, k.heap q, ap (λ f. f q) h.heap, ap (λ f. f q) l.heap);
  }

  -- A proactor whose sockets form a chain `xs` is disposed of, with more fuel than sockets: whatever
  -- the callbacks request, each socket's descriptor is closed and its memory freed, once and in the
  -- order of the chain, then both ends of the wake pipe if it is open, then the queue; nothing else is
  -- closed or freed, and no other socket is touched.
  pub dispose-Disposed :
      (fuel : ℕ) (xs : Cells) (s : State)
      → (proactor ==ℤ null) ≡ false
      → Chain s.heap s.proactor.sockets xs
      → length xs < fuel
      → Returned (λ _ t. Disposed xs s t) (dispose os fuel proactor s)
  unfolding dispose close_rest
  dispose-Disposed fuel xs s given chain enough = rw given (
      Returned-bind (λ _ t. Same s t) (λ _ t. Disposed xs s t) (stop os proactor s) _
        (stop-Same os proactor s)
        (λ _ t h.
          Returned-bind (λ _ u. Same s u) (λ _ u. Disposed xs s u)
            (tell_dispose os proactor t.proactor.event_cb t.proactor.proactor_status
              t.proactor.app_data t)
            _
            (Returned-map (λ _ u. Same t u) (λ _ u. Same s u) _ (λ _ u k. Same-trans h k)
              (tell_dispose-Same t.proactor.event_cb t.proactor.proactor_status t.proactor.app_data
                t))
            (λ _ u k.
              Returned-bind (λ _ v. Emptied xs u v) (λ _ v. Disposed xs s v)
                (close_sockets os fuel proactor u.proactor.sockets u) _
                (close_sockets-Emptied fuel u
                  (rw (ap (λ p. p.sockets) k.proactor)
                    (Chain-frame chain (λ q m. ap (λ f. f q) k.heap)))
                  enough)
                (λ _ v l.
                  Returned-map (λ _ w. Shut v w) (λ _ w. Disposed xs s w) (close_rest v)
                    (λ _ w m. Disposed-trans xs k l m) (close_rest-Shut v)))))
