-- ===== src/Kevent/Life.antt =====
-- A proactor from its creation to its disposal.
use tag_sim.Common.{
  ℕ, suc, ◌≡◌, refl, ◌∙◌, false, ◌||◌, Option, List, [], ◌∷◌, ◌++◌, append-nil, ℤ, ◌==ℤ◌, minus_one,
  if◌then◌else◌, arith, inl, inr, Bool-cases,
}
use tag_sim.Machine.{Returned, Returned-map, Every, Every-map}
use tag_sim.Kevent.State.{null, invalid_socket, Os, State, Log, calloc}
use tag_sim.Kevent.Lifecycle.{create, open_queue, open_wake_pipe, fresh, dispose}
use tag_sim.Kevent.Loop.{run}
use tag_sim.Kevent.Sockets.{closes, frees}
use tag_sim.Kevent.Chain.{end}
use tag_sim.Kevent.Dispose.{last_closed}
use tag_sim.Kevent.Listed.{run_then_dispose, ListClosed}
use tag_sim.Kevent.Create.{after_queue, queue_of, piped}

-- `pipe` stores a descriptor.
abbrev pub Pipes : Os → Type 0
Pipes os = (log : Log) → ((os.pipe_fds log).0 ==ℤ invalid_socket) ≡ false

module _ (os : Os) where
  -- What a creation that begins with the calls `log` made opens: both ends of a pipe, unless `kqueue` or
  -- `pipe` fails, and the queue, which is -1 if `kqueue` fails.
  abbrev pub opened : Log → List ℤ
  opened log =
      let fds = os.pipe_fds (after_queue os log) in
      if (queue_of os log ==ℤ minus_one) || (piped os log ==ℤ minus_one)
      then queue_of os log ∷ []
      else fds.0 ∷ fds.1 ∷ queue_of os log ∷ []

  record Empty (s : State) (p : ℤ) (t : State) : Type 0 where
    address : p ≡ os.sys s.log calloc
    sockets : t.proactor.sockets ≡ null
    ends : last_closed t.proactor ≡ opened s.log
    closed : closes t.log ≡ closes s.log
    freed : frees t.log ≡ frees s.log

  create-Empty :
      (event_cb : Option ℕ) (sock_data app_data period : ℕ) (s : State)
      → (os.sys s.log calloc ==ℤ null) ≡ false
      → Pipes os
      → Returned (Empty s) (create os event_cb sock_data app_data period s)
  unfolding create open_queue open_wake_pipe fresh
  create-Empty event_cb sock_data app_data period s got pipes =
      let log = s.log in
      elim (Bool-cases (queue_of os log ==ℤ minus_one)) [
        | inl e ↦
            simp (got, e)
              (record {
                address = refl;
                sockets = refl;
                ends = rw e refl;
                closed = refl;
                freed = refl;
              })
        | inr e ↦ elim (Bool-cases (piped os log ==ℤ minus_one)) [
          | inl f ↦
              simp (got, e, f)
                (record {
                  address = refl;
                  sockets = refl;
                  ends = rw (e, f) refl;
                  closed = refl;
                  freed = refl;
                })
          | inr f ↦
              simp (got, e, f)
                (record {
                  address = refl;
                  sockets = refl;
                  ends = rw (e, f, pipes (after_queue os log)) refl;
                  closed = refl;
                  freed = refl;
                })
        ]
      ]

  -- With memory, and a `pipe` that stores a descriptor: a proactor that is created, run and disposed of.
  -- Whatever fails in the creation, whatever the loop does and however it ends, the disposal returns, and
  -- what was closed since the creation began is just what the creation opened: both ends of the pipe, if
  -- it was made, and then the queue, which is -1 if there is none. No block was freed: neither that of
  -- the proactor nor those of the connections that the loop accepted.
  pub proactor_life :
      (event_cb : Option ℕ) (sock_data app_data period rounds fuel : ℕ) (s : State)
      → (os.sys s.log calloc ==ℤ null) ≡ false
      → Pipes os
      → Returned
          (λ p t.
            Every
              (λ u.
                Returned
                  (λ _ v.
                    (closes v.log ≡ closes s.log ++ opened s.log) × (frees v.log ≡ frees s.log))
                  (dispose os (suc fuel) p u))
              (run os rounds p t))
          (create os event_cb sock_data app_data period s)
  proactor_life event_cb sock_data app_data period rounds fuel s got pipes =
      Returned-map (Empty s) _ (create os event_cb sock_data app_data period s)
        (λ p t h.
          Every-map _ _ (run os rounds p t)
            (λ u k.
              Returned-map (λ _ v. ListClosed [] t v) _ (dispose os (suc fuel) p u)
                (λ _ v e. (
                  e.closed ∙ rw (h.closed, h.ends) refl,
                  e.freed ∙ append-nil (frees t.log) ∙ h.freed,
                ))
                k)
            (run_then_dispose os [] t rounds (suc fuel) p (rw h.address got) (λ log. refl)
              (end (rw h.sockets refl)) (omega arith)))
        (create-Empty event_cb sock_data app_data period s got pipes)
