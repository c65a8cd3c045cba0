-- ===== src/Epoll/Life.antt =====
-- The whole run of a server: set up, the event loop, and the end.
use Prim.Native.String.{String}
use tag_sim.Common.{
  ◌++◌, append_assoc, ap, ◌∙◌, ==ℤ_refl, ℕ, suc, ◌≡◌, refl, true, false, Option, none, some, List,
  [], ◌∷◌, ℤ, pos, arith, take, Bool-cases, inl, inr,
}
use tag_sim.Epoll.State.{
  SendRequest, socket, pipe, epoll_create, need, Call, close, Log, State, Os, M, fails, bind,
  listen, epoll_ctl, add, epollin, epoll_wait, max_events, initial,
}
use tag_sim.Epoll.Setup.{init, start_server, cleanup, free_request}
use tag_sim.Epoll.Loop.{run}
use tag_sim.Epoll.Keep.{logged, run-Along}
use tag_sim.Epoll.Heap.{live, free_live}
use tag_sim.Epoll.Memory.{blocks, All-Unit, Owned, run-Owned}
use tag_sim.Epoll.Same.{Same, perform-Same, handle_write_event-Same}
use tag_sim.Epoll.Descriptors.{closed, opened, made, descriptors}
use tag_sim.Epoll.Stop.{asks_stop, run-stops}
use tag_sim.Epoll.Lifecycle.{cleanup-live, Serving, if_same}
use tag_sim.Epoll.Interest.{interest}
use tag_sim.Machine.{After-map, Returned-Along, Along-both, After-both, After, After-bind, ◌>>=◌}

-- Whenever the loop waits for the first time, another thread asks for a stop meanwhile.
abbrev pub StopsAtOnce : Os → Type 0
StopsAtOnce os =
    (log : Log) (queue : ℤ)
    → asks_stop
        (os.app ((epoll_wait queue max_events, os.sys log (epoll_wait queue max_events)) ∷ log))
      ≡ true

-- `pipe` stores a descriptor.
abbrev pub Pipes : Os → Type 0
Pipes os = (log : Log) → fails (os.pipe_fds log).0 ≡ false

-- Set up: the listening socket and the wake pipe are there, no connection was made, and the descriptors are
-- those that the calls gave.
pub record SetUp (os : Os) (s : State) : Type 0 where
  pub owned : Owned s
  pub server : fails s.server_socket ≡ false
  pub pipe : fails s.wakeup_read ≡ false
  pub client : fails s.client_socket ≡ true
  pub given : opened os s.log ≡ made s

module _ (os : Os) where
  need-After :
      {B : Type 0} (Q : State → Type 0) (c : Call) (msg : String) (k : ℤ → M B) (s : State)
      → ((r : ℤ) → fails r ≡ false → After Q (k r (logged c r s)))
      → After Q ((need os c msg >>= k) s)
  need-After Q c msg k s h = elim (Bool-cases (fails (os.sys s.log c))) [
    | inl failed ↦ rw failed tt
    | inr passed ↦ rw passed (h (os.sys s.log c) passed)
  ]

  -- After `init`.
  abbrev Ready : State → Type 0
  Ready s =
      Owned s
      × (fails s.wakeup_read ≡ false)
      × (fails s.client_socket ≡ true)
      × (interest s.epoll_fd s.log s.wakeup_read ≡ some epollin)
      × (opened os s.log ≡ s.epoll_fd ∷ s.wakeup_read ∷ s.wakeup_write ∷ [])

  init-Ready : Pipes os → After Ready (init os initial)
  unfolding init
  init-Ready pipes =
      let fd = os.sys [] epoll_create in
      elim (Bool-cases (fails fd)) [
        | inl failed ↦ rw failed tt
        | inr made ↦ rw made (elim (Bool-cases (fails (os.sys ((epoll_create, fd) ∷ []) pipe))) [
          | inl failed ↦ rw failed tt
          | inr piped ↦ rw piped (
              need-After Ready _ _ _ _
                (λ r passed. (refl, pipes _, refl, simp (==ℤ_refl, passed), refl)))
        ])
      ]

  -- After `start_server`.
  abbrev Started : State → Type 0
  Started s = Serving s × SetUp os s

  start_server-Started : (port : ℕ) (s : State) → Ready s → After Started (start_server os port s)
  unfolding start_server
  start_server-Started port s h = elim (Bool-cases (fails (os.sys s.log socket))) [
    | inl failed ↦ rw failed tt
    | inr made ↦
        let fd = os.sys s.log socket in
        rw made (
          need-After Started (bind fd port) _ _ _ (λ r _.
            need-After Started (listen fd) _ _ _ (λ r _.
              need-After Started (epoll_ctl s.epoll_fd add fd epollin) _ _ _ (λ r passed. (
                record {
                  pipe = rw (==ℤ_refl s.epoll_fd, passed, h.3) (if_same (some epollin) _);
                  server = simp (==ℤ_refl, passed);
                },
                record {
                  owned = h.0;
                  server = made;
                  pipe = h.1;
                  client = h.2;
                  given = ap (λ l. l ++ fd ∷ []) h.4;
                },
              )))))
  ]

  init-Started :
      (port : ℕ) → Pipes os → After Started ((init os >>= λ _. start_server os port) initial)
  init-Started port pipes =
      After-bind Ready Started (init os initial) _ (init-Ready pipes)
        (λ _ s h. start_server-Started port s h)

  -- The state when the loop has ended.
  record Stopped (s t : State) : Type 0 where
    stopped : t.stop ≡ true
    owned : Owned t
    same : Same os s t

  run-Stopped :
      (fuel : ℕ) (s : State)
      → Owned s
      → StopsAtOnce os
      → After (Stopped s) (run os (suc (suc fuel)) s)
  run-Stopped fuel s owned stops =
      let loop = run os (suc (suc fuel)) s in
      After-map _ (Stopped s) loop (λ t k. record { stopped = k.0; owned = k.1.0; same = k.1.1 })
        (After-both (λ t. t.stop ≡ true) _ loop (run-stops os fuel s owned (stops s.log s.epoll_fd))
          (Along-both Owned (Same os s) loop (run-Owned os (suc (suc fuel)) s owned) (
            run-Along os (Same os s) (λ _. Unit {0}) (λ c r t e h. h) (perform-Same os s)
              (handle_write_event-Same os s) (λ log n. All-Unit (take n (os.ready log)))
              (suc (suc fuel)) s (refl, refl, refl, refl, refl))))

four :
    (l : List ℤ) (a b c d : ℤ)
    → (((l ++ a ∷ []) ++ b ∷ []) ++ c ∷ []) ++ d ∷ [] ≡ l ++ (a ∷ b ∷ c ∷ d ∷ [])
four l a b c d = simp append_assoc

-- Blocks that are in use are freed.
free_request-closed :
    (p : Option SendRequest) (s : State)
    → live s.log ≡ some (blocks p)
    → After (λ t. closed t.log ≡ closed s.log) (free_request p s)
unfolding free_request free_live
free_request-closed none s h = refl
free_request-closed (some r) s h = simp (h, ==ℤ_refl r.data_ptr, ==ℤ_refl r.block) refl

cleanup-closed :
    (s : State)
    → Owned s
    → fails s.server_socket ≡ false
    → fails s.wakeup_read ≡ false
    → fails s.client_socket ≡ true
    → After (λ t. closed t.log ≡ closed s.log ++ descriptors s) (cleanup s)
unfolding cleanup
cleanup-closed s owned server piped client =
    simp (server, piped, client)
      (After-map _ _ (free_request s.current_send_request _)
        (λ t e. e ∙ four (closed s.log) s.server_socket s.wakeup_read s.wakeup_write s.epoll_fd)
        (free_request-closed s.current_send_request
          (record s {
            log =
                (close s.epoll_fd, pos 0)
                ∷ (close s.wakeup_write, pos 0)
                ∷ (close s.wakeup_read, pos 0)
                ∷ (close s.server_socket, pos 0)
                ∷ s.log;
          })
          owned))

-- The run is over: no block is in use, and the latest descriptors that were closed are those of `s`.
pub record Ended (s t : State) : Type 0 where
  pub freed : live t.log ≡ some []
  pub earlier : List ℤ
  pub last : closed t.log ≡ earlier ++ descriptors s

module _ (os : Os) where
  Same-descriptors : (s t : State) → Same os s t → descriptors t ≡ descriptors s
  Same-descriptors s t same = ground (arith, same)

  cleanup-Ended : (s t : State) → SetUp os s → Stopped os s t → After (Ended s) (cleanup t)
  cleanup-Ended s t h k =
      let same = k.same in
      After-map _ (Ended s) (cleanup t)
        (λ u e. record {
          freed = e.1;
          earlier = closed t.log;
          last = e.0 ∙ ap (λ l. closed t.log ++ l) (Same-descriptors s t same);
        })
        (After-both _ (λ u. live u.log ≡ some []) (cleanup t)
          (cleanup-closed t k.owned (ap fails same.1 ∙ h.server) (ap fails same.0 ∙ h.pipe)
            (ap fails same.3 ∙ h.client))
          (Returned-Along _ (λ u. live u.log ≡ some []) (cleanup t) (λ _ u f. f.0)
            (cleanup-live t k.owned)))

  -- From the initial state, with a `pipe` that stores a descriptor, and where another thread asks for a
  -- stop whenever the loop waits: `init`, `start_server`, the event loop and `cleanup`, called in this
  -- order, return or exit the process, whatever the events and the callbacks do. If the first two return,
  -- the wake pipe and the listening socket are registered for input, and the descriptors of the program
  -- are what `epoll_create1` returned, the two that `pipe` stored, and what `socket` returned. If all return,
  -- no block is in use, and the descriptors closed last are the listening socket, both ends of the wake pipe
  -- and the queue, as they were after `start_server`.
  pub server_life :
      (port fuel : ℕ)
      → Pipes os
      → StopsAtOnce os
      → After
          (λ s.
            Serving s
            × (opened os s.log ≡ made s)
            × After (Ended s) ((run os (suc (suc fuel)) >>= λ _. cleanup) s))
          ((init os >>= λ _. start_server os port) initial)
  server_life port fuel pipes stops =
      After-map (Started os) _ ((init os >>= λ _. start_server os port) initial)
        (λ s h. (
          h.0,
          h.1.given,
          After-bind (Stopped os s) (Ended s) (run os (suc (suc fuel)) s) _
              (run-Stopped os fuel s h.1.owned stops) (λ _ t k. cleanup-Ended s t h.1 k),
        ))
        (init-Started os port pipes)
