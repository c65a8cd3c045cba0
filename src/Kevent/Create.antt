-- ===== src/Kevent/Create.antt =====
-- `proactor_net_create` on all its branches.
use tag_sim.Common.{
  ℕ, ◌+◌, ◌*◌, ◌<◌, ◌≡◌, refl, Bool, false, ◌||◌, Option, ◌∷◌, ℤ, ◌==ℤ◌, minus_one, if◌then◌else◌,
  arith, inl, inr, Bool-cases,
}
use tag_sim.Machine.{Returned}
use tag_sim.Status.Codes.{Status}
use tag_sim.Kevent.State.{null, Os, State, Log, Proactor, calloc, kqueue, pipe, watch_read}
use tag_sim.Kevent.Lifecycle.{create, open_queue, open_wake_pipe, fresh}

module _ (os : Os) where
  abbrev pub after_alloc : Log → Log
  after_alloc log = (calloc, os.sys log calloc) ∷ log

  abbrev pub queue_of : Log → ℤ
  queue_of log = os.sys (after_alloc log) kqueue

  abbrev pub after_queue : Log → Log
  after_queue log = (kqueue, queue_of log) ∷ after_alloc log

  abbrev pub piped : Log → ℤ
  piped log = os.sys (after_queue log) pipe

  abbrev pub watched : Log → ℤ
  watched log =
      os.sys ((pipe, piped log) ∷ after_queue log)
        (watch_read (queue_of log) (os.pipe_fds (after_queue log)).0)

  -- `kqueue`, `pipe` or the registration fails when the creation begins with the calls `log` made.
  abbrev pub failing : Log → Bool
  failing log =
      (queue_of log ==ℤ minus_one) || ((piped log ==ℤ minus_one) || (watched log ==ℤ minus_one))

  pub record Created (event_cb : Option ℕ) (app_data period : ℕ) (log : Log) (p : Proactor)
      : Type 0 where
    pub status : p.proactor_status ≡ (if failing log then Status.internal_failure else Status.ok)
    pub queue : p.kq ≡ queue_of log
    pub tick_period : p.tick_sec * 1000000000 + p.tick_nsec ≡ period * 1000000
    pub below_second : p.tick_nsec < 1000000000
    pub callback : p.event_cb ≡ event_cb
    pub context : p.app_data ≡ app_data
    pub running : p.stop ≡ false
    pub empty : p.sockets ≡ null

  made-Created :
      (event_cb : Option ℕ) (app_data period : ℕ) (log : Log) (rc : Status) (r w : ℤ)
      → rc ≡ (if failing log then Status.internal_failure else Status.ok)
      → Created event_cb app_data period log (record (fresh os event_cb app_data period) {
        kq = queue_of log;
        wakeup_read = r;
        wakeup_write = w;
        proactor_status = rc;
      })
  unfolding fresh
  made-Created event_cb app_data period log rc r w e = record {
    status = e;
    queue = refl;
    tick_period = ground arith;
    below_second = ground arith;
    callback = refl;
    context = refl;
    running = refl;
    empty = refl;
  }

  -- With memory the call returns the new proactor, whatever fails after that: its status is
  -- `STATUS_INTERNAL_FAILURE` if one of the three calls failed, else `STATUS_OK`; its tick is the period
  -- in seconds and nanoseconds, below a second; it is not stopped and has no sockets.
  pub create-Created :
      (event_cb : Option ℕ) (sock_data app_data period : ℕ) (s : State)
      → (os.sys s.log calloc ==ℤ null) ≡ false
      → Returned
          (λ p t. (p ≡ os.sys s.log calloc) × Created event_cb app_data period s.log t.proactor)
          (create os event_cb sock_data app_data period s)
  unfolding create open_queue open_wake_pipe fresh
  create-Created event_cb sock_data app_data period s got =
      elim (Bool-cases (queue_of s.log ==ℤ minus_one)) [
        | inl e ↦
            simp (got, e) (refl, made-Created event_cb app_data period s.log _ _ _ (rw e refl))
        | inr e ↦ elim (Bool-cases (piped s.log ==ℤ minus_one)) [
          | inl f ↦
              simp (got, e, f)
                (refl, made-Created event_cb app_data period s.log _ _ _ (rw (e, f) refl))
          | inr f ↦ elim (Bool-cases (watched s.log ==ℤ minus_one)) [
            | inl g ↦
                simp (got, e, f, g)
                  (refl, made-Created event_cb app_data period s.log _ _ _ (rw (e, f, g) refl))
            | inr g ↦
                simp (got, e, f, g)
                  (refl, made-Created event_cb app_data period s.log _ _ _ (rw (e, f, g) refl))
          ]
        ]
      ]
