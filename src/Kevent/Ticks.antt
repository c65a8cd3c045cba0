-- ===== src/Kevent/Ticks.antt =====
-- The ticks of a round, whose loop over the sockets starts from a variable without an initialiser.
use tag_sim.Common.{ℕ, suc, ◌≡◌, refl, ap, ◌∙◌, true, false, Option, none, some, ℤ, ◌==ℤ◌}
use tag_sim.Machine.{Faulted, Run, done, exited, fault, going, Returned, Step, and_then}
use tag_sim.Status.Codes.{Status}
use tag_sim.Kevent.State.{null, Os, State, Log, tick, on_event}
use tag_sim.Kevent.Loop.{ticks, tick_sockets, tick_proactor}
use tag_sim.Kevent.Sockets.{Same, Same-refl, upcall-Same}

Faulted-bind :
    {A B : Type 0} (P : A → State → Type 0) (r : Run State A) (k : A → Step State B)
    → Returned P r
    → ((a : A) (s : State) → P a s → Faulted (k a s))
    → Faulted (and_then r k)
Faulted-bind P (done a s) k p next = next a s p
Faulted-bind P (exited s) k p next = absurd p
Faulted-bind P (fault s) k p next = absurd p
Faulted-bind P (going s) k p next = absurd p

and_then-done :
    (r : Run State (Unit {0})) (k : State → Run State (Unit {0}))
    → ((s : State) → k s ≡ done tt s)
    → and_then r (λ _. k) ≡ r
and_then-done (done a s) k same = same s
and_then-done (exited s) k same = refl
and_then-done (fault s) k same = refl
and_then-done (going s) k same = refl

module _ (os : Os) (proactor : ℤ) where
  tick_proactor-Same :
      (cb : Option ℕ) (app_data : ℕ) (s : State)
      → Returned (λ _ t. Same s t) (tick_proactor os proactor cb app_data s)
  unfolding tick_proactor
  tick_proactor-Same none app_data s = Same-refl s
  tick_proactor-Same (some cb) app_data s =
      upcall-Same os proactor (on_event cb tick Status.ok app_data) s tt

  -- If the variable happens to hold null, no socket gets its tick, whatever sockets the proactor has:
  -- the ticks are those of the proactor alone.
  pub ticks-null :
      (fuel : ℕ) (s : State)
      → ((log : Log) → (os.garbage log ==ℤ null) ≡ true)
      → ticks os (suc fuel) proactor s
        ≡ tick_proactor os proactor s.proactor.event_cb s.proactor.app_data s
  unfolding ticks tick_sockets
  ticks-null fuel s zeroed =
      and_then-done (tick_proactor os proactor s.proactor.event_cb s.proactor.app_data s) _
        (λ t. rw (zeroed t.log) refl)

  -- If it happens to hold an address that is not null and where no socket is, the ticks end in a
  -- fault, whatever sockets the proactor has and whatever its callback does.
  pub ticks-Faulted :
      (fuel : ℕ) (s : State)
      → ((log : Log) → (os.garbage log ==ℤ null) ≡ false)
      → ((log : Log) → s.heap (os.garbage log) ≡ none)
      → Faulted (ticks os (suc fuel) proactor s)
  unfolding ticks tick_sockets
  ticks-Faulted fuel s wild unmapped =
      Faulted-bind (λ _ t. Same s t)
        (tick_proactor os proactor s.proactor.event_cb s.proactor.app_data s) _
        (tick_proactor-Same s.proactor.event_cb s.proactor.app_data s)
        (λ _ t h.
          let at : t.heap (os.garbage t.log) ≡ none =
            ap (λ f. f (os.garbage t.log)) h.heap ∙ unmapped t.log in
          simp (wild t.log, at) tt)
