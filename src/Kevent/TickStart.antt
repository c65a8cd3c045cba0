-- ===== src/Kevent/TickStart.antt =====
-- Where the ticks of a round start.
use tag_sim.Common.{
  arith, ◌≤◌, none, length, ◌==ℤ◌, false, ℕ, suc, ◌≡◌, refl, sym, ◌∙◌, subst, Option, some, ℤ, pos,
}
use tag_sim.Machine.{Run, Returned, Returned-bind, Returned-map, Faulted}
use tag_sim.Status.Codes.{Status}
use tag_sim.Kevent.State.{Socket, null, Os, State, Log, tick, on_event}
use tag_sim.Kevent.Lifecycle.{upcall}
use tag_sim.Kevent.Loop.{ticks, tick_sockets, tick_proactor}
use tag_sim.Kevent.Sockets.{logged}
use tag_sim.Kevent.Chain.{Cells, Chain}
use tag_sim.Kevent.TickList.{Ticked, tickers, Quiet, perform_all-Quiet, tick_sockets-Ticked}
use tag_sim.Kevent.Ticks.{ticks-Faulted}

-- What is at the address where a walk over the sockets starts: a chain of sockets, which is empty where the
-- address is null, or no socket.
pub data Start (heap : ℤ → Option Socket) (p : ℤ) : Type 0 where
  chained : (xs : Cells) → Chain heap p xs → Start heap p
  nowhere : (p ==ℤ null) ≡ false → heap p ≡ none → Start heap p

abbrev pub size : {heap : ℤ → Option Socket} {p : ℤ} → Start heap p → ℕ
size (chained xs chain) = length xs
size (nowhere given nothing) = 0

-- The ticks that then follow.
abbrev pub Ticks :
    {heap : ℤ → Option Socket} {p : ℤ} → Start heap p → State → Run State (Unit {0}) → Type 0
Ticks (chained xs chain) s r = Returned (λ _ t. Ticked (tickers xs) s t) r
Ticks (nowhere given nothing) s r = Faulted r

module _ (os : Os) (proactor : ℤ) where
  tick_proactor-Quiet :
      (cb : Option ℕ) (app_data : ℕ) (s : State)
      → Returned (λ _ t. Quiet s t) (tick_proactor os proactor cb app_data s)
  unfolding tick_proactor upcall
  tick_proactor-Quiet none app_data s = (refl, refl)
  tick_proactor-Quiet (some cb) app_data s =
      let t = logged (on_event cb tick Status.ok app_data) (pos 0) s in
      perform_all-Quiet os proactor (os.app t.log) t

  -- The loop variable over the sockets, which has no initialiser, holds `p`. If a chain of sockets starts
  -- at `p`, whether it is the proactor's or not, and with more fuel than sockets in it, each socket of that
  -- chain with a callback for ticks gets one tick, in order, and no other socket does; with null for `p`
  -- the chain is empty. If `p` is not null and no socket is there, the ticks end in a fault.
  pub ticks_origin :
      (fuel : ℕ) (p : ℤ) (s : State) (start : Start s.heap p)
      → ((log : Log) → os.garbage log ≡ p)
      → size start ≤ fuel
      → Ticks start s (ticks os (suc fuel) proactor s)
  unfolding ticks
  ticks_origin fuel p s (chained xs chain) held enough =
      Returned-bind (λ _ t. Quiet s t) (λ _ t. Ticked (tickers xs) s t)
        (tick_proactor os proactor s.proactor.event_cb s.proactor.app_data s) _
        (tick_proactor-Quiet s.proactor.event_cb s.proactor.app_data s)
        (λ _ t h. rw (held t.log) (
          Returned-map (λ _ u. Ticked (tickers xs) t u) (λ _ u. Ticked (tickers xs) s u)
            (tick_sockets os (suc fuel) proactor p t) (λ _ u k. (k.0 ∙ h.0, k.1 ∙ rw h.1 refl))
            (tick_sockets-Ticked os proactor (suc fuel) {xs = xs} t
              (subst (λ f. Chain f p xs) (sym h.0) chain) (omega arith))))
  ticks_origin fuel p s (nowhere given nothing) held enough =
      ticks-Faulted os proactor fuel s (λ log. rw (held log) given) (λ log. rw (held log) nothing)
