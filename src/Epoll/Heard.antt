-- ===== src/Epoll/Heard.antt =====
-- What the application hears of the data that arrives.
use tag_sim.Common.{
  refl, All, Option, none, some, sym, ap, ◌∙◌, pos_part, arith, ℕ, zero, suc, ◌≡◌, List, [], ◌∷◌, ℤ,
  pos, negsuc, ◌==ℤ◌, ==ℤ_refl, take, if◌then◌else◌,
}
use tag_sim.Epoll.State.{Log, Bytes, Call, read, on_receive, Os, State}
use tag_sim.Epoll.Loop.{run}
use tag_sim.Epoll.Traced.{Quiet, Traced, Allowed}
use tag_sim.Epoll.Trace.Loop.{run-Good}
use tag_sim.Machine.{Every, Every-map}

-- The pieces of data that were handed to the receive callback, with their connections, the latest first.
abbrev pub heard : Log → List (ℤ × Bytes)
heard [] = []
heard ((on_receive cb fd bytes d, r) ∷ log) = (fd, bytes) ∷ heard log
heard (_ ∷ log) = heard log

-- What one `read` stored.
abbrev pub stored : Bytes → ℤ → ℤ → List (ℤ × Bytes) → List (ℤ × Bytes)
stored buffer fd (negsuc n) before = before
stored buffer fd (pos zero) before = before
stored buffer fd (pos (suc n)) before = (fd, take (suc n) buffer) ∷ before

-- What the calls of `read` stored, but for those of the wake pipe, the latest first.
abbrev pub arrived : Os → ℤ → Log → List (ℤ × Bytes)
arrived os pipe [] = []
arrived os pipe ((read fd n, r) ∷ log) =
    let before = arrived os pipe log in
    if fd ==ℤ pipe then before else stored (os.input log) fd r before
arrived os pipe (_ ∷ log) = arrived os pipe log

-- A receive callback is set.
abbrev pub Listens : Option ℕ → Type 0
Listens none = ⊥
Listens (some cb) = Unit {0}

module _ (os : Os) (pipe : ℤ) where
  abbrev Told : Log → Type 0
  Told log = heard log ≡ arrived os pipe log

  Quiet-Told : (c : Call) (r : ℤ) (log : Log) → Quiet c → Told log → Told ((c, r) ∷ log)
  Quiet-Told (read fd n) r log e h = absurd e
  Quiet-Told (on_receive cb fd bytes d) r log e h = absurd e
  Quiet-Told _ r log e h = h

  stored_none :
      (buffer : Bytes) (fd r : ℤ) (before : List (ℤ × Bytes))
      → pos_part r ≡ 0
      → stored buffer fd r before ≡ before
  stored_none buffer fd (negsuc n) before e = refl
  stored_none buffer fd (pos zero) before e = refl
  stored_none buffer fd (pos (suc n)) before e = absurd (omega arith)

  Told-Traced : Traced os pipe Listens Told
  Told-Traced = record {
    calls = Quiet-Told;
    wakes = λ r log h. rw (==ℤ_refl pipe) h;
    ends = λ fd r log apart e h. rw apart (h ∙ sym (stored_none (os.input log) fd r _ e));
    unheard = λ fd n log apart e h. absurd e;
    hears = λ cb fd n d log apart h. rw apart (ap (λ l. (fd, take (suc n) (os.input log)) ∷ l) h);
  }

  -- Where a receive callback is set, the application never removes it, though it may replace it, and so
  -- far what was handed to it is what the calls of `read` stored, but for those of the wake pipe: the same
  -- holds however the event loop ends, and when it goes on, piece by piece, each with its connection and
  -- in their order. No piece is lost, doubled or made up.
  pub nothing_unheard :
      (fuel : ℕ) (s : State)
      → s.wakeup_read ≡ pipe
      → Listens s.receive_callback
      → ((log : Log) → All (Allowed Listens) (os.app log))
      → heard s.log ≡ arrived os pipe s.log
      → Every (λ t. heard t.log ≡ arrived os pipe t.log) (run os fuel s)
  nothing_unheard fuel s same listens asked h =
      Every-map _ _ (run os fuel s) (λ t k. k.2)
        (run-Good os pipe Listens Told asked Told-Traced fuel s (same, listens, h))
