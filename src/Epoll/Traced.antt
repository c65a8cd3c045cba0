-- ===== src/Epoll/Traced.antt =====
-- What a property of the calls made so far has to survive, for the rule of Trace.
use tag_sim.Common.{pos_part, ℕ, suc, ◌≡◌, false, Option, none, ◌∷◌, ℤ, pos, ◌==ℤ◌, take}
use tag_sim.Epoll.State.{Log, Call, read, on_receive, Request, Os, buffer_size}

-- The calls that neither read nor hand on what was read.
abbrev pub Quiet : Call → Type 0
Quiet (read fd n) = ⊥
Quiet (on_receive cb fd bytes d) = ⊥
Quiet _ = Unit {0}

-- The application sets the receive callback only to what `L` allows.
abbrev pub Allowed : (Option ℕ → Type 0) → Request → Type 0
Allowed L (Request.set_receive_callback cb d) = L cb
Allowed L _ = Unit {0}

-- `R` survives each call, where the receive callback is one that `L` allows; `pipe` is the reading end
-- of the wake pipe.
pub record Traced (os : Os) (pipe : ℤ) (L : Option ℕ → Type 0) (R : Log → Type 0) : Type 0 where
  pub calls : (c : Call) (r : ℤ) (log : Log) → Quiet c → R log → R ((c, r) ∷ log)
  pub wakes : (r : ℤ) (log : Log) → R log → R ((read pipe 1, r) ∷ log)
  -- of a connection: nothing is read; what is read is not handed on; it is
  pub ends :
      (fd r : ℤ) (log : Log)
      → (fd ==ℤ pipe) ≡ false
      → pos_part r ≡ 0
      → R log
      → R ((read fd buffer_size, r) ∷ log)
  pub unheard :
      (fd : ℤ) (n : ℕ) (log : Log)
      → (fd ==ℤ pipe) ≡ false
      → L none
      → R log
      → R ((read fd buffer_size, pos (suc n)) ∷ log)
  pub hears :
      (cb : ℕ) (fd : ℤ) (n d : ℕ) (log : Log)
      → (fd ==ℤ pipe) ≡ false
      → R log
      → R (
          (on_receive cb fd (take (suc n) (os.input log)) d, pos 0)
          ∷ (read fd buffer_size, pos (suc n))
          ∷ log)
