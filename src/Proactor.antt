-- ===== src/Proactor.antt =====
-- What src/util/proactor_net_epoll.c and src/util/proactor_net_iocp.c offer alike, under the names
-- proactor_tcp_epoll_* and proactor_tcp_iocp_*: the functions, and what a program that calls them
-- relies on once a stop was asked for.
use Prim.Native.String.{String}
use tag_sim.Common.{ℕ, suc, ◌≡◌, Bool, true, List, [], ◌∷◌, ℤ}
use tag_sim.Machine.{Step, Ends, Ends-bind, pure, ◌>>=◌, ◌>>◌}

-- The functions over the static variables; `waits` counts the calls that wait for events.
pub record Functions : Type 1 where
  pub State : Type 0
  pub Request : Type 0
  pub init : Step State ℤ
  pub start_server : ℕ → Step State ℤ
  pub connect_to : String → ℕ → Step State ℤ
  pub cleanup : Step State (Unit {0})
  pub run : ℕ → Step State (Unit {0})
  pub perform : Request → Step State (Unit {0})
  pub stop : Request
  pub stopped : State → Bool
  pub waits : State → ℕ

-- The loop is stopped, and has waited `n` times.
abbrev pub Resting : (f : Functions) → ℕ → f.State → Type 0
Resting f n s = (f.stopped s ≡ true) × (f.waits s ≡ n)

-- A step starts no loop that was stopped, and waits for no event.
abbrev pub Rests : (f : Functions) → {A : Type 0} → Step f.State A → Type 0
Rests f step = (n : ℕ) (s : f.State) → Resting f n s → Ends (Resting f n) (step s)

-- One step after another.
pub then-Rests :
    (f : Functions) {A B : Type 0} (first : Step f.State A) (rest : A → Step f.State B)
    → Rests f first
    → ((a : A) → Rests f (rest a))
    → Rests f (first >>= rest)
then-Rests f first rest h k n s r =
    Ends-bind (Resting f n) (Resting f n) (first s) _ (h n s r) (λ t e. e) (λ a t e. k a n t e)

pub record Laws (f : Functions) : Type 0 where
  pub init-Rests : Rests f f.init
  pub start_server-Rests : (port : ℕ) → Rests f (f.start_server port)
  pub connect_to-Rests : (address : String) (port : ℕ) → Rests f (f.connect_to address port)
  pub cleanup-Rests : Rests f f.cleanup
  pub perform-Rests : (q : f.Request) → Rests f (f.perform q)
  pub run-Rests : (fuel : ℕ) → Rests f (f.run (suc fuel))
  pub stop_stops : (s : f.State) → Ends (Resting f (f.waits s)) (f.perform f.stop s)

-- What an application may do from its own thread.
pub data Operation (f : Functions) : Type 0 where
  init cleanup : Operation f
  start_server : ℕ → Operation f
  connect_to : String → ℕ → Operation f
  request : f.Request → Operation f
  -- the loop, with fuel for one round and more
  run : ℕ → Operation f

module _ (f : Functions) where
  unfoldable pub operate : Operation f → Step f.State (Unit {0})
  operate init = f.init >>= λ _. pure tt
  operate cleanup = f.cleanup
  operate (start_server port) = f.start_server port >>= λ _. pure tt
  operate (connect_to address port) = f.connect_to address port >>= λ _. pure tt
  operate (request q) = f.perform q
  operate (run fuel) = f.run (suc fuel)

  unfoldable pub operate_all : List (Operation f) → Step f.State (Unit {0})
  operate_all [] = pure tt
  operate_all (o ∷ rest) = operate o >> operate_all rest

  module _ (laws : Laws f) where
    operate-Rests : (o : Operation f) → Rests f (operate o)
    unfolding operate
    operate-Rests init = then-Rests f f.init _ laws.init-Rests (λ _ n s h. h)
    operate-Rests cleanup = laws.cleanup-Rests
    operate-Rests (start_server port) =
        then-Rests f (f.start_server port) _ (laws.start_server-Rests port) (λ _ n s h. h)
    operate-Rests (connect_to address port) =
        then-Rests f (f.connect_to address port) _ (laws.connect_to-Rests address port)
          (λ _ n s h. h)
    operate-Rests (request q) = laws.perform-Rests q
    operate-Rests (run fuel) = laws.run-Rests fuel

    operate_all-Rests : (os : List (Operation f)) → Rests f (operate_all os)
    unfolding operate_all
    operate_all-Rests [] n s h = h
    operate_all-Rests (o ∷ os) n s h =
        then-Rests f (operate o) (λ _. operate_all os) (operate-Rests o) (λ _. operate_all-Rests os)
          n s h

    -- After a stop, whatever is called then, the loop included, ends without waiting.
    pub stopped_for_good :
        (os : List (Operation f)) (s : f.State)
        → Ends (Resting f (f.waits s)) ((f.perform f.stop >> operate_all os) s)
    stopped_for_good os s =
        Ends-bind (Resting f (f.waits s)) _ (f.perform f.stop s) _ (laws.stop_stops s) (λ t k. k)
          (λ _ t k. operate_all-Rests os (f.waits s) t k)
