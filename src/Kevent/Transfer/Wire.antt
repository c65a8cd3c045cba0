-- ===== src/Kevent/Transfer/Wire.antt =====
-- What the calls of the last functions of proactor_net_kevent.c make of the allocator's blocks and of
-- the bytes on their way, and the channel that a state stands for.
use tag_sim.Common.Parts.{piece, piece-split, piece-bound}
use tag_sim.Common.{
  ℕ, ◌+◌, ◌≤◌, ◌≡◌, refl, sym, ap, ◌∙◌, subst, Option, none, some, List, [], ◌∷◌, ◌++◌, arith, ℤ,
  pos, negsuc, take, drop, length,
}
use tag_sim.Common.Blocks.{take_block, free_block}
use tag_sim.Channel.{Channel, Reach}
use tag_sim.Kevent.Transfer.State.{
  Bytes, malloc, memcpy, free, write, Call, Log, SendRequest, Os, State, logged,
}

-- The blocks in use after the calls of a log; `none` where a block was freed that was not in use.
abbrev pub live : Log → Option (List ℤ)
live [] = some []
live ((malloc n, p) ∷ log) = take_block p (live log)
live ((free p, r) ∷ log) = free_block p (live log)
live (_ ∷ log) = live log

abbrev pub blocks : Option SendRequest → List ℤ
blocks none = []
blocks (some r) = r.data_ptr ∷ r.block ∷ []

abbrev pub some_of : ℤ → Bytes → Bytes
some_of (pos n) bytes = take n bytes
some_of (negsuc n) bytes = []

-- The bytes that `write` took, in order.
abbrev pub taken : Log → Bytes
taken [] = []
taken ((write fd bytes, r) ∷ log) = taken log ++ some_of r bytes
taken (_ ∷ log) = taken log

-- The bytes that `proactor_net_send` has copied, in order.
abbrev pub submitted : Log → Bytes
submitted [] = []
submitted ((memcpy p bytes, r) ∷ log) = submitted log ++ bytes
submitted (_ ∷ log) = submitted log

abbrev pub left_of : SendRequest → Bytes
left_of r = drop r.offset r.content

abbrev pub under_way_of : Option SendRequest → Option Bytes
under_way_of none = none
under_way_of (some r) = some (left_of r)

-- The channel that a state stands for.
abbrev pub view : State → Channel
view s = record {
  submitted = submitted s.log;
  sent = taken s.log;
  under_way = under_way_of s.current_send_request;
}

abbrev pub Fits : Option SendRequest → Type 0
Fits none = Unit {0}
Fits (some r) = (r.size ≡ length r.content) × (r.offset ≤ r.size)

-- The blocks in use are those of the pending request, its offset is within its bytes, and the channel
-- `c` can come to be the one that the state stands for.
pub record Sound (c : Channel) (s : State) : Type 0 where
  pub owned : live s.log ≡ some (blocks s.current_send_request)
  pub fits : Fits s.current_send_request
  pub path : Reach c (view s)

-- `write` takes no more than it is given.
abbrev pub WriteBounded : Os → Type 0
WriteBounded os =
    (log : Log) (fd : ℤ) (bytes : Bytes) (n : ℕ)
    → os.sys log (write fd bytes) ≡ pos n
    → n ≤ length bytes

-- The call moves no block and no byte of a request.
abbrev pub Plain : Call → Type 0
Plain (malloc n) = ⊥
Plain (memcpy p bytes) = ⊥
Plain (free p) = ⊥
Plain (write fd bytes) = ⊥
Plain _ = Unit {0}

Plain-log :
    (c : Call) (r : ℤ) (log : Log)
    → Plain c
    → (live ((c, r) ∷ log) ≡ live log)
      × (taken ((c, r) ∷ log) ≡ taken log)
      × (submitted ((c, r) ∷ log) ≡ submitted log)
Plain-log (malloc n) r log e = absurd e
Plain-log (memcpy p bytes) r log e = absurd e
Plain-log (free p) r log e = absurd e
Plain-log (write fd bytes) r log e = absurd e
Plain-log _ r log e = (refl, refl, refl)

-- The argument of `write` is all that is left.
abbrev pub chunk : SendRequest → Bytes
chunk r = piece r.content r.size r.offset

abbrev pub advance : SendRequest → ℕ → SendRequest
advance r n = record r { offset = r.offset + n }

-- What `write` took and what is then left make up what was left.
pub split-order :
    (r : SendRequest) (n : ℕ)
    → Fits (some r)
    → take n (chunk r) ++ left_of (advance r n) ≡ left_of r
split-order r n f = piece-split r.content r.size r.offset n f.0

pub advance-Fits :
    (r : SendRequest) (n : ℕ) → Fits (some r) → n ≤ length (chunk r) → Fits (some (advance r n))
advance-Fits r n f bound = (f.0, piece-bound r.content r.size r.offset n f.0 f.1 bound)

module _ (c : Channel) where
  pub same-Sound :
      (s t : State)
      → t.current_send_request ≡ s.current_send_request
      → live t.log ≡ live s.log
      → taken t.log ≡ taken s.log
      → submitted t.log ≡ submitted s.log
      → Sound c s
      → Sound c t
  same-Sound s t request blocks_same sent_same submitted_same h = record {
    owned = blocks_same ∙ h.owned ∙ ap (λ o. some (blocks o)) (sym request);
    fits = subst Fits (sym request) h.fits;
    path = subst (Reach c) (let e : view s ≡ view t = ground arith in e) h.path;
  }

  pub Plain-Sound :
      (call : Call) (r : ℤ) (s : State) → Plain call → Sound c s → Sound c (logged call r s)
  Plain-Sound call r s e h =
      let same = Plain-log call r s.log e in
      same-Sound s (logged call r s) refl same.0 same.1 same.2 h
