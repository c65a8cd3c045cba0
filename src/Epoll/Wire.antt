-- ===== src/Epoll/Wire.antt =====
-- The bytes of the requests on their way to the sockets: what was submitted, what `write` took, and
-- what is left.
use tag_sim.Common.Parts.{piece, piece-split, piece-bound}
use tag_sim.Common.{
  arith, ◌-◌, length-take, length-drop, ℕ, ◌+◌, ◌≤◌, ◌≡◌, refl, ◌≢◌, false, Option, none, some, [],
  ◌∷◌, ◌++◌, ℤ, pos, negsuc, ◌==ℤ◌, ==ℤ_iff, if◌then◌else◌, take, drop, length, Bool-cases, inl,
  inr,
}
use tag_sim.Epoll.State.{Log, Bytes, write, malloc, free, memcpy, Call, Os, SendRequest, State}
use tag_sim.Epoll.Keep.{Plain, logged}

abbrev pub some_of : ℤ → Bytes → Bytes
some_of (pos n) bytes = take n bytes
some_of (negsuc n) bytes = []

-- The bytes that `write` took, in order, but for those of the wake pipe `w`.
abbrev pub taken : ℤ → Log → Bytes
taken w [] = []
taken w ((write fd bytes, r) ∷ log) =
    let before = taken w log in if fd ==ℤ w then before else before ++ some_of r bytes
taken w (_ ∷ log) = taken w log

-- The bytes that `proactor_tcp_epoll_send` has copied, in order.
abbrev pub submitted : Log → Bytes
submitted [] = []
submitted ((memcpy p bytes, r) ∷ log) = submitted log ++ bytes
submitted (_ ∷ log) = submitted log

-- What is left of the pending request.
abbrev pub left_of : SendRequest → Bytes
left_of r = drop r.offset r.content

abbrev pub remaining : Option SendRequest → Bytes
remaining none = []
remaining (some r) = left_of r

abbrev pub Fits : Option SendRequest → Type 0
Fits none = Unit {0}
Fits (some r) = (r.size ≡ length r.content) × (r.offset ≤ r.size)

-- `write` takes no more than it is given.
abbrev pub WriteBounded : Os → Type 0
WriteBounded os =
    (log : Log) (fd : ℤ) (bytes : Bytes) (n : ℕ)
    → os.sys log (write fd bytes) ≡ pos n
    → n ≤ length bytes

pub Plain-taken :
    (w : ℤ) (c : Call) (r : ℤ) (log : Log) → Plain c → taken w ((c, r) ∷ log) ≡ taken w log
Plain-taken w (malloc n) r log e = absurd e
Plain-taken w (memcpy p bytes) r log e = absurd e
Plain-taken w (free p) r log e = absurd e
Plain-taken w (write fd bytes) r log e = absurd e
Plain-taken w _ r log e = refl

pub Plain-submitted :
    (c : Call) (r : ℤ) (log : Log) → Plain c → submitted ((c, r) ∷ log) ≡ submitted log
Plain-submitted (malloc n) r log e = absurd e
Plain-submitted (memcpy p bytes) r log e = absurd e
Plain-submitted (free p) r log e = absurd e
Plain-submitted (write fd bytes) r log e = absurd e
Plain-submitted _ r log e = refl

pub ne-test : (w fd : ℤ) → fd ≢ w → (fd ==ℤ w) ≡ false
ne-test w fd h = elim (Bool-cases (fd ==ℤ w)) [
  | inl same ↦ absurd (h ((==ℤ_iff fd w).0 same))
  | inr other ↦ other
]

-- The argument of `write` is all that is left.
abbrev pub chunk : SendRequest → Bytes
chunk r = piece r.content r.size r.offset

abbrev pub advance : SendRequest → ℕ → SendRequest
advance r n = record r { offset = r.offset + n }

-- The state after `write` took `n` bytes of what is left, and the offset has moved.
abbrev pub moved : ℤ → SendRequest → ℕ → State → State
moved fd r n s = record (logged (write fd (chunk r)) (pos n) s) {
  current_send_request = some (advance r n);
}

-- What `write` took and what is then left make up what was left.
pub split-order :
    (r : SendRequest) (n : ℕ)
    → Fits (some r)
    → take n (chunk r) ++ left_of (advance r n) ≡ left_of r
split-order r n f = piece-split r.content r.size r.offset n f.0

pub advance-Fits :
    (r : SendRequest) (n : ℕ) → Fits (some r) → n ≤ length (chunk r) → Fits (some (advance r n))
advance-Fits r n f bound = (f.0, piece-bound r.content r.size r.offset n f.0 f.1 bound)

pub length-chunk : (r : SendRequest) → Fits (some r) → length (chunk r) ≡ r.size - r.offset
length-chunk r f = omega (
  arith,
  f,
  length-take (r.size - r.offset) (drop r.offset r.content),
  length-drop r.offset r.content,
)
