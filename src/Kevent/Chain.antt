-- ===== src/Kevent/Chain.antt =====
-- A well-formed list of sockets: what its pointers lead through, and when a change of the memory spares it.
use tag_sim.Common.{
  inr, ==ℤ_iff, inl, Bool-cases, ==ℤ_refl, ◌≡◌, sym, ◌∙◌, Bool, true, false, ◌||◌, Option, some,
  List, [], ◌∷◌, ℤ, ◌==ℤ◌, arith,
}
use mathlib.Core.Bool.{false≢true}
use tag_sim.Kevent.State.{null, Socket, update}

abbrev pub Cells : Type 0
Cells = List (ℤ × Socket)

abbrev pub has : ℤ → Cells → Bool
has q [] = false
has q ((p, c) ∷ xs) = (q ==ℤ p) || has q xs

-- From `p` the `next` pointers lead through the sockets `xs`, each once, to null.
pub data Chain (heap : ℤ → Option Socket) : ℤ → Cells → Type 0 where
  end : {p : ℤ} → (p ==ℤ null) ≡ true → Chain heap p []
  link :
      {p q : ℤ} {c : Socket} {xs : Cells}
      → (p ==ℤ null) ≡ false
      → heap p ≡ some c
      → c.next ≡ q
      → has p xs ≡ false
      → Chain heap q xs
      → Chain heap p ((p, c) ∷ xs)

abbrev pub addresses : Cells → List ℤ
addresses [] = []
addresses ((p, c) ∷ xs) = p ∷ addresses xs

abbrev pub descriptors : Cells → List ℤ
descriptors [] = []
descriptors ((p, c) ∷ xs) = c.sock ∷ descriptors xs

-- A chain survives a change that spares its own addresses.
pub Chain-frame :
    {heap heap' : ℤ → Option Socket} {p : ℤ} {xs : Cells}
    → Chain heap p xs
    → ((q : ℤ) → has q xs ≡ true → heap' q ≡ heap q)
    → Chain heap' p xs
Chain-frame (end e) same = end e
Chain-frame (link {p} ne at nx out rest) same =
    link ne (same p (ground (arith, ==ℤ_refl p)) ∙ at) nx out
      (Chain-frame rest (λ q m. same q (ground arith)))

pub spared :
    (heap : ℤ → Option Socket) (p q : ℤ) (xs : Cells) (cell : Option Socket)
    → has p xs ≡ false
    → has q xs ≡ true
    → update heap p cell q ≡ heap q
spared heap p q xs cell out m = elim (Bool-cases (q ==ℤ p)) [
  | inl same ↦ absurd (false≢true (sym out ∙ rw (← (==ℤ_iff q p).0 same) m))
  | inr other ↦ rw other
]
