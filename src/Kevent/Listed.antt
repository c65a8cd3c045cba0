-- ===== src/Kevent/Listed.antt =====
-- The event loop leaves the proactor's list of sockets as it is, so that a later disposal closes what
-- it would have closed before.
use tag_sim.Common.{
  ℕ, ◌<◌, ◌≡◌, refl, sym, ap, ◌∙◌, subst, true, false, ◌||◌, Bool-cases, inl, inr, Option, none,
  some, [], ◌∷◌, ◌++◌, ℤ, ◌==ℤ◌, ==ℤ_iff, ==ℤ_refl, length, arith, suc,
}
use tag_sim.Machine.{Every, Every-map, Returned, Returned-map}
use tag_sim.Kevent.State.{null, Socket, Os, State, Log, calloc, update}
use tag_sim.Kevent.Lifecycle.{dispose}
use tag_sim.Kevent.Loop.{run}
use tag_sim.Kevent.Sockets.{closes, frees}
use tag_sim.Kevent.Chain.{Cells, has, Chain, end, link, addresses, descriptors, spared}
use tag_sim.Kevent.Dispose.{last_closed, Disposed, dispose-Disposed}
use tag_sim.Kevent.Keep.{filled}
use tag_sim.Kevent.Keep.Known.{Known, Keeps, run-Good}

-- The fields of a socket that hold the list together, and its descriptor.
abbrev link_of : Option Socket → Option (ℤ × ℤ)
link_of none = none
link_of (some c) = some (c.next, c.sock)

-- The allocator never answers with the address of a socket of the list.
abbrev pub SparesList : Os → Cells → Type 0
SparesList os xs = (log : Log) → has (os.sys log calloc) xs ≡ false

-- The list is the one of `s`, and nothing was closed or freed.
abbrev Listed : Cells → State → Known
Listed xs s heap sockets ends closed freed =
    (sockets ≡ s.proactor.sockets)
    × (ends ≡ last_closed s.proactor)
    × (closed ≡ closes s.log)
    × (freed ≡ frees s.log)
    × ((q : ℤ) → has q xs ≡ true → link_of (heap q) ≡ link_of (s.heap q))

-- A write that keeps the links of the socket at `p`.
update_link :
    (heap : ℤ → Option Socket) (p q : ℤ) (cell : Option Socket)
    → link_of cell ≡ link_of (heap p)
    → link_of (update heap p cell q) ≡ link_of (heap q)
update_link heap p q cell same = elim (Bool-cases (q ==ℤ p)) [
  | inl e ↦ rw e (same ∙ ap (λ q. link_of (heap q)) (sym ((==ℤ_iff q p).0 e)))
  | inr e ↦ rw e refl
]

Listed-Keeps : (os : Os) (xs : Cells) (s : State) → SparesList os xs → Keeps os (Listed xs s)
Listed-Keeps os xs s spares = record {
  accepts = λ {heap} {sockets} {ends} {closed} {freed} log fd addr h. (
    h.0,
    h.1,
    h.2,
    h.3,
    λ q m. ap link_of (spared heap (os.sys log calloc) q xs _ (spares log) m) ∙ h.4 q m,
  );
  reads_end = λ {heap} {sockets} {ends} {closed} {freed} {p} {c} addr at h. (
    h.0,
    h.1,
    h.2,
    h.3,
    λ q m.
        update_link heap p q (some (record c { remote_addr = addr })) (ap link_of (sym at))
        ∙ h.4 q m,
  );
  reads_some =
      λ {heap} {sockets} {ends} {closed} {freed} {p} {c} {buffer} log addr n at has_buffer r h. (
        h.0,
        h.1,
        h.2,
        h.3,
        λ q m. update_link heap p q (some (filled c buffer addr n)) (ap link_of (sym at)) ∙ h.4 q m,
      );
}

-- The same list in another memory: the sockets may differ in what does not hold the list together.
record Relinked (heap : ℤ → Option Socket) (p : ℤ) (xs : Cells) : Type 0 where
  cells : Cells
  chain : Chain heap p cells
  same_has : (q : ℤ) → has q cells ≡ has q xs
  same_addresses : addresses cells ≡ addresses xs
  same_descriptors : descriptors cells ≡ descriptors xs
  same_length : length cells ≡ length xs

linked :
    (o : Option Socket) {next sock : ℤ}
    → link_of o ≡ some (next, sock)
    → (c : Socket) × (o ≡ some c) × (c.next ≡ next) × (c.sock ≡ sock)
linked none e = cc
linked (some c) e = (c, refl, ground arith, ground arith)

head_inside : (p : ℤ) (c : Socket) (xs : Cells) → has p ((p, c) ∷ xs) ≡ true
head_inside p c xs = rw (==ℤ_refl p) refl

relink :
    {heap heap' : ℤ → Option Socket} {p : ℤ} {xs : Cells}
    → Chain heap p xs
    → ((q : ℤ) → has q xs ≡ true → link_of (heap' q) ≡ link_of (heap q))
    → Relinked heap' p xs
relink (end e) same = record {
  cells = [];
  chain = end e;
  same_has = λ q. refl;
  same_addresses = refl;
  same_descriptors = refl;
  same_length = refl;
}
relink {heap} {heap'} (link {p} {q} {c} {xs} ne at nx out rest) same =
    let inside : (q : ℤ) → has q xs ≡ true → has q ((p, c) ∷ xs) ≡ true = λ q m. ground arith in
    let tail : Relinked heap' q xs = relink rest (λ q m. same q (inside q m)) in
    let found = linked (heap' p) (same p (head_inside p c xs) ∙ ap link_of at) in
    record {
      cells = (p, found.0) ∷ tail.cells;
      chain = link ne found.1 (found.2 ∙ nx) (tail.same_has p ∙ out) tail.chain;
      same_has = λ q. ap (λ b. (q ==ℤ p) || b) (tail.same_has q);
      same_addresses = ap (λ l. p ∷ l) tail.same_addresses;
      same_descriptors =
          ap (λ a. a ∷ descriptors tail.cells) found.3 ∙ ap (λ l. c.sock ∷ l) tail.same_descriptors;
      same_length = ap suc tail.same_length;
    }

-- `u` is left by a disposal of the sockets `xs`, with the proactor and the log of `s` behind it.
pub record ListClosed (xs : Cells) (s u : State) : Type 0 where
  pub closed : closes u.log ≡ closes s.log ++ (descriptors xs ++ last_closed s.proactor)
  pub freed : frees u.log ≡ frees s.log ++ addresses xs

module _ (os : Os) (xs : Cells) (s : State) where
  dispose-ListClosed :
      (fuel : ℕ) (proactor : ℤ) (t : State)
      → (proactor ==ℤ null) ≡ false
      → Chain s.heap s.proactor.sockets xs
      → length xs < fuel
      → Listed xs s t.heap t.proactor.sockets (last_closed t.proactor) (closes t.log) (frees t.log)
      → Returned (λ _ u. ListClosed xs s u) (dispose os fuel proactor t)
  dispose-ListClosed fuel proactor t given chain enough h =
      let list = relink chain h.4 in
      Returned-map (λ _ u. Disposed list.cells t u) (λ _ u. ListClosed xs s u)
        (dispose os fuel proactor t)
        (λ _ u k. record {
          closed = k.closed ∙ rw (h.2, list.same_descriptors, h.1);
          freed = k.freed ∙ rw (h.3, list.same_addresses);
        })
        (dispose-Disposed os proactor fuel list.cells t given
          (subst (λ p. Chain t.heap p list.cells) (sym h.0) list.chain)
          (omega (arith, list.same_length)))

  -- The sockets of the proactor form a chain `xs`, of which the allocator hands out no address again.
  -- However `proactor_net_run` ends, whatever events it reports, and whatever the callbacks and other
  -- threads request: if the proactor is then disposed of, with more fuel than sockets, the descriptors
  -- closed since the start are those of the chain in their order, then the wake pipe and the queue, and
  -- the blocks freed are those of the chain. The loop itself closes and frees nothing, and what it has
  -- accepted is not among what the disposal closes.
  pub run_then_dispose :
      (rounds fuel : ℕ) (proactor : ℤ)
      → (proactor ==ℤ null) ≡ false
      → SparesList os xs
      → Chain s.heap s.proactor.sockets xs
      → length xs < fuel
      → Every
          (λ t. Returned (λ _ u. ListClosed xs s u) (dispose os fuel proactor t))
          (run os rounds proactor s)
  run_then_dispose rounds fuel proactor given spares chain enough =
      Every-map
        (λ t.
          Listed xs s t.heap t.proactor.sockets (last_closed t.proactor) (closes t.log)
            (frees t.log))
        _ (run os rounds proactor s)
        (λ t h. dispose-ListClosed fuel proactor t given chain enough h)
        (run-Good os (Listed xs s) (Listed-Keeps os xs s spares) rounds proactor s
          (refl, refl, refl, refl, λ q m. refl))
