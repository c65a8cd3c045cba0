-- ===== src/Channel.antt =====
-- What the sending side of proactor_net_epoll.c promises, and that of the last functions of
-- proactor_net_kevent.c: a channel that takes one message at a time and puts its bytes on the wire in
-- order.
use tag_sim.Common.{
  ◌≡◌, sym, ap, ◌∙◌, Option, none, some, List, [], ◌++◌, ℕ, append-nil, append_assoc,
}

abbrev pub Bytes : Type 0
Bytes = List ℕ

-- All bytes that were submitted, those that are on the wire, and what is left of the message that is
-- under way.
pub record Channel : Type 0 where
  pub submitted : Bytes
  pub sent : Bytes
  pub under_way : Option Bytes

-- A message is taken only where none is under way; some of it is put on the wire; it is done when
-- nothing of it is left.
pub data Step (c : Channel) : Channel → Type 0 where
  submit :
      (message : Bytes)
      → c.under_way ≡ none
      → Step c (record c { submitted = c.submitted ++ message; under_way = some message })
  transmit :
      (part rest : Bytes)
      → c.under_way ≡ some (part ++ rest)
      → Step c (record c { sent = c.sent ++ part; under_way = some rest })
  finish : c.under_way ≡ some [] → Step c (record c { under_way = none })

pub data Reach (c : Channel) : Channel → Type 0 where
  here : Reach c c
  next : {d e : Channel} → Reach c d → Step d e → Reach c e

abbrev pub unsent : Option Bytes → Bytes
unsent none = []
unsent (some rest) = rest

-- Nothing is lost, doubled or out of order.
abbrev pub Ordered : Channel → Type 0
Ordered c = c.submitted ≡ c.sent ++ unsent c.under_way

Step-Ordered : {c d : Channel} → Step c d → Ordered c → Ordered d
Step-Ordered {c} (submit message idle) h =
    ap (λ b. b ++ message) (h ∙ ap (λ o. c.sent ++ unsent o) idle ∙ append-nil c.sent)
Step-Ordered {c} (transmit part rest busy) h =
    h ∙ ap (λ o. c.sent ++ unsent o) busy ∙ sym (append_assoc c.sent part rest)
Step-Ordered {c} (finish over) h = h ∙ ap (λ o. c.sent ++ unsent o) over

pub Reach-Ordered : {c d : Channel} → Reach c d → Ordered c → Ordered d
Reach-Ordered here h = h
Reach-Ordered (next r st) h = Step-Ordered st (Reach-Ordered r h)
