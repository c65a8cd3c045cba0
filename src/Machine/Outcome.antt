-- ===== src/Machine/Outcome.antt =====
-- What holds of the state when a step ends. `After` is total correctness: a step that reads a null
-- pointer or does not end satisfies nothing. `Along` allows the event loop to go on. Of a process
-- that has exited nothing is said.
use tag_sim.Machine.Defs.{Run, done, exited, fault, going, Step, and_then}

abbrev pub After : {S A : Type 0} → (S → Type 0) → Run S A → Type 0
After P (done a s) = P s
After P (exited s) = Unit {0}
After P (fault s) = ⊥
After P (going s) = ⊥

abbrev pub Along : {S A : Type 0} → (S → Type 0) → Run S A → Type 0
Along P (done a s) = P s
Along P (exited s) = Unit {0}
Along P (fault s) = ⊥
Along P (going s) = P s

-- What holds of the result and the state of a step that returns; no other end is allowed.
abbrev pub Returned : {S A : Type 0} → (A → S → Type 0) → Run S A → Type 0
Returned P (done a s) = P a s
Returned P _ = ⊥

-- What holds of the state however the step ends.
abbrev pub Every : {S A : Type 0} → (S → Type 0) → Run S A → Type 0
Every P (done a s) = P s
Every P (exited s) = P s
Every P (fault s) = P s
Every P (going s) = P s

-- The step returns, exits the process or stops at a fault, and this holds of the state then.
abbrev pub Ends : {S A : Type 0} → (S → Type 0) → Run S A → Type 0
Ends P (done a s) = P s
Ends P (exited s) = P s
Ends P (fault s) = P s
Ends P (going s) = ⊥

-- The step never ends, and this holds of the state in which it goes on, unless the process exits.
abbrev pub Hangs : {S A : Type 0} → (S → Type 0) → Run S A → Type 0
Hangs P (done a s) = ⊥
Hangs P (exited s) = Unit {0}
Hangs P (fault s) = ⊥
Hangs P (going s) = P s

-- The process has exited.
abbrev pub Exited : {S A : Type 0} → Run S A → Type 0
Exited (exited s) = Unit {0}
Exited _ = ⊥

-- A pointer that is null, or points at nothing that may be read, was followed.
abbrev pub Faulted : {S A : Type 0} → Run S A → Type 0
Faulted (fault s) = Unit {0}
Faulted _ = ⊥

pub After-not-Faulted : {S A : Type 0} (P : S → Type 0) (r : Run S A) → After P r → Faulted r → ⊥
After-not-Faulted P (done a s) h f = f
After-not-Faulted P (exited s) h f = f
After-not-Faulted P (fault s) h f = h
After-not-Faulted P (going s) h f = f

module _ {S A : Type 0} (P : S → Type 0) where
  pub After-bind :
      {B : Type 0} (Q : S → Type 0) (r : Run S A) (k : A → Step S B)
      → After P r
      → ((a : A) (s : S) → P s → After Q (k a s))
      → After Q (and_then r k)
  After-bind Q (done a s) k p next = next a s p
  After-bind Q (exited s) k p next = tt
  After-bind Q (fault s) k p next = p
  After-bind Q (going s) k p next = p

  pub Along-bind :
      {B : Type 0} (Q : S → Type 0) (r : Run S A) (k : A → Step S B)
      → After P r
      → ((a : A) (s : S) → P s → Along Q (k a s))
      → Along Q (and_then r k)
  Along-bind Q (done a s) k p next = next a s p
  Along-bind Q (exited s) k p next = tt
  Along-bind Q (fault s) k p next = p
  Along-bind Q (going s) k p next = absurd p

  -- What a step keeps and the next one keeps, also where the first goes on for good.
  pub Along-then :
      {B : Type 0} (r : Run S A) (k : A → Step S B)
      → Along P r
      → ((a : A) (s : S) → P s → Along P (k a s))
      → Along P (and_then r k)
  Along-then (done a s) k p next = next a s p
  Along-then (exited s) k p next = tt
  Along-then (fault s) k p next = p
  Along-then (going s) k p next = p

  pub After-Along : (r : Run S A) → After P r → Along P r
  After-Along (done a s) p = p
  After-Along (exited s) p = tt
  After-Along (fault s) p = p
  After-Along (going s) p = absurd p

  pub After-map : (Q : S → Type 0) (r : Run S A) → ((s : S) → P s → Q s) → After P r → After Q r
  After-map Q (done a s) weaken p = weaken s p
  After-map Q (exited s) weaken p = tt
  After-map Q (fault s) weaken p = p
  After-map Q (going s) weaken p = p

  pub Along-map : (Q : S → Type 0) (r : Run S A) → ((s : S) → P s → Q s) → Along P r → Along Q r
  Along-map Q (done a s) weaken p = weaken s p
  Along-map Q (exited s) weaken p = tt
  Along-map Q (fault s) weaken p = p
  Along-map Q (going s) weaken p = weaken s p

pub Every-bind :
    {S A B : Type 0} (P : S → Type 0) (r : Run S A) (k : A → Step S B)
    → Every P r
    → ((a : A) (s : S) → P s → Every P (k a s))
    → Every P (and_then r k)
Every-bind P (done a s) k p next = next a s p
Every-bind P (exited s) k p next = p
Every-bind P (fault s) k p next = p
Every-bind P (going s) k p next = p

pub Every-map :
    {S A : Type 0} (P Q : S → Type 0) (r : Run S A) → ((s : S) → P s → Q s) → Every P r → Every Q r
Every-map P Q (done a s) weaken p = weaken s p
Every-map P Q (exited s) weaken p = weaken s p
Every-map P Q (fault s) weaken p = weaken s p
Every-map P Q (going s) weaken p = weaken s p

pub Returned-bind :
    {S A B : Type 0} (P : A → S → Type 0) (Q : B → S → Type 0) (r : Run S A) (k : A → Step S B)
    → Returned P r
    → ((a : A) (s : S) → P a s → Returned Q (k a s))
    → Returned Q (and_then r k)
Returned-bind P Q (done a s) k p next = next a s p
Returned-bind P Q (exited s) k p next = absurd p
Returned-bind P Q (fault s) k p next = absurd p
Returned-bind P Q (going s) k p next = absurd p

pub Returned-map :
    {S A : Type 0} (P Q : A → S → Type 0) (r : Run S A)
    → ((a : A) (s : S) → P a s → Q a s)
    → Returned P r
    → Returned Q r
Returned-map P Q (done a s) weaken p = weaken a s p
Returned-map P Q (exited s) weaken p = absurd p
Returned-map P Q (fault s) weaken p = absurd p
Returned-map P Q (going s) weaken p = absurd p

-- Two facts of one run.
pub After-both :
    {S A : Type 0} (P Q : S → Type 0) (r : Run S A)
    → After P r
    → Along Q r
    → After (λ s. P s × Q s) r
After-both P Q (done a s) p q = (p, q)
After-both P Q (exited s) p q = tt
After-both P Q (fault s) p q = p
After-both P Q (going s) p q = p

pub Along-both :
    {S A : Type 0} (P Q : S → Type 0) (r : Run S A)
    → Along P r
    → Along Q r
    → Along (λ s. P s × Q s) r
Along-both P Q (done a s) p q = (p, q)
Along-both P Q (exited s) p q = tt
Along-both P Q (fault s) p q = p
Along-both P Q (going s) p q = (p, q)

pub Returned-Along :
    {S A : Type 0} (P : A → S → Type 0) (Q : S → Type 0) (r : Run S A)
    → ((a : A) (s : S) → P a s → Q s)
    → Returned P r
    → Along Q r
Returned-Along P Q (done a s) weaken p = weaken a s p
Returned-Along P Q (exited s) weaken p = absurd p
Returned-Along P Q (fault s) weaken p = absurd p
Returned-Along P Q (going s) weaken p = absurd p

pub Returned-both :
    {S A : Type 0} (P Q : A → S → Type 0) (r : Run S A)
    → Returned P r
    → Returned Q r
    → Returned (λ a s. P a s × Q a s) r
Returned-both P Q (done a s) p q = (p, q)
Returned-both P Q (exited s) p q = absurd p
Returned-both P Q (fault s) p q = absurd p
Returned-both P Q (going s) p q = absurd p

-- What a step that returns leads to.
pub Returned-Every :
    {S A B : Type 0} (P : A → S → Type 0) (Q : S → Type 0) (r : Run S A) (k : A → Step S B)
    → Returned P r
    → ((a : A) (s : S) → P a s → Every Q (k a s))
    → Every Q (and_then r k)
Returned-Every P Q (done a s) k p next = next a s p
Returned-Every P Q (exited s) k p next = absurd p
Returned-Every P Q (fault s) k p next = absurd p
Returned-Every P Q (going s) k p next = absurd p

pub Hangs-bind :
    {S A B : Type 0} (P Q : S → Type 0) (r : Run S A) (k : A → Step S B)
    → After P r
    → ((a : A) (s : S) → P s → Hangs Q (k a s))
    → Hangs Q (and_then r k)
Hangs-bind P Q (done a s) k p next = next a s p
Hangs-bind P Q (exited s) k p next = tt
Hangs-bind P Q (fault s) k p next = p
Hangs-bind P Q (going s) k p next = absurd p

pub Hangs-then :
    {S A B : Type 0} (P : S → Type 0) (r : Run S A) (k : A → Step S B)
    → Hangs P r
    → Hangs P (and_then r k)
Hangs-then P (done a s) k p = absurd p
Hangs-then P (exited s) k p = tt
Hangs-then P (fault s) k p = p
Hangs-then P (going s) k p = p

pub Ends-bind :
    {S A B : Type 0} (P Q : S → Type 0) (r : Run S A) (k : A → Step S B)
    → Ends P r
    → ((s : S) → P s → Q s)
    → ((a : A) (s : S) → P s → Ends Q (k a s))
    → Ends Q (and_then r k)
Ends-bind P Q (done a s) k p weaken next = next a s p
Ends-bind P Q (exited s) k p weaken next = weaken s p
Ends-bind P Q (fault s) k p weaken next = weaken s p
Ends-bind P Q (going s) k p weaken next = p
