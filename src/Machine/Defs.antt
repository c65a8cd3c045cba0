-- ===== src/Machine/Defs.antt =====
-- How a step ends: it returns, the process has exited, a pointer that is null or points nowhere was
-- used, or it goes on, since the fuel of a loop is used up or a wait never ends.
pub data Run (S A : Type 0) : Type 0 where
  done : A → S → Run S A
  exited : S → Run S A
  fault : S → Run S A
  going : S → Run S A

abbrev pub Step : Type 0 → Type 0 → Type 0
Step S A = S → Run S A

abbrev pub pure : {S A : Type 0} → A → Step S A
pure a s = done a s

module _ {S A B : Type 0} where
  abbrev pub and_then : Run S A → (A → Step S B) → Run S B
  and_then (done a s) k = k a s
  and_then (exited s) k = exited s
  and_then (fault s) k = fault s
  and_then (going s) k = going s

  infixl 5 ◌>>=◌
  abbrev pub ◌>>=◌ : Step S A → (A → Step S B) → Step S B
  ◌>>=◌ m k s = and_then (m s) k

infixl 5 ◌>>◌
abbrev pub ◌>>◌ : {S B : Type 0} → Step S (Unit {0}) → Step S B → Step S B
m >> k = m >>= λ _. k

abbrev pub get : {S : Type 0} → Step S S
get s = done s s

abbrev pub put : {S : Type 0} → (S → S) → Step S (Unit {0})
put f s = done tt (f s)
