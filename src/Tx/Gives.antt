-- ===== src/Tx/Gives.antt =====
-- What a command that returns gives, with its value.
use dstm_p.Common.{ℕ, ◌≡◌, refl}
use dstm_p.Tx.State.{State, Run, ok, aborted, out_of_rounds, Cmd, and_then}
use dstm_p.Tx.Frame.{Ends, returns, leaves, stops}

-- If the command returns, its value and state satisfy `P`; if it aborts, its state satisfies `Q`.
pub data Gives {A : Type 0} (P : A → State → Type 0) (Q : State → Type 0) : Run A → Type 0 where
  gives : {a : A} {s : State} → P a s → Gives P Q (ok a s)
  quits : {r : ℕ} {s : State} → Q s → Gives P Q (aborted r s)
  starves : Gives P Q out_of_rounds

pub Gives-bind :
    {A B : Type 0} {P : A → State → Type 0} {R : B → State → Type 0} {Q : State → Type 0}
    {r : Run A} {k : A → Cmd B}
    → Gives P Q r
    → ((a : A) (s : State) → P a s → Gives R Q (k a s))
    → Gives R Q (and_then r k)
Gives-bind (gives p) next = next _ _ p
Gives-bind (quits q) next = quits q
Gives-bind starves next = starves

-- From the state alone, and what an equation with a return says.
pub Gives-Ends :
    {A : Type 0} {P Q : State → Type 0} {R : A → State → Type 0} {r : Run A}
    → Ends P Q r
    → ((a : A) (s : State) → r ≡ ok a s → P s → R a s)
    → Gives R Q r
Gives-Ends (returns p) f = gives (f _ _ refl p)
Gives-Ends (leaves q) f = quits q
Gives-Ends stops f = starves

pub Gives-weaken :
    {A : Type 0} {P R : A → State → Type 0} {Q : State → Type 0} {r : Run A}
    → ((a : A) (s : State) → P a s → R a s)
    → Gives P Q r
    → Gives R Q r
Gives-weaken f (gives p) = gives (f _ _ p)
Gives-weaken f (quits q) = quits q
Gives-weaken f starves = starves

-- What follows, from the value and the state.
pub Gives-then :
    {A B : Type 0} {P : A → State → Type 0} {R Q : State → Type 0} {r : Run A} {k : A → Cmd B}
    → Gives P Q r
    → ((a : A) (s : State) → P a s → Ends R Q (k a s))
    → Ends R Q (and_then r k)
Gives-then (gives p) next = next _ _ p
Gives-then (quits q) next = leaves q
Gives-then starves next = stops
