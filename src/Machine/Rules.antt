-- ===== src/Machine/Rules.antt =====
-- Total correctness of a run: it does not fault, and its result and state satisfy a postcondition.
use libgbm.Base.{◌≡◌, ◌≢◌, refl, subst, some, none}
use libgbm.Types.{Ptr, null, Object}
use libgbm.Machine.Store.{State, Run, ok, fault, M, and_then, write, free, free-some}

pub data Returns {A : Type 0} (P : A → State → Type 0) : Run A → Type 0 where
  returns : {a : A} {s : State} → P a s → Returns P (ok a s)

-- The postcondition at the result of a run that ends.
abbrev EndsIn : {A : Type 0} → (A → State → Type 0) → Run A → Type 0
EndsIn P (ok a s) = P a s
EndsIn P fault = ⊥

module _ {A : Type 0} {P : A → State → Type 0} where
  returned : {r : Run A} → Returns P r → EndsIn P r
  returned (returns p) = p

  pub Returns-ok : {r : Run A} {a : A} {s : State} → Returns P r → r ≡ ok a s → P a s
  Returns-ok x e = subst (EndsIn P) e (returned x)

  pub Returns-bind :
      {B : Type 0} {Q : B → State → Type 0} {r : Run A} {k : A → M B}
      → Returns P r
      → ((a : A) (s : State) → P a s → Returns Q (k a s))
      → Returns Q (and_then r k)
  Returns-bind (returns p) next = next _ _ p

  pub Returns-mono :
      {Q : A → State → Type 0} {r : Run A}
      → Returns P r
      → ((a : A) (s : State) → P a s → Q a s)
      → Returns Q r
  Returns-mono (returns p) weaken = returns (weaken _ _ p)

-- Freeing a live object takes it from the heap.
pub free-Returns :
    (p : Ptr) (o : Object) (s : State)
    → p ≢ null
    → s.heap p ≡ some o
    → Returns (λ _ u. (u.trace ≡ s.trace) × (u.heap ≡ write s.heap p none)) (free p s)
free-Returns p o s ne at = rw (free-some p o s ne at) (returns (refl, refl))
