-- ===== src/Machine/Callbacks.antt =====
-- The client's callbacks that were called, and the runs that call none.
use libgbm.Base.{
  ℤ, Bool, true, false, ◌≡◌, refl, subst, some, none, Option, [], ◌∷◌, if◌then◌else◌, ◌==◌,
  Bool-cases, inl, inr,
}
use libgbm.Types.{Ptr, Object, a_bo, a_surface, a_device}
use libgbm.Machine.Events.{Event}
use libgbm.Machine.Store.{
  Trace, State, Run, M, ok, fault, pure, and_then, ◌>>=◌, as_bo, as_device, load_bo, load_device,
  release, free, crash, store, set_errno,
}
use libgbm.Machine.Rules.{Returns, returns}

-- The calls of callbacks among the calls made.
abbrev pub callbacks : Trace → Trace
callbacks [] = []
callbacks (Event.user_callback address bo user_data ∷ t) =
    Event.user_callback address bo user_data ∷ callbacks t
callbacks (_ ∷ t) = callbacks t

-- A run that, if it ends, has called the callbacks `t`.
abbrev pub HasCalled : {A : Type 0} → Trace → Run A → Type 0
HasCalled t (ok a u) = callbacks u.trace ≡ t
HasCalled t fault = Unit {0}

-- The code calls no callback.
pub record IsSilent {A : Type 0} (m : M A) : Type 0 where
  pub calls_none : (s : State) → HasCalled (callbacks s.trace) (m s)

module _ {A B : Type 0} where
  and_then-HasCalled :
      (t : Trace) (r : Run A) (k : A → M B)
      → HasCalled t r
      → ((a : A) → IsSilent (k a))
      → HasCalled t (and_then r k)
  and_then-HasCalled t (ok a u) k e next =
      subst (λ x. HasCalled x (k a u)) e ((next a).calls_none u)
  and_then-HasCalled t fault k e next = tt

  pub bind-IsSilent :
      {m : M A} {k : A → M B} → IsSilent m → ((a : A) → IsSilent (k a)) → IsSilent (m >>= k)
  bind-IsSilent {m} {k} first next = record {
    calls_none = λ s. and_then-HasCalled (callbacks s.trace) (m s) k (first.calls_none s) next;
  }

pub if-IsSilent :
    {A : Type 0} {m k : M A} (c : Bool) → IsSilent m → IsSilent k → IsSilent (if c then m else k)
if-IsSilent true left right = left
if-IsSilent false left right = right

pub pure-IsSilent : {A : Type 0} (a : A) → IsSilent (pure a)
pure-IsSilent a = record { calls_none = λ s. refl }

pub crash-IsSilent : {A : Type 0} → IsSilent (crash {A = A})
crash-IsSilent = record { calls_none = λ s. tt }

pub set_errno-IsSilent : (e : ℤ) → IsSilent (set_errno e)
set_errno-IsSilent e = record { calls_none = λ s. refl }

pub store-IsSilent : (p : Ptr) (o : Object) → IsSilent (store p o)
store-IsSilent p o = record { calls_none = λ s. refl }

as_bo-HasCalled : (o : Option Object) (s : State) → HasCalled (callbacks s.trace) (as_bo o s)
as_bo-HasCalled none s = tt
as_bo-HasCalled (some (a_bo b)) s = refl
as_bo-HasCalled (some (a_surface f)) s = tt
as_bo-HasCalled (some (a_device d)) s = tt

pub load_bo-IsSilent : (p : Ptr) → IsSilent (load_bo p)
load_bo-IsSilent p = record { calls_none = λ s. as_bo-HasCalled (s.heap p) s }

as_device-HasCalled :
    (o : Option Object) (s : State) → HasCalled (callbacks s.trace) (as_device o s)
as_device-HasCalled none s = tt
as_device-HasCalled (some (a_bo b)) s = tt
as_device-HasCalled (some (a_surface f)) s = tt
as_device-HasCalled (some (a_device d)) s = refl

pub load_device-IsSilent : (p : Ptr) → IsSilent (load_device p)
load_device-IsSilent p = record { calls_none = λ s. as_device-HasCalled (s.heap p) s }

release-HasCalled :
    (o : Option Object) (p : Ptr) (s : State) → HasCalled (callbacks s.trace) (release o p s)
release-HasCalled none p s = tt
release-HasCalled (some x) p s = refl

pub free-IsSilent : (p : Ptr) → IsSilent (free p)
unfolding free
free-IsSilent p = record {
  calls_none = λ s. elim (Bool-cases (p == 0)) [
    | inl z ↦ rw z refl
    | inr z ↦ rw z (release-HasCalled (s.heap p) p s)
  ];
}

-- What a run leaves, with the callbacks that it has called.
pub Returns-HasCalled :
    {A : Type 0} {P : A → State → Type 0} {t : Trace} {r : Run A}
    → Returns P r
    → HasCalled t r
    → Returns (λ a u. P a u × (callbacks u.trace ≡ t)) r
Returns-HasCalled (returns p) e = returns (p, e)
