-- ===== src/Machine/Store.antt =====
-- The state, runs that may fault, and loads and stores of whole objects.
use libgbm.Base.{ℤ, false, Option, none, some, List, ◌≡◌, ◌≢◌, ◌==◌, if◌then◌else◌, arith}
use libgbm.Types.{Ptr, null, Object, a_bo, a_surface, a_device, KmsBo, KmsSurface, KmsDevice}
use libgbm.Machine.Events.{Event}

abbrev pub Heap : Type 0
Heap = Ptr → Option Object

-- The newest call stands first.
abbrev pub Trace : Type 0
Trace = List Event

pub record State : Type 0 where
  pub heap : Heap
  pub errno : ℤ
  pub trace : Trace

pub data Run (A : Type 0) : Type 0 where
  ok : A → State → Run A
  fault : Run A

abbrev pub M : Type 0 → Type 0
M A = State → Run A

abbrev pub pure : {A : Type 0} → A → M A
pure a s = ok a s

abbrev pub and_then : {A B : Type 0} → Run A → (A → M B) → Run B
and_then (ok a s) k = k a s
and_then fault k = fault

infixl 5 ◌>>=◌ ◌>>◌
abbrev pub ◌>>=◌ : {A B : Type 0} → M A → (A → M B) → M B
◌>>=◌ m k s = and_then (m s) k

abbrev pub ◌>>◌ : {A B : Type 0} → M A → M B → M B
m >> k = m >>= λ _. k

abbrev pub crash : {A : Type 0} → M A
crash s = fault

abbrev pub set_errno : ℤ → M (Unit {0})
set_errno e s = ok tt (record s { errno = e })

abbrev pub write : Heap → Ptr → Option Object → Heap
write h p o q = if q == p then o else h q

abbrev pub store : Ptr → Object → M (Unit {0})
store p o s = ok tt (record s { heap = write s.heap p (some o) })

abbrev pub as_bo : Option Object → M KmsBo
as_bo (some (a_bo b)) = pure b
as_bo _ = crash

abbrev pub as_surface : Option Object → M KmsSurface
as_surface (some (a_surface f)) = pure f
as_surface _ = crash

abbrev pub as_device : Option Object → M KmsDevice
as_device (some (a_device d)) = pure d
as_device _ = crash

abbrev pub load_bo : Ptr → M KmsBo
load_bo p s = as_bo (s.heap p) s

abbrev pub load_surface : Ptr → M KmsSurface
load_surface p s = as_surface (s.heap p) s

abbrev pub load_device : Ptr → M KmsDevice
load_device p s = as_device (s.heap p) s

abbrev pub release : Option Object → Ptr → M (Unit {0})
release none p = crash
release (some _) p = λ s. ok tt (record s { heap = write s.heap p none })

-- `free(p)` does nothing at NULL, and faults at what is not allocated.
unfoldable pub free : Ptr → M (Unit {0})
free p s = if p == 0 then ok tt s else release (s.heap p) p s

pub ne-null : (p : Ptr) → p ≢ null → (p == null) ≡ false
ne-null p h = ground arith

pub write_self : (h : Heap) (p : Ptr) (o : Option Object) → write h p o p ≡ o
write_self h p o = ground arith

pub free-some :
    (p : Ptr) (o : Object) (s : State)
    → p ≢ null
    → s.heap p ≡ some o
    → free p s ≡ ok tt (record s { heap = write s.heap p none })
unfolding free
free-some p o s ne e = rw (ne-null p ne, e)
