-- ===== src/Client/System.antt =====
-- A whole system: devices are opened and closed while calls are made on those that are open.
pub mod Invariant
pub mod Safety
use libgbm.Base.{
  Bool, true, false, ℕ, ◌+◌, ℤ, Option, List, [], ◌∷◌, ◌++◌, ◌≡◌, ◌≢◌, refl, ap, ◌∙◌, some, none,
  ◌==◌, if◌then◌else◌, arith, Bool-cases, inl, inr,
}
use libgbm.Types.{Ptr, null, KmsDevice, KmsBo, Object, a_bo, a_device, a_surface}
use libgbm.Machine.{
  Env, IsLawful, State, ok, write, write_self, Returns-ok, Balanced, Resource, unit_of_driver,
}
use libgbm.Kms.Table.{kms_gbm_device, kms_device_create, kms_table}
use libgbm.Frontend.Dispatch.{Tables}
use libgbm.Frontend.Device.{gbm_create_device, gbm_device_destroy}
use libgbm.Frontend.Devices.{
  Opened, failed, made, IsOpen, create_device-Opened, device_destroy-last,
}
use libgbm.Client.Pool.{IsWithout, IsDevice, Only}
use libgbm.Client.Rebasing.{Pool-absent, Pool-join, Pool-leave, IsFresh-join, IsFresh-leave}
use libgbm.Client.Ledger.{Ledger, Ledger-device, Ledger-same}
use libgbm.Client.Reach.{IsFresh, Step, Reach, here, next, Reach-Ledger}

-- Which devices are open, as the client keeps book of them.
abbrev pub Book : Type 0
Book = Ptr → Bool

abbrev pub no_devices : Book
no_devices p = false

abbrev pub entered : Book → Ptr → Bool → Book
entered ds p listed q = if q == p then listed else ds q

abbrev pub Listed : Book → Ptr → Type 0
Listed ds p = ds p ≡ true

module _ (env : Env) (tables : Tables) where
  -- What the client did from the state `s` on: the devices that are open, the descriptors that were
  -- handed to it, and the state. It closes a device when it has no buffer objects of it.
  pub data System (s : State) : Book → List ℤ → State → Type 0 where
    begins : System s no_devices [] s
    opens :
        {ds : Book} {fds : List ℤ} {u v : State} (fd : ℤ) (p : Ptr)
        → System s ds fds u
        → gbm_create_device env (kms_device_create env) fd u ≡ ok p v
        → p ≢ null
        → System s (entered ds p true) fds v
    opens_none :
        {ds : Book} {fds : List ℤ} {u v : State} (fd : ℤ)
        → System s ds fds u
        → gbm_create_device env (kms_device_create env) fd u ≡ ok null v
        → System s ds fds v
    calls :
        {ds : Book} {fds gs : List ℤ} {u v : State}
        → System s ds fds u
        → Step env tables (Listed ds) u gs v
        → System s ds (gs ++ fds) v
    closes :
        {ds : Book} {fds : List ℤ} {u v : State} (p : Ptr)
        → System s ds fds u
        → Listed ds p
        → IsWithout (Only p) u.heap
        → gbm_device_destroy tables p u ≡ ok tt v
        → System s (entered ds p false) fds v

-- The driver of the device at an address.
abbrev pub driver_at : Option Object → Ptr
driver_at (some (a_device d)) = d.kms
driver_at (some (a_bo b)) = null
driver_at (some (a_surface s)) = null
driver_at none = null

-- The drivers of the devices that were opened, the newest first.
abbrev pub drivers_of :
    {env : Env} {tables : Tables} {s : State} {ds : Book} {fds : List ℤ} {u : State}
    → System env tables s ds fds u
    → List Ptr
drivers_of begins = []
drivers_of (opens {v} fd p before e ne) = driver_at (v.heap p) ∷ drivers_of before
drivers_of (opens_none fd before e) = drivers_of before
drivers_of (calls before step) = drivers_of before
drivers_of (closes p before listed empty e) = drivers_of before

abbrev pub drivers_held : List Ptr → Resource → ℕ
drivers_held [] r = 0
drivers_held (p ∷ ps) r = unit_of_driver r p + drivers_held ps r

-- No buffer object stands in the heap.
abbrev pub IsClear : State → Type 0
IsClear s = (q : Ptr) (b : KmsBo) → s.heap q ≢ some (a_bo b)
