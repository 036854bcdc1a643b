-- ===== src/Machine/Resources.antt =====
-- The resources that the libraries hand out, counted along the calls made: drivers of libkms, its
-- buffer objects, their mappings, file descriptors other than 0, and the handles that
-- drmPrimeFDToHandle names, once for each time that it names one (the kernel itself keeps no such
-- count: it names an open handle again for the same buffer, and one GEM_CLOSE ends it). Descriptor
-- 0 is not counted: the code takes it for no descriptor and never closes it.
use libgbm.Base.{
  ℕ, ◌+◌, ℤ, pos, negsuc, is_neg, is_zero, ◌≡◌, Bool, false, Option, none, some, [], ◌∷◌, ◌&&◌,
  ◌==◌, if◌then◌else◌, arith,
}
use libgbm.Types.{Ptr, null}
use libgbm.Machine.Events.{Event}
use libgbm.Machine.Store.{Trace}

pub data Resource : Type 0 where
  driver : Ptr → Resource
  kms_object : Ptr → Resource
  mapping : (bo : Ptr) → Resource
  descriptor : ℤ → Resource
  gem_handle : (dev_fd : ℤ) → (handle : ℕ) → Resource

abbrev same_int : ℤ → ℤ → Bool
same_int (pos a) (pos b) = a == b
same_int (negsuc a) (negsuc b) = a == b
same_int (pos a) (negsuc b) = false
same_int (negsuc a) (pos b) = false

abbrev same : Resource → Resource → Bool
same (driver p) (driver q) = p == q
same (kms_object p) (kms_object q) = p == q
same (mapping p) (mapping q) = p == q
same (descriptor m) (descriptor n) = same_int m n
same (gem_handle d g) (gem_handle e h) = same_int d e && (g == h)
same _ _ = false

-- 1 at the resource itself, else 0.
unfoldable pub unit_of : Resource → Resource → ℕ
unit_of r q = if same r q then 1 else 0

module _ {A : Type 0} (f : A → Resource) (r : Resource) where
  -- A result that a call stored, as the resource that it stands for.
  abbrev pub unit_of_out : Option A → ℕ
  unit_of_out none = 0
  unit_of_out (some a) = unit_of r (f a)

-- A descriptor as the code holds it: 0 stands for none.
abbrev pub unit_of_fd : Resource → ℤ → ℕ
unit_of_fd r fd = if is_zero fd then 0 else unit_of r (descriptor fd)

abbrev unit_of_fd_out : Resource → Option ℤ → ℕ
unit_of_fd_out r none = 0
unit_of_fd_out r (some fd) = unit_of_fd r fd

-- A driver as a device holds it: NULL stands for none.
abbrev pub unit_of_driver : Resource → Ptr → ℕ
unit_of_driver r p = if p == null then 0 else unit_of r (driver p)

abbrev pub unit_of_driver_out : Resource → Option Ptr → ℕ
unit_of_driver_out r none = 0
unit_of_driver_out r (some p) = unit_of_driver r p

-- How much of `r` a call hands out.
abbrev pub gain : Resource → Event → ℕ
gain r (Event.kms_create fd ret out) = if is_zero ret then unit_of_driver_out r out else 0
gain r (Event.kms_bo_create kms attr ret out) =
    if is_zero ret then unit_of_out kms_object r out else 0
gain r (Event.kms_bo_map bo ret out) = if is_neg ret then 0 else unit_of r (mapping bo)
gain r (Event.prime_handle_to_fd dev_fd handle ret out) =
    if is_zero ret then unit_of_fd_out r out else 0
gain r (Event.prime_fd_to_handle dev_fd fd ret out) =
    if is_zero ret then unit_of_out (gem_handle dev_fd) r out else 0
gain r _ = 0

-- How much of `r` a call gives back.
abbrev pub loss : Resource → Event → ℕ
loss r (Event.kms_bo_destroy bo) = unit_of r (kms_object bo)
loss r (Event.kms_bo_unmap bo) = unit_of r (mapping bo)
loss r (Event.close fd) = unit_of_fd r fd
loss r (Event.gem_close dev_fd handle) = unit_of r (gem_handle dev_fd handle)
loss r _ = 0

abbrev pub acquired : Resource → Trace → ℕ
acquired r [] = 0
acquired r (e ∷ t) = gain r e + acquired r t

abbrev pub released : Resource → Trace → ℕ
released r [] = 0
released r (e ∷ t) = loss r e + released r t

-- From `t` to `u`, `n r` more of each resource is held.
abbrev pub Holds : (Resource → ℕ) → Trace → Trace → Type 0
Holds n t u = (r : Resource) → acquired r u + released r t ≡ released r u + acquired r t + n r

-- From `t` to `u` each resource is given back as often as it is handed out.
abbrev pub Balanced : Trace → Trace → Type 0
Balanced = Holds (λ r. 0)

pub Holds-refl : (t : Trace) → Balanced t t
Holds-refl t r = omega arith

pub Holds-trans :
    (t u v : Trace) (m n : Resource → ℕ) → Holds m t u → Holds n u v → Holds (λ r. m r + n r) t v
Holds-trans t u v m n h k r = omega (arith, h r, k r)
