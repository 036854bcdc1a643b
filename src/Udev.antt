-- ===== src/Udev.antt =====
-- common.c: the device node behind a descriptor, by udev.
pub mod Leaks
use libgbm.Base.{ℕ, ℤ, is_neg, Option, none, some, ◌==◌, if◌then◌else◌}
use libgbm.Types.{Ptr, null, CString}
use libgbm.Machine.{Env, Event, Trace, M, pure, crash, ◌>>=◌, ◌>>◌, emit, fstat}

-- libudev, and strdup of the C library: `none` is NULL.
pub record UdevLibrary : Type 0 where
  pub udev_new : Trace → Ptr
  pub udev_device_new_from_devnum : Trace → (udev : Ptr) → (devnum : ℕ) → Ptr
  pub udev_device_get_devnode : Trace → (device : Ptr) → Option CString
  pub strdup : Trace → CString → Option CString

module _ (env : Env) (lib : UdevLibrary) where
  unfoldable pub udev_device_from_devnum : (udev : Ptr) → (devnum : ℕ) → M Ptr
  udev_device_from_devnum udev devnum s =
      let device = lib.udev_device_new_from_devnum s.trace udev devnum in
      (emit env (Event.udev_device_new udev devnum device) >> pure device) s

  -- `_gbm_udev_device_new_from_fd`.
  unfoldable pub gbm_udev_device_new_from_fd : (udev : Ptr) → (fd : ℤ) → M Ptr
  unfolding udev_device_from_devnum
  gbm_udev_device_new_from_fd udev fd = do
    r ← fstat env fd
    if is_neg r.ret
        then pure null
        else elim r.out [ none ↦ crash | some buf ↦ udev_device_from_devnum udev buf.st_rdev ]

  unfoldable pub new_udev : M Ptr
  new_udev s = let udev = lib.udev_new s.trace in (emit env (Event.udev_new udev) >> pure udev) s

  -- `strdup(const_device_name)`, where the node is known.
  unfoldable pub device_name : (device : Ptr) → M (Option CString)
  device_name device s = elim (lib.udev_device_get_devnode s.trace device) [
    | none ↦ pure none s
    | some name ↦ (emit env (Event.strdup name) >> pure (lib.strdup s.trace name)) s
  ]

  -- `_gbm_fd_get_device_name`.
  unfoldable pub gbm_fd_get_device_name : (fd : ℤ) → M (Option CString)
  unfolding new_udev gbm_udev_device_new_from_fd device_name
  gbm_fd_get_device_name fd = do
    udev ← new_udev
    device ← gbm_udev_device_new_from_fd udev fd
    if device == null then pure none else do
      name ← device_name device
      emit env (Event.udev_device_unref device)
      emit env (Event.udev_unref udev)
      pure name
