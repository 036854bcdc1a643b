-- ===== src/Frontend/Device.antt =====
-- Of gbm.c: the functions on a device.
use libgbm.Base.{ℕ, ◌+◌, ◌-◌, ◌%◌, ◌^◌, ℤ, is_neg, true, Option, none, some, ◌==◌, if◌then◌else◌}
use libgbm.Types.{Ptr, null, CString, Stat, a_device}
use libgbm.Machine.{Env, M, pure, crash, set_errno, ◌>>=◌, ◌>>◌, load_device, store, fstat}
use libgbm.Frontend.Dispatch.{Tables, device_ops}
use libgbm.Kms.Formats.{einval}

unfoldable pub gbm_device_get_fd : (gbm : Ptr) → M ℤ
gbm_device_get_fd gbm = do dev ← load_device gbm; pure dev.fd

unfoldable pub gbm_device_get_backend_name : (gbm : Ptr) → M CString
gbm_device_get_backend_name gbm = do dev ← load_device gbm; pure dev.name

module _ (tables : Tables) where
  unfoldable pub gbm_device_is_format_supported : (gbm : Ptr) → (format usage : ℕ) → M ℤ
  gbm_device_is_format_supported gbm format usage = do
    ops ← device_ops tables gbm
    ops.is_format_supported gbm format usage

  unfoldable pub gbm_device_get_format_modifier_plane_count :
      (gbm : Ptr) → (format modifier : ℕ) → M ℤ
  gbm_device_get_format_modifier_plane_count gbm format modifier = do
    ops ← device_ops tables gbm
    ops.get_format_modifier_plane_count gbm format modifier

  -- `refcount` is unsigned: from 0 it wraps.
  unfoldable pub gbm_device_destroy : (gbm : Ptr) → M (Unit {0})
  gbm_device_destroy gbm = do
    dev ← load_device gbm
    let refcount = (dev.refcount + 2 ^ 32 - 1) % 2 ^ 32
    store gbm (a_device (record dev { refcount = refcount }))
    if refcount == 0 then (do ops ← device_ops tables gbm; ops.destroy gbm) else pure tt

-- The test of the descriptor in `gbm_create_device`: what fstat stored, if it is a character
-- device.
unfoldable pub character_device : Env → (fd : ℤ) → M (Option Stat)
character_device env fd = if is_neg fd then pure none else do
  r ← fstat env fd
  if is_neg r.ret
      then pure none
      else elim r.out [ none ↦ crash | some buf ↦ pure (if buf.is_chr then some buf else none) ]

-- `_gbm_create_device` of backend.c is the second argument.
unfoldable pub gbm_create_device : Env → ((fd : ℤ) → M Ptr) → (fd : ℤ) → M Ptr
unfolding character_device
gbm_create_device env create fd = do
  found ← character_device env fd
  elim found [
    | none ↦ set_errno einval >> pure null
    | some buf ↦ do
      gbm ← create fd
      if gbm == null then pure null else do
        dev ← load_device gbm
        store gbm (a_device (record dev { dummy = true; stat = buf; refcount = 1 }))
        pure gbm
  ]
