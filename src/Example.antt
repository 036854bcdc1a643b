-- ===== src/Example.antt =====
-- backend_example.c, the template of a backend that no target builds. Its functions have empty
-- bodies. The file assigns a member `bo_create_from_egl_image` that `struct gbm_device` does not
-- have; the model leaves that one assignment out. `struct gbm_example_device` is the bare
-- `struct gbm_device`: `kms` stays NULL in it, and is not read.
pub mod Defects
use libgbm.Base.{ℕ, ℤ, pos, is_zero, [], ◌∷◌, ◌==◌, if◌then◌else◌}
use libgbm.Types.{Ptr, null, CString, zero_device, a_device}
use libgbm.Machine.{Env, M, pure, crash, ◌>>=◌, ◌>>◌, store, free, calloc}
use libgbm.DeviceOps.{DeviceOps, GbmBackend}

-- "example".
abbrev pub example_name : CString
example_name = b'e' ∷ b'x' ∷ b'a' ∷ b'm' ∷ b'p' ∷ b'l' ∷ b'e' ∷ []

-- The number by which a device says that its function pointers are those of this backend.
abbrev pub example_table : ℕ
example_table = 1

unfoldable pub gles_init : (dev : Ptr) → M ℤ
gles_init dev = pure (pos 0)

unfoldable pub gbm_example_is_format_supported : (gbm : Ptr) → (format usage : ℕ) → M ℤ
gbm_example_is_format_supported gbm format usage = pure (pos 0)

unfoldable pub gbm_example_bo_destroy : (bo : Ptr) → M (Unit {0})
gbm_example_bo_destroy bo = pure tt

unfoldable pub gbm_example_bo_create : (gbm : Ptr) → (width height format usage : ℕ) → M Ptr
gbm_example_bo_create gbm width height format usage = pure null

unfoldable pub gbm_example_destroy : (gbm : Ptr) → M (Unit {0})
gbm_example_destroy gbm = pure tt

-- The pointers that `example_device_create` stores. The others stay NULL, and a call of one faults.
abbrev pub example_gbm_device : DeviceOps
example_gbm_device = record {
  destroy = gbm_example_destroy;
  is_format_supported = gbm_example_is_format_supported;
  get_format_modifier_plane_count = λ gbm format modifier. crash;
  bo_create = λ gbm width height format usage modifiers count.
      gbm_example_bo_create gbm width height format usage;
  bo_import = λ gbm type buffer usage. crash;
  bo_map = λ bo x y width height flags. crash;
  bo_unmap = λ bo map_data. crash;
  bo_write = λ bo buf count. crash;
  bo_get_fd = λ bo. crash;
  bo_get_planes = λ bo. crash;
  bo_get_handle = λ bo plane. crash;
  bo_get_plane_fd = λ bo plane. crash;
  bo_get_stride = λ bo plane. crash;
  bo_get_offset = λ bo plane. crash;
  bo_get_modifier = λ bo. crash;
  bo_destroy = gbm_example_bo_destroy;
  surface_create = λ gbm width height format flags modifiers count. crash;
  surface_lock_front_buffer = λ surface. crash;
  surface_release_buffer = λ surface bo. crash;
  surface_has_free_buffers = λ surface. crash;
  surface_destroy = λ surface. crash;
}

-- What calloc returned is not tested: the first store faults at NULL.
unfoldable pub example_device_create : Env → (fd : ℤ) → M Ptr
unfolding gles_init
example_device_create env fd = do
  dev ← calloc env (a_device zero_device)
  if dev == null then crash else do
    store dev
        (a_device (record zero_device { fd = fd; table = example_table; name = example_name }))
    ret ← gles_init dev
    if is_zero ret then pure dev else (free dev >> pure null)

-- The symbol `gbm_backend` of this file.
abbrev pub example_gbm_backend : Env → GbmBackend
example_gbm_backend env = record {
  backend_name = example_name;
  create_device = example_device_create env;
}
