-- ===== src/Kms/Table.antt =====
-- Of backend_kms.c: the device, the table `kms_gbm_device` and the symbol `gbm_backend`.
use libgbm.Base.{ℕ, ℤ, is_zero, [], ◌∷◌, ◌==◌, if◌then◌else◌}
use libgbm.Types.{Ptr, null, CString, zero_device, a_device}
use libgbm.Machine.{Env, M, pure, ◌>>=◌, ◌>>◌, store, free, calloc, kms_create}
use libgbm.DeviceOps.{DeviceOps, GbmBackend}
use libgbm.Kms.Formats.{gbm_kms_is_format_supported, gbm_kms_get_format_modifier_plane_count}
use libgbm.Kms.Mapping.{gbm_kms_bo_map, gbm_kms_bo_unmap, gbm_kms_bo_write}
use libgbm.Kms.Lifetime.{stored, gbm_kms_bo_create, gbm_kms_bo_destroy}
use libgbm.Kms.Query.{
  gbm_kms_bo_get_fd, gbm_kms_bo_get_planes, gbm_kms_bo_get_handle, gbm_kms_bo_get_plane_fd,
  gbm_kms_bo_get_stride, gbm_kms_bo_get_offset, gbm_kms_bo_get_modifier,
}
use libgbm.Kms.Import.{gbm_kms_bo_import}
use libgbm.Kms.Surfaces.{
  gbm_kms_surface_create, gbm_kms_surface_lock_front_buffer, gbm_kms_surface_release_buffer,
  gbm_kms_surface_has_free_buffers, gbm_kms_surface_destroy,
}

-- "kms".
abbrev pub kms_name : CString
kms_name = b'k' ∷ b'm' ∷ b's' ∷ []

-- The number by which a device says that its function pointers are those of `kms_gbm_device`.
abbrev pub kms_table : ℕ
kms_table = 0

unfoldable pub gbm_kms_destroy : (gbm : Ptr) → M (Unit {0})
gbm_kms_destroy gbm = free gbm

abbrev pub kms_gbm_device : Env → DeviceOps
kms_gbm_device env = record {
  destroy = gbm_kms_destroy;
  is_format_supported = gbm_kms_is_format_supported;
  get_format_modifier_plane_count = gbm_kms_get_format_modifier_plane_count env;
  bo_create = λ gbm width height format usage modifiers count.
      gbm_kms_bo_create env gbm width height format usage;
  bo_import = gbm_kms_bo_import env;
  bo_map = gbm_kms_bo_map env;
  bo_unmap = gbm_kms_bo_unmap env;
  bo_write = gbm_kms_bo_write env;
  bo_get_fd = gbm_kms_bo_get_fd env;
  bo_get_planes = gbm_kms_bo_get_planes;
  bo_get_handle = gbm_kms_bo_get_handle;
  bo_get_plane_fd = gbm_kms_bo_get_plane_fd env;
  bo_get_stride = gbm_kms_bo_get_stride;
  bo_get_offset = gbm_kms_bo_get_offset;
  bo_get_modifier = gbm_kms_bo_get_modifier env;
  bo_destroy = gbm_kms_bo_destroy env;
  surface_create = λ gbm width height format flags modifiers count.
      gbm_kms_surface_create env gbm width height format flags;
  surface_lock_front_buffer = gbm_kms_surface_lock_front_buffer;
  surface_release_buffer = gbm_kms_surface_release_buffer;
  surface_has_free_buffers = gbm_kms_surface_has_free_buffers;
  surface_destroy = gbm_kms_surface_destroy;
}

unfoldable pub kms_device_create : Env → (fd : ℤ) → M Ptr
kms_device_create env fd = do
  dev ← calloc env (a_device zero_device)
  if dev == null then pure null else do
    let d = record zero_device { name = kms_name; table = kms_table; fd = fd }
    store dev (a_device d)
    r ← kms_create env fd
    store dev (a_device (record d { kms = stored r.out null }))
    if is_zero r.ret then pure dev else (free dev >> pure null)

abbrev pub gbm_backend : Env → GbmBackend
gbm_backend env = record { backend_name = kms_name; create_device = kms_device_create env }
