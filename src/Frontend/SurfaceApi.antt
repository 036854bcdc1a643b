-- ===== src/Frontend/SurfaceApi.antt =====
-- Of gbm.c: the functions on a surface.
use libgbm.Base.{ℕ, ℤ, if◌then◌else◌}
use libgbm.Types.{Ptr, null}
use libgbm.Machine.{M, pure, set_errno, ◌>>=◌, ◌>>◌}
use libgbm.Frontend.Dispatch.{Tables, device_ops, surface_ops}
use libgbm.Frontend.Creation.{modifiers_mismatch}
use libgbm.Kms.Formats.{einval}

module _ (tables : Tables) where
  unfoldable pub gbm_surface_create : (gbm : Ptr) → (width height format flags : ℕ) → M Ptr
  gbm_surface_create gbm width height format flags = do
    ops ← device_ops tables gbm
    ops.surface_create gbm width height format flags null 0

  unfoldable pub gbm_surface_create_with_modifiers :
      (gbm : Ptr) → (width height format : ℕ) → (modifiers : Ptr) → (count : ℕ) → M Ptr
  gbm_surface_create_with_modifiers gbm width height format modifiers count =
      if modifiers_mismatch modifiers count then (set_errno einval >> pure null) else (do
        ops ← device_ops tables gbm
        ops.surface_create gbm width height format 0 modifiers count)

  unfoldable pub gbm_surface_destroy : (surf : Ptr) → M (Unit {0})
  gbm_surface_destroy surf = do ops ← surface_ops tables surf; ops.surface_destroy surf

  unfoldable pub gbm_surface_lock_front_buffer : (surf : Ptr) → M Ptr
  gbm_surface_lock_front_buffer surf = do
    ops ← surface_ops tables surf
    ops.surface_lock_front_buffer surf

  unfoldable pub gbm_surface_release_buffer : (surf bo : Ptr) → M (Unit {0})
  gbm_surface_release_buffer surf bo = do
    ops ← surface_ops tables surf
    ops.surface_release_buffer surf bo

  unfoldable pub gbm_surface_has_free_buffers : (surf : Ptr) → M ℤ
  gbm_surface_has_free_buffers surf = do
    ops ← surface_ops tables surf
    ops.surface_has_free_buffers surf
