-- ===== src/DeviceOps.antt =====
-- The function pointers of gbmint.h's `struct gbm_device`: what gbm.c asks of a backend.
use libgbm.Base.{ℕ, ℤ}
use libgbm.Types.{Ptr, CString, BoHandle, ImportBuffer, MapOut}
use libgbm.Machine.{M}

pub record DeviceOps : Type 0 where
  pub destroy : (gbm : Ptr) → M (Unit {0})
  pub is_format_supported : (gbm : Ptr) → (format usage : ℕ) → M ℤ
  pub get_format_modifier_plane_count : (gbm : Ptr) → (format modifier : ℕ) → M ℤ
  pub bo_create :
      (gbm : Ptr) → (width height format usage : ℕ) → (modifiers : Ptr) → (count : ℕ) → M Ptr
  pub bo_import : (gbm : Ptr) → (type : ℕ) → ImportBuffer → (usage : ℕ) → M Ptr
  pub bo_map : (bo : Ptr) → (x y width height flags : ℕ) → M MapOut
  pub bo_unmap : (bo map_data : Ptr) → M (Unit {0})
  pub bo_write : (bo buf : Ptr) → (count : ℕ) → M ℤ
  pub bo_get_fd : (bo : Ptr) → M ℤ
  pub bo_get_planes : (bo : Ptr) → M ℤ
  pub bo_get_handle : (bo : Ptr) → (plane : ℤ) → M BoHandle
  pub bo_get_plane_fd : (bo : Ptr) → (plane : ℤ) → M ℤ
  pub bo_get_stride : (bo : Ptr) → (plane : ℤ) → M ℕ
  pub bo_get_offset : (bo : Ptr) → (plane : ℤ) → M ℕ
  pub bo_get_modifier : (bo : Ptr) → M ℕ
  pub bo_destroy : (bo : Ptr) → M (Unit {0})
  pub surface_create :
      (gbm : Ptr) → (width height format flags : ℕ) → (modifiers : Ptr) → (count : ℕ) → M Ptr
  pub surface_lock_front_buffer : (surface : Ptr) → M Ptr
  pub surface_release_buffer : (surface bo : Ptr) → M (Unit {0})
  pub surface_has_free_buffers : (surface : Ptr) → M ℤ
  pub surface_destroy : (surface : Ptr) → M (Unit {0})

-- `struct gbm_backend`.
pub record GbmBackend : Type 0 where
  pub backend_name : CString
  pub create_device : (fd : ℤ) → M Ptr
