-- ===== src/Frontend/Buffer.antt =====
-- Of gbm.c: the functions on a buffer object.
use libgbm.Base.{ℕ, ℤ, pos, ◌||◌, ◌==◌, if◌then◌else◌}
use libgbm.Types.{Ptr, null, BoHandle, a_bo, MapOut, no_mapping}
use libgbm.Machine.{M, pure, set_errno, ◌>>=◌, ◌>>◌, load_bo, store}
use libgbm.Format.{bits_per_pixel}
use libgbm.Frontend.Dispatch.{Tables, bo_ops}
use libgbm.Kms.Formats.{einval}

unfoldable pub gbm_bo_get_width : (bo : Ptr) → M ℕ
gbm_bo_get_width bo = do b ← load_bo bo; pure b.base.width

unfoldable pub gbm_bo_get_height : (bo : Ptr) → M ℕ
gbm_bo_get_height bo = do b ← load_bo bo; pure b.base.height

unfoldable pub gbm_bo_get_format : (bo : Ptr) → M ℕ
gbm_bo_get_format bo = do b ← load_bo bo; pure b.base.format

unfoldable pub gbm_bo_get_bpp : (bo : Ptr) → M ℕ
gbm_bo_get_bpp bo = do b ← load_bo bo; pure (bits_per_pixel b.base.format)

unfoldable pub gbm_bo_get_device : (bo : Ptr) → M Ptr
gbm_bo_get_device bo = do b ← load_bo bo; pure b.base.gbm

unfoldable pub gbm_bo_get_handle : (bo : Ptr) → M BoHandle
gbm_bo_get_handle bo = do b ← load_bo bo; pure b.base.handle

unfoldable pub gbm_bo_set_user_data : (bo data' destroy_user_data : Ptr) → M (Unit {0})
gbm_bo_set_user_data bo data' destroy_user_data = do
  b ← load_bo bo
  store bo (
      a_bo (record b {
        base = record b.base { user_data = data'; destroy_user_data = destroy_user_data };
      }))

unfoldable pub gbm_bo_get_user_data : (bo : Ptr) → M Ptr
gbm_bo_get_user_data bo = do b ← load_bo bo; pure b.base.user_data

module _ (tables : Tables) where
  unfoldable pub gbm_bo_get_stride_for_plane : (bo : Ptr) → (plane : ℤ) → M ℕ
  gbm_bo_get_stride_for_plane bo plane = do ops ← bo_ops tables bo; ops.bo_get_stride bo plane

  unfoldable pub gbm_bo_get_stride : (bo : Ptr) → M ℕ
  unfolding gbm_bo_get_stride_for_plane
  gbm_bo_get_stride bo = gbm_bo_get_stride_for_plane bo (pos 0)

  unfoldable pub gbm_bo_get_offset : (bo : Ptr) → (plane : ℤ) → M ℕ
  gbm_bo_get_offset bo plane = do ops ← bo_ops tables bo; ops.bo_get_offset bo plane

  unfoldable pub gbm_bo_get_fd : (bo : Ptr) → M ℤ
  gbm_bo_get_fd bo = do ops ← bo_ops tables bo; ops.bo_get_fd bo

  unfoldable pub gbm_bo_get_plane_count : (bo : Ptr) → M ℤ
  gbm_bo_get_plane_count bo = do ops ← bo_ops tables bo; ops.bo_get_planes bo

  unfoldable pub gbm_bo_get_handle_for_plane : (bo : Ptr) → (plane : ℤ) → M BoHandle
  gbm_bo_get_handle_for_plane bo plane = do ops ← bo_ops tables bo; ops.bo_get_handle bo plane

  unfoldable pub gbm_bo_get_fd_for_plane : (bo : Ptr) → (plane : ℤ) → M ℤ
  gbm_bo_get_fd_for_plane bo plane = do ops ← bo_ops tables bo; ops.bo_get_plane_fd bo plane

  unfoldable pub gbm_bo_get_modifier : (bo : Ptr) → M ℕ
  gbm_bo_get_modifier bo = do ops ← bo_ops tables bo; ops.bo_get_modifier bo

  unfoldable pub gbm_bo_write : (bo buf : Ptr) → (count : ℕ) → M ℤ
  gbm_bo_write bo buf count = do ops ← bo_ops tables bo; ops.bo_write bo buf count

  -- The caller's pointers `stride` and `map_data` are only tested here.
  unfoldable pub gbm_bo_map :
      (bo : Ptr) → (x y width height flags : ℕ) → (stride map_data : Ptr) → M MapOut
  gbm_bo_map bo x y width height flags stride map_data =
      if (bo == null) || (width == 0) || (height == 0) || (stride == null) || (map_data == null)
      then (set_errno einval >> pure no_mapping)
      else (do ops ← bo_ops tables bo; ops.bo_map bo x y width height flags)

  unfoldable pub gbm_bo_unmap : (bo map_data : Ptr) → M (Unit {0})
  gbm_bo_unmap bo map_data = do ops ← bo_ops tables bo; ops.bo_unmap bo map_data

  -- `callback` is what calling a `destroy_user_data` does.
  unfoldable pub gbm_bo_destroy :
      (callback : (address bo user_data : Ptr) → M (Unit {0})) → (bo : Ptr) → M (Unit {0})
  gbm_bo_destroy callback bo = do
    b ← load_bo bo
    if b.base.destroy_user_data == null
        then pure tt
        else callback b.base.destroy_user_data bo b.base.user_data
    ops ← bo_ops tables bo
    ops.bo_destroy bo
