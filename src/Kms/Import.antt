-- ===== src/Kms/Import.antt =====
-- Of backend_kms.c: import of wl_buffers and of dma-buf descriptors.
pub mod Handles
pub mod Single
pub mod Sharing
pub mod Multiple
pub mod WlPlanes
pub mod Silence
pub mod Wayland
pub mod Errors
use libgbm.Base.{
  ℕ, zero, suc, ℤ, pos, rounds, to_u32, is_zero, int_leb, true, not, ◌&&◌, ◌||◌, ltb, Option, none,
  some, List, [], ◌∷◌, get_elem?, set, ◌==◌, if◌then◌else◌,
}
use libgbm.Types.{
  Ptr, null, KmsBo, KmsPlane, ImportFdData, ImportFdModifierData, WlKmsBuffer, ImportBuffer,
  wl_buffer, fd_data, fd_modifier_data, zero_bo, a_bo, max_planes,
}
use libgbm.Machine.{
  Env, M, pure, crash, set_errno, ◌>>=◌, ◌>>◌, load_device, store, calloc, prime_fd_to_handle,
  wayland_kms_buffer_get,
}
use libgbm.Format.{gbm_format_canonicalize}
use libgbm.Kms.Formats.{einval, mod_invalid}
use libgbm.Kms.Query.{read}

abbrev pub import_wl_buffer : ℕ
import_wl_buffer = 0x5501

abbrev pub import_egl_image : ℕ
import_egl_image = 0x5502

abbrev pub import_fd : ℕ
import_fd = 0x5503

abbrev pub import_fd_modifier : ℕ
import_fd_modifier = 0x5504

-- `for (i = 0; i < n; i++) bo->planes[i] = ...`, from index `i` on: a read past the source or a
-- write past the array faults.
unfoldable pub copy_planes : ℕ → ℕ → List KmsPlane → List KmsPlane → M (List KmsPlane)
copy_planes zero i source planes = pure planes
copy_planes (suc n) i [] planes = crash
copy_planes (suc n) i (p ∷ source) planes =
    if ltb i max_planes then copy_planes n (suc i) source (set planes i p) else crash

-- Either every plane of the wl_buffer, or one.
unfoldable pub wl_planes : WlKmsBuffer → KmsBo → M KmsBo
unfolding copy_planes
wl_planes buffer b =
    if not (int_leb buffer.num_planes (pos 0)) && int_leb buffer.num_planes (pos max_planes)
    then (do
      planes ← copy_planes (rounds buffer.num_planes) 0 buffer.planes b.planes
      pure (record b { num_planes = buffer.num_planes; planes = planes }))
    else pure (record b { num_planes = pos 1 })

-- The planes of a dma-buf import, zipped from the two arrays.
abbrev pub zip_planes : List ℕ → List ℤ → List KmsPlane
zip_planes [] strides = []
zip_planes (h ∷ handles) [] = []
zip_planes (h ∷ handles) (s ∷ strides) =
    record { handle = h; stride = to_u32 s } ∷ zip_planes handles strides

-- The object with the members that each import sets.
abbrev pub imported_bo : (gbm : Ptr) → (width height format stride handle : ℕ) → KmsBo
imported_bo gbm width height format stride handle = record zero_bo {
  base = record zero_bo.base {
    gbm = gbm;
    width = width;
    height = height;
    format = format;
    stride = stride;
    handle = handle;
  };
}

module _ (env : Env) (gbm : Ptr) where
  unfoldable pub gbm_kms_import_wl_buffer : (buffer : Ptr) → M Ptr
  unfolding wl_planes
  gbm_kms_import_wl_buffer resource = do
    found ← wayland_kms_buffer_get env resource
    elim found [
      | none ↦ set_errno einval >> pure null
      | some buffer ↦ do
        bo ← calloc env (a_bo zero_bo)
        if bo == null then pure null else do
          b ←
              wl_planes buffer (
                imported_bo gbm buffer.width buffer.height buffer.format buffer.stride
                  buffer.handle)
          store bo (a_bo b)
          pure bo
    ]

  unfoldable pub gbm_kms_import_fd : ImportFdData → M Ptr
  gbm_kms_import_fd data' = do
    dev ← load_device gbm
    r ← prime_fd_to_handle env dev.fd data'.fd
    if not (is_zero r.ret) then pure null else do
      bo ← calloc env (a_bo zero_bo)
      if bo == null then pure null else do
        handle ← read r.out
        let b =
            imported_bo gbm data'.width data'.height (gbm_format_canonicalize data'.format)
              data'.stride handle
        store bo (a_bo (record b { num_planes = pos 1; allocated_handle = true }))
        pure bo

  -- The loop over the descriptors: `none` is the early return, else the handles.
  unfoldable pub import_handles : ℕ → List ℤ → M (Option (List ℕ))
  import_handles zero fds = pure (some [])
  import_handles (suc n) [] = crash
  import_handles (suc n) (fd ∷ fds) = do
    dev ← load_device gbm
    r ← prime_fd_to_handle env dev.fd fd
    if not (is_zero r.ret) then pure none else do
      handle ← read r.out
      rest ← import_handles n fds
      elim rest [ none ↦ pure none | some handles ↦ pure (some (handle ∷ handles)) ]

  -- What follows once every descriptor has its handle.
  unfoldable pub modifier_bo : ImportFdModifierData → List ℕ → M Ptr
  unfolding copy_planes
  modifier_bo data' handles = do
    bo ← calloc env (a_bo zero_bo)
    if bo == null then pure null else do
      stride ← read (get_elem? data'.strides 0)
      handle ← read (get_elem? handles 0)
      let b =
          imported_bo gbm data'.width data'.height (gbm_format_canonicalize data'.format)
            (to_u32 stride) handle
      planes ← copy_planes data'.num_fds 0 (zip_planes handles data'.strides) b.planes
      store bo (
          a_bo
            (record b { allocated_handle = true; num_planes = pos data'.num_fds; planes = planes }))
      pure bo

  unfoldable pub gbm_kms_import_fd_modifier : ImportFdModifierData → M Ptr
  unfolding import_handles modifier_bo
  gbm_kms_import_fd_modifier data' =
      if not (data'.modifier == env.format_mod_linear) && not (data'.modifier == mod_invalid)
      then (set_errno einval >> pure null)
      else if (data'.num_fds == 0) || ltb max_planes data'.num_fds
      then (set_errno einval >> pure null)
      else (do
        found ← import_handles data'.num_fds data'.fds
        elim found [ none ↦ pure null | some handles ↦ modifier_bo data' handles ])

  -- The `void *` is read as the type that `type` names; another pointer there is a fault.
  import_as_wl_buffer : ImportBuffer → M Ptr
  import_as_wl_buffer (wl_buffer p) = gbm_kms_import_wl_buffer p
  import_as_wl_buffer (fd_data d) = crash
  import_as_wl_buffer (fd_modifier_data d) = crash

  import_as_fd : ImportBuffer → M Ptr
  import_as_fd (fd_data d) = gbm_kms_import_fd d
  import_as_fd (wl_buffer p) = crash
  import_as_fd (fd_modifier_data d) = crash

  import_as_fd_modifier : ImportBuffer → M Ptr
  import_as_fd_modifier (fd_modifier_data d) = gbm_kms_import_fd_modifier d
  import_as_fd_modifier (wl_buffer p) = crash
  import_as_fd_modifier (fd_data d) = crash

  unfoldable pub gbm_kms_bo_import : (type : ℕ) → ImportBuffer → (usage : ℕ) → M Ptr
  unfolding import_as_wl_buffer import_as_fd import_as_fd_modifier
  gbm_kms_bo_import type buffer usage =
      if type == import_wl_buffer
      then import_as_wl_buffer buffer
      else if type == import_fd
      then import_as_fd buffer
      else if type == import_fd_modifier
      then import_as_fd_modifier buffer
      else (set_errno einval >> pure null)
