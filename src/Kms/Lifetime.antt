-- ===== src/Kms/Lifetime.antt =====
-- Of backend_kms.c: creation and destruction of buffer objects.
pub mod Ownership
pub mod Creation
pub mod DescriptorZero
pub mod Stages
pub mod Silence
use libgbm.Base.{
  ℕ, zero, suc, ◌*◌, ◌%◌, ◌^◌, bit_and, ℤ, pos, is_zero, neg, rounds, Bool, true, not, Option, none,
  some, List, [], ◌∷◌, ◌==◌, if◌then◌else◌,
}
use libgbm.Types.{has_one_plane, Ptr, null, KmsBo, KmsPlane, zero_bo, a_bo}
use libgbm.Machine.{
  Env, Event, KmsAttr, M, pure, crash, set_errno, ◌>>=◌, ◌>>◌, load_bo, load_device, store, free,
  emit, calloc, kms_bo_create, kms_bo_get_prop, prime_handle_to_fd, or_else,
}
use libgbm.Format.{gbm_format_canonicalize}
use libgbm.Kms.Formats.{einval, is_32bpp}
use libgbm.Kms.Mapping.{gbm_kms_bo_map_ref}

abbrev pub when : Bool → M (Unit {0}) → M (Unit {0})
when b m = if b then m else pure tt

-- The array `attr`.
abbrev pub kms_attributes : (cursor : Bool) → (width height : ℕ) → List KmsAttr
kms_attributes cursor width height =
    KmsAttr.bo_type
    ∷ (if cursor then KmsAttr.bo_type_cursor_64x64_a8r8g8b8 else KmsAttr.bo_type_scanout_x8r8g8b8)
    ∷ KmsAttr.width
    ∷ KmsAttr.value width
    ∷ KmsAttr.height
    ∷ KmsAttr.value height
    ∷ KmsAttr.terminate_prop_list
    ∷ []

-- `usage & (uint32_t)FLAG`.
abbrev pub has_flag : ℕ → ℕ → Bool
has_flag usage flag = not (bit_and usage flag == 0)

abbrev pub use_cursor : ℕ
use_cursor = 2

abbrev pub use_write : ℕ
use_write = 8

abbrev pub stored : Option ℕ → ℕ → ℕ
stored none old = old
stored (some new) old = new

-- The members that are set once the libkms object exists.
abbrev pub new_bo : (gbm kms_bo : Ptr) → (width height fourcc : ℕ) → (handle stride : ℕ) → KmsBo
new_bo gbm kms_bo width height fourcc handle stride = record zero_bo {
  base = record zero_bo.base {
    gbm = gbm;
    width = width;
    height = height;
    format = fourcc;
    handle = handle;
    stride = stride;
  };
  bo = kms_bo;
  size = stride * height % 2 ^ 32;
  num_planes = pos 1;
  allocated = true;
}

module _ (env : Env) where
  unfoldable pub gbm_kms_bo_close_handle : (fd : ℤ) → (handle : ℕ) → M (Unit {0})
  gbm_kms_bo_close_handle fd handle =
      if handle == 0 then pure tt else emit env (Event.gem_close fd handle)

  -- The loop over `bo->planes`; past the end of the array it faults.
  unfoldable pub close_planes : (gbm : Ptr) → ℕ → List KmsPlane → M (Unit {0})
  close_planes gbm zero planes = pure tt
  close_planes gbm (suc n) [] = crash
  close_planes gbm (suc n) (p ∷ planes) = do
    dev ← load_device gbm
    gbm_kms_bo_close_handle dev.fd p.handle
    close_planes gbm n planes

  -- The branch for `bo->allocated`.
  unfoldable pub release_allocated : KmsBo → M (Unit {0})
  release_allocated b = do
    when (not (b.addr == null)) (emit env (Event.kms_bo_unmap b.bo))
    when (not (is_zero b.fd)) (emit env (Event.close b.fd))
    when (not (b.bo == null)) (emit env (Event.kms_bo_destroy b.bo))

  -- The branch for `bo->allocated_handle`.
  unfoldable pub release_handles : KmsBo → M (Unit {0})
  release_handles b =
      if has_one_plane b
      then (do dev ← load_device b.base.gbm; gbm_kms_bo_close_handle dev.fd b.base.handle)
      else close_planes b.base.gbm (rounds b.num_planes) b.planes

  unfoldable pub gbm_kms_bo_destroy : (bo : Ptr) → M (Unit {0})
  gbm_kms_bo_destroy bo = if bo == null then pure tt else do
    b ← load_bo bo
    if b.allocated then release_allocated b else when b.allocated_handle (release_handles b)
    free bo

  -- The label `error` of `gbm_kms_bo_create`.
  unfoldable pub create_failed : (bo : Ptr) → M Ptr
  create_failed bo = gbm_kms_bo_destroy bo >> pure null

  -- "Map to the user space for bo_write".
  unfoldable pub create_mapping : (bo : Ptr) → (usage : ℕ) → M Ptr
  create_mapping bo usage =
      if has_flag usage use_write
      then (do
        ret ← gbm_kms_bo_map_ref env bo
        if is_zero ret then pure bo else (set_errno (neg ret) >> create_failed bo))
      else pure bo

  -- The reading of the object's properties, and the export of its descriptor.
  unfoldable pub create_export : (gbm bo kms_bo : Ptr) → (width height fourcc usage : ℕ) → M Ptr
  create_export gbm bo kms_bo width height fourcc usage = do
    handle ← kms_bo_get_prop env kms_bo KmsAttr.handle
    stride ← kms_bo_get_prop env kms_bo KmsAttr.pitch
    let b = new_bo gbm kms_bo width height fourcc (stored handle 0) (stored stride 0)
    store bo (a_bo b)
    dev ← load_device gbm
    r ← prime_handle_to_fd env dev.fd b.base.handle
    store bo (a_bo (record b { fd = or_else r.out b.fd }))
    if is_zero r.ret then create_mapping bo usage else create_failed bo

  -- "Create BO".
  unfoldable pub create_storage : (gbm bo : Ptr) → (width height fourcc usage : ℕ) → M Ptr
  create_storage gbm bo width height fourcc usage = do
    dev ← load_device gbm
    r ← kms_bo_create env dev.kms (kms_attributes (has_flag usage use_cursor) width height)
    store bo (a_bo (record zero_bo { bo = stored r.out null }))
    if is_zero r.ret
        then create_export gbm bo (stored r.out null) width height fourcc usage
        else (set_errno (neg r.ret) >> create_failed bo)

  -- `modifiers` and `count` are not read.
  unfoldable pub gbm_kms_bo_create : (gbm : Ptr) → (width height format usage : ℕ) → M Ptr
  gbm_kms_bo_create gbm width height format usage = do
    bo ← calloc env (a_bo zero_bo)
    if bo == null then pure null else do
      let fourcc = gbm_format_canonicalize format
      if is_32bpp fourcc
          then create_storage gbm bo width height fourcc usage
          else (set_errno einval >> create_failed bo)
