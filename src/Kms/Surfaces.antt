-- ===== src/Kms/Surfaces.antt =====
-- Of backend_kms.c and gbm_kmsint.h: surfaces and their two buffers.
pub mod Buffers
pub mod Locks
pub mod Faults
pub mod Frames
use libgbm.Base.{
  ℕ, ◌*◌, ◌%◌, ◌^◌, ℤ, pos, negsuc, is_neg, is_zero, int_leb, false, ◌&&◌, ◌||◌, ◌==◌,
  if◌then◌else◌,
}
use libgbm.Types.{Ptr, null, KmsBo, KmsSurface, zero_bo, zero_surface, a_bo, a_surface}
use libgbm.Machine.{Env, M, pure, crash, ◌>>=◌, ◌>>◌, load_bo, load_surface, store, free, calloc}

-- `surface->bo[n]` for an index that the code has checked: 0, or else 1.
abbrev pub slot : KmsSurface → ℤ → Ptr
slot f n = if is_zero n then f.bo0 else f.bo1

abbrev pub set_slot : KmsSurface → ℤ → Ptr → KmsSurface
set_slot f n p = if is_zero n then record f { bo0 = p } else record f { bo1 = p }

-- `surface->bo[surface->front]`; past the array it faults.
abbrev pub front_bo : KmsSurface → M Ptr
front_bo f = if int_leb f.front (pos 1) then pure (slot f f.front) else crash

-- The object that `gbm_kms_surface_set_bo` makes for a buffer of the GL stack.
abbrev pub surface_bo : KmsSurface → (addr : Ptr) → (fd : ℤ) → (stride : ℕ) → KmsBo
surface_bo f addr fd stride = record zero_bo {
  base = record zero_bo.base {
    gbm = f.base.gbm;
    width = f.base.width;
    height = f.base.height;
    format = f.base.format;
    stride = stride;
  };
  size = stride * f.base.height % 2 ^ 32;
  addr = addr;
  fd = fd;
  num_planes = pos 1;
  allocated = false;
}

module _ (env : Env) where
  -- From the `calloc` on.
  unfoldable pub fill_slot :
      (surface : Ptr) → (n : ℤ) → (addr : Ptr) → (fd : ℤ) → (stride : ℕ) → M ℤ
  fill_slot surface n addr fd stride = do
    bo ← calloc env (a_bo zero_bo)
    if bo == null then pure (negsuc 0) else do
      f ← load_surface surface
      store bo (a_bo (surface_bo f addr fd stride))
      store surface (a_surface (set_slot f n bo))
      pure (pos 0)

  unfoldable pub gbm_kms_surface_set_bo :
      (surface : Ptr) → (n : ℤ) → (addr : Ptr) → (fd : ℤ) → (stride : ℕ) → M ℤ
  unfolding fill_slot
  gbm_kms_surface_set_bo surface n addr fd stride =
      if is_neg n || int_leb (pos 2) n then pure (negsuc 0) else (do
        f ← load_surface surface
        free (slot f n)
        if (addr == null) && (stride == 0)
            then pure (pos 0)
            else fill_slot surface n addr fd stride)

  -- `modifiers` and `count` are not read.
  unfoldable pub gbm_kms_surface_create : (gbm : Ptr) → (width height format flags : ℕ) → M Ptr
  gbm_kms_surface_create gbm width height format flags = do
    surface ← calloc env (a_surface zero_surface)
    if surface == null then pure null else do
      store surface (
          a_surface (record zero_surface {
            base = record {
              gbm = gbm;
              width = width;
              height = height;
              format = format;
              flags = flags;
            };
            front = negsuc 0;
          }))
      pure surface

unfoldable pub gbm_kms_surface_destroy : (surface : Ptr) → M (Unit {0})
gbm_kms_surface_destroy surface = if surface == null then pure tt else free surface

unfoldable pub gbm_kms_surface_lock_front_buffer : (surface : Ptr) → M Ptr
gbm_kms_surface_lock_front_buffer surface = do
  f ← load_surface surface
  if is_neg f.front then pure null else do
    front ← front_bo f
    b ← load_bo front
    store front (a_bo (record b { locked = pos 1 }))
    pure front

unfoldable pub gbm_kms_surface_release_buffer : (surface bo : Ptr) → M (Unit {0})
gbm_kms_surface_release_buffer surface bo = do
  b ← load_bo bo
  store bo (a_bo (record b { locked = pos 0 }))

-- The second buffer is read only if the first is locked.
unfoldable pub gbm_kms_surface_has_free_buffers : (surface : Ptr) → M ℤ
gbm_kms_surface_has_free_buffers surface = do
  f ← load_surface surface
  b0 ← load_bo f.bo0
  if is_zero b0.locked
      then pure (pos 1)
      else do b1 ← load_bo f.bo1; pure (if is_zero b1.locked then pos 1 else pos 0)

-- The inline functions of gbm_kmsint.h, by which the GL stack drives a surface.
unfoldable pub gbm_kms_set_front : (surface : Ptr) → (front : ℤ) → M (Unit {0})
gbm_kms_set_front surface front = do
  f ← load_surface surface
  store surface (a_surface (record f { front = front }))

unfoldable pub gbm_kms_get_front : (surface : Ptr) → M ℤ
gbm_kms_get_front surface = do f ← load_surface surface; pure f.front

unfoldable pub gbm_kms_is_bo_locked : (bo : Ptr) → M ℤ
gbm_kms_is_bo_locked bo = do b ← load_bo bo; pure b.locked

-- `surface->set_bo` is always `gbm_kms_surface_set_bo`.
unfoldable pub gbm_kms_set_bo :
    Env → (surface : Ptr) → (n : ℤ) → (addr : Ptr) → (fd : ℤ) → (stride : ℕ) → M ℤ
gbm_kms_set_bo env surface n addr fd stride = do
  f ← load_surface surface
  gbm_kms_surface_set_bo env surface n addr fd stride
