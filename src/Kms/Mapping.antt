-- ===== src/Kms/Mapping.antt =====
-- Of backend_kms.c: the counted CPU mapping of a buffer object, and writes through it.
pub mod Counting
pub mod Sessions
pub mod Access
use libgbm.Base.{
  ℕ, ℤ, pos, negsuc, is_neg, is_zero, neg, increment, decrement, not, ◌||◌, Option, none, some, ltb,
  ◌==◌, if◌then◌else◌,
}
use libgbm.Types.{Ptr, null, KmsBo, a_bo, MapOut, no_mapping}
use libgbm.Machine.{Env, Event, M, pure, set_errno, ◌>>=◌, ◌>>◌, load_bo, store, kms_bo_map, emit}
use libgbm.Kms.Formats.{einval}

abbrev pub efault : ℤ
efault = pos 14

-- `&bo->addr` as a result pointer: a call that stores nothing leaves the member alone.
abbrev pub set_addr : Option Ptr → KmsBo → KmsBo
set_addr none b = b
set_addr (some a) b = record b { addr = a }

-- `bo->map_ref++; return 0;`
unfoldable pub count_mapping : (bo : Ptr) → KmsBo → M ℤ
count_mapping bo b = store bo (a_bo (record b { map_ref = increment b.map_ref })) >> pure (pos 0)

module _ (env : Env) where
  -- The call of kms_bo_map, made when nothing is mapped.
  unfoldable pub map_first : (bo : Ptr) → KmsBo → M ℤ
  map_first bo b = do
    r ← kms_bo_map env b.bo
    store bo (a_bo (set_addr r.out b))
    if is_neg r.ret then pure r.ret else count_mapping bo (set_addr r.out b)

  unfoldable pub gbm_kms_bo_map_ref : (bo : Ptr) → M ℤ
  gbm_kms_bo_map_ref bo = do
    b ← load_bo bo
    if is_zero b.map_ref then map_first bo b else count_mapping bo b

  -- `bo->map_ref--`, and the end of the mapping when the count is zero.
  unfoldable pub unmap_last : (bo : Ptr) → KmsBo → M (Unit {0})
  unmap_last bo b = do
    store bo (a_bo b)
    if is_zero b.map_ref
        then (do emit env (Event.kms_bo_unmap b.bo); store bo (a_bo (record b { addr = null })))
        else pure tt

  unfoldable pub gbm_kms_bo_map_unref : (bo : Ptr) → M (Unit {0})
  gbm_kms_bo_map_unref bo = do
    b ← load_bo bo
    if b.addr == null then pure tt else unmap_last bo (record b { map_ref = decrement b.map_ref })

  unfoldable pub gbm_kms_bo_map : (bo : Ptr) → (x y width height flags : ℕ) → M MapOut
  gbm_kms_bo_map bo x y width height flags = do
    b ← load_bo bo
    if not (x == 0) || not (y == 0) || not (width == b.base.width) || not (height == b.base.height)
        then (set_errno einval >> pure no_mapping)
        else do
          ret ← gbm_kms_bo_map_ref bo
          if is_neg ret then (set_errno (neg ret) >> pure no_mapping) else do
            b' ← load_bo bo
            pure (record {
              address = b'.addr;
              stride = some b'.base.stride;
              map_data = some b'.addr;
            })

  unfoldable pub gbm_kms_bo_unmap : (bo map_data : Ptr) → M (Unit {0})
  gbm_kms_bo_unmap bo map_data = do
    b ← load_bo bo
    if (map_data == null) || not (map_data == b.addr) then pure tt else gbm_kms_bo_map_unref bo

  unfoldable pub gbm_kms_bo_write : (bo buf : Ptr) → (count : ℕ) → M ℤ
  gbm_kms_bo_write bo buf count = do
    b ← load_bo bo
    if b.addr == null
        then (set_errno efault >> pure (negsuc 0))
        else if ltb b.size count
        then (set_errno einval >> pure (negsuc 0))
        else (emit env (Event.memcpy b.addr buf count) >> pure (pos 0))
