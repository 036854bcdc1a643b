-- ===== src/Kms/Query.antt =====
-- Of backend_kms.c: what a buffer object tells of itself, and the export of its planes.
pub mod Export
pub mod Planes
use libgbm.Base.{
  ℕ, ◌-◌, ◌^◌, ℤ, pos, negsuc, is_neg, rounds, int_leb, ◌||◌, ◌&&◌, Option, none, some, Bool,
  get_elem?, if◌then◌else◌,
}
use libgbm.Types.{has_one_plane, Ptr, KmsBo, KmsPlane, BoHandle}
use libgbm.Machine.{
  Env, M, pure, crash, set_errno, ◌>>=◌, ◌>>◌, load_bo, load_device, prime_handle_to_fd,
}
use libgbm.Kms.Formats.{einval}

-- The value of a variable that a call was to store; reading it unset is a fault.
abbrev pub read : {A : Type 0} → Option A → M A
read none = crash
read (some a) = pure a

-- The guard `plane < 0 || bo->num_planes <= plane`.
abbrev pub no_such_plane : KmsBo → ℤ → Bool
no_such_plane b plane = is_neg plane || int_leb b.num_planes plane

-- `bo->planes[plane]`.
abbrev pub plane_at : KmsBo → ℤ → M KmsPlane
plane_at b plane = read (get_elem? b.planes (rounds plane))

unfoldable pub gbm_kms_bo_get_planes : (bo : Ptr) → M ℤ
gbm_kms_bo_get_planes bo = do b ← load_bo bo; pure b.num_planes

unfoldable pub plane_stride : KmsBo → (plane : ℤ) → M ℕ
plane_stride b plane =
    if has_one_plane b then pure b.base.stride else (do p ← plane_at b plane; pure p.stride)

unfoldable pub gbm_kms_bo_get_stride : (bo : Ptr) → (plane : ℤ) → M ℕ
unfolding plane_stride
gbm_kms_bo_get_stride bo plane = do
  b ← load_bo bo
  if no_such_plane b plane then (set_errno einval >> pure 0) else plane_stride b plane

unfoldable pub gbm_kms_bo_get_offset : (bo : Ptr) → (plane : ℤ) → M ℕ
gbm_kms_bo_get_offset bo plane = pure 0

unfoldable pub plane_handle : KmsBo → (plane : ℤ) → M BoHandle
plane_handle b plane =
    if has_one_plane b then pure b.base.handle else (do p ← plane_at b plane; pure p.handle)

-- The handle -1, as its 32 bits.
abbrev pub no_handle : BoHandle
no_handle = 2 ^ 32 - 1

unfoldable pub gbm_kms_bo_get_handle : (bo : Ptr) → (plane : ℤ) → M BoHandle
unfolding plane_handle
gbm_kms_bo_get_handle bo plane = do
  b ← load_bo bo
  if no_such_plane b plane then (set_errno einval >> pure no_handle) else plane_handle b plane

module _ (env : Env) where
  unfoldable pub gbm_kms_bo_get_fd : (bo : Ptr) → M ℤ
  gbm_kms_bo_get_fd bo = do
    b ← load_bo bo
    dev ← load_device b.base.gbm
    r ← prime_handle_to_fd env dev.fd b.base.handle
    if is_neg r.ret then pure r.ret else read r.out

  -- The export of one plane's handle.
  unfoldable pub export_plane : KmsBo → (plane : ℤ) → M ℤ
  unfolding plane_handle
  export_plane b plane = do
    handle ← plane_handle b plane
    dev ← load_device b.base.gbm
    r ← prime_handle_to_fd env dev.fd handle
    if is_neg r.ret then pure (negsuc 0) else read r.out

  unfoldable pub gbm_kms_bo_get_plane_fd : (bo : Ptr) → (plane : ℤ) → M ℤ
  unfolding export_plane
  gbm_kms_bo_get_plane_fd bo plane = do
    b ← load_bo bo
    if no_such_plane b plane then (set_errno einval >> pure (negsuc 0)) else export_plane b plane

  unfoldable pub gbm_kms_bo_get_modifier : (bo : Ptr) → M ℕ
  gbm_kms_bo_get_modifier bo = pure env.format_mod_linear
