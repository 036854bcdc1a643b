-- ===== src/Kms/Import/Silence.antt =====
-- No import calls a callback of the client.
use libgbm.Base.{
  true, to_u32, ℕ, zero, suc, ℤ, pos, is_zero, not, ltb, rounds, get_elem?, set, Option, none, some,
  List, [], ◌∷◌, ◌==◌,
}
use libgbm.Types.{
  Ptr, null, KmsBo, KmsPlane, ImportBuffer, wl_buffer, fd_data, fd_modifier_data, ImportFdData,
  ImportFdModifierData, WlKmsBuffer, a_bo, zero_bo, max_planes,
}
use libgbm.Machine.{
  Env, M, IsSilent, bind-IsSilent, if-IsSilent, pure-IsSilent, load_device-IsSilent, crash-IsSilent,
  store-IsSilent, refuse-IsSilent, calloc-IsSilent, prime_fd_to_handle-IsSilent,
  wl_buffer_get-IsSilent,
}
use libgbm.Format.{gbm_format_canonicalize}
use libgbm.Kms.Formats.{einval}
use libgbm.Kms.Silence.{read-IsSilent}
use libgbm.Kms.Import.{
  copy_planes, wl_planes, gbm_kms_import_wl_buffer, gbm_kms_import_fd, import_handles, modifier_bo,
  gbm_kms_import_fd_modifier, import_as_wl_buffer, import_as_fd, import_as_fd_modifier,
  gbm_kms_bo_import, imported_bo, zip_planes, import_wl_buffer, import_fd, import_fd_modifier,
}

option-IsSilent :
    {A B : Type 0} (o : Option A) {m : M B} {k : A → M B}
    → IsSilent m
    → ((a : A) → IsSilent (k a))
    → IsSilent (elim o [ none ↦ m | some a ↦ k a ])
option-IsSilent none first next = first
option-IsSilent (some a) first next = next a

copy_planes-IsSilent :
    (n i : ℕ) (source planes : List KmsPlane) → IsSilent (copy_planes n i source planes)
unfolding copy_planes
copy_planes-IsSilent zero i source planes = pure-IsSilent planes
copy_planes-IsSilent (suc n) i [] planes = crash-IsSilent
copy_planes-IsSilent (suc n) i (p ∷ source) planes =
    if-IsSilent (ltb i max_planes) (copy_planes-IsSilent n (suc i) source (set planes i p))
      crash-IsSilent

wl_planes-IsSilent : (buffer : WlKmsBuffer) (b : KmsBo) → IsSilent (wl_planes buffer b)
unfolding wl_planes
wl_planes-IsSilent buffer b =
    if-IsSilent _
      (bind-IsSilent (copy_planes-IsSilent (rounds buffer.num_planes) 0 buffer.planes b.planes)
        λ planes. pure-IsSilent _)
      (pure-IsSilent _)

module _ (env : Env) (gbm : Ptr) where
  import_wl_buffer-IsSilent : (p : Ptr) → IsSilent (gbm_kms_import_wl_buffer env gbm p)
  unfolding gbm_kms_import_wl_buffer
  import_wl_buffer-IsSilent p = bind-IsSilent (wl_buffer_get-IsSilent env p) λ found.
      option-IsSilent found (refuse-IsSilent einval null) λ buffer.
        bind-IsSilent (calloc-IsSilent env (a_bo zero_bo)) λ bo.
          if-IsSilent (bo == null) (pure-IsSilent null) (
            bind-IsSilent
              (wl_planes-IsSilent buffer (
                imported_bo gbm buffer.width buffer.height buffer.format buffer.stride
                  buffer.handle))
              λ b. bind-IsSilent (store-IsSilent bo (a_bo b)) λ _. pure-IsSilent bo)

  import_fd-IsSilent : (f : ImportFdData) → IsSilent (gbm_kms_import_fd env gbm f)
  unfolding gbm_kms_import_fd
  import_fd-IsSilent f = bind-IsSilent (load_device-IsSilent gbm) λ dev.
      bind-IsSilent (prime_fd_to_handle-IsSilent env dev.fd f.fd) λ r.
        if-IsSilent (not (is_zero r.ret)) (pure-IsSilent null) (
          bind-IsSilent (calloc-IsSilent env (a_bo zero_bo)) λ bo.
            if-IsSilent (bo == null) (pure-IsSilent null) (
              bind-IsSilent (read-IsSilent r.out) λ handle.
                bind-IsSilent
                  (store-IsSilent bo (
                    a_bo
                      (record (imported_bo gbm f.width f.height (gbm_format_canonicalize f.format)
                        f.stride handle) { num_planes = pos 1; allocated_handle = true })))
                  λ _. pure-IsSilent bo))

  import_handles-IsSilent : (n : ℕ) (fds : List ℤ) → IsSilent (import_handles env gbm n fds)
  unfolding import_handles
  import_handles-IsSilent zero fds = pure-IsSilent (some [])
  import_handles-IsSilent (suc n) [] = crash-IsSilent
  import_handles-IsSilent (suc n) (fd ∷ fds) = bind-IsSilent (load_device-IsSilent gbm) λ dev.
      bind-IsSilent (prime_fd_to_handle-IsSilent env dev.fd fd) λ r.
        if-IsSilent (not (is_zero r.ret)) (pure-IsSilent none) (
          bind-IsSilent (read-IsSilent r.out) λ handle.
            bind-IsSilent (import_handles-IsSilent n fds) λ rest.
              option-IsSilent rest (pure-IsSilent none)
                λ handles. pure-IsSilent (some (handle ∷ handles)))

  modifier_bo-IsSilent :
      (m : ImportFdModifierData) (handles : List ℕ) → IsSilent (modifier_bo env gbm m handles)
  unfolding modifier_bo
  modifier_bo-IsSilent m handles = bind-IsSilent (calloc-IsSilent env (a_bo zero_bo)) λ bo.
      if-IsSilent (bo == null) (pure-IsSilent null) (
        bind-IsSilent (read-IsSilent (get_elem? m.strides 0)) λ stride.
          bind-IsSilent (read-IsSilent (get_elem? handles 0)) λ handle.
            bind-IsSilent
              (copy_planes-IsSilent m.num_fds 0 (zip_planes handles m.strides) zero_bo.planes)
              λ planes.
                bind-IsSilent
                  (store-IsSilent bo (
                    a_bo
                      (record (imported_bo gbm m.width m.height (gbm_format_canonicalize m.format)
                        (to_u32 stride) handle) {
                          allocated_handle = true;
                          num_planes = pos m.num_fds;
                          planes = planes;
                        })))
                  λ _. pure-IsSilent bo)

  import_fd_modifier-IsSilent :
      (m : ImportFdModifierData) → IsSilent (gbm_kms_import_fd_modifier env gbm m)
  unfolding gbm_kms_import_fd_modifier
  import_fd_modifier-IsSilent m = if-IsSilent _ (refuse-IsSilent einval null) (
      if-IsSilent _ (refuse-IsSilent einval null) (
        bind-IsSilent (import_handles-IsSilent m.num_fds m.fds) λ found.
          option-IsSilent found (pure-IsSilent null) λ handles. modifier_bo-IsSilent m handles))

  pub bo_import-IsSilent :
      (type : ℕ) (buffer : ImportBuffer) (usage : ℕ)
      → IsSilent (gbm_kms_bo_import env gbm type buffer usage)
  unfolding gbm_kms_bo_import import_as_wl_buffer import_as_fd import_as_fd_modifier
  bo_import-IsSilent type (wl_buffer p) usage =
      if-IsSilent (type == import_wl_buffer) (import_wl_buffer-IsSilent p) (
        if-IsSilent (type == import_fd) crash-IsSilent
          (if-IsSilent (type == import_fd_modifier) crash-IsSilent (refuse-IsSilent einval null)))
  bo_import-IsSilent type (fd_data f) usage =
      if-IsSilent (type == import_wl_buffer) crash-IsSilent (
        if-IsSilent (type == import_fd) (import_fd-IsSilent f)
          (if-IsSilent (type == import_fd_modifier) crash-IsSilent (refuse-IsSilent einval null)))
  bo_import-IsSilent type (fd_modifier_data m) usage =
      if-IsSilent (type == import_wl_buffer) crash-IsSilent (
        if-IsSilent (type == import_fd) crash-IsSilent (
          if-IsSilent (type == import_fd_modifier) (import_fd_modifier-IsSilent m)
            (refuse-IsSilent einval null)))
