-- ===== src/Kms/Silence.antt =====
-- No function of the KMS backend on buffer objects calls a callback of the client: that is left to
-- gbm.c.
use libgbm.Base.{
  ℕ, ℤ, negsuc, decrement, is_zero, is_neg, neg, ltb, rounds, get_elem?, Option, none, some, refl,
  ◌==◌,
}
use libgbm.Types.{Ptr, null, no_mapping, KmsBo, a_bo, zero_bo, has_one_plane}
use libgbm.Machine.{
  Env, or_else, Event, KmsAttr, IsSilent, bind-IsSilent, if-IsSilent, pure-IsSilent,
  calloc-IsSilent, emit-IsSilent, kms_bo_create-IsSilent, kms_bo_get_prop-IsSilent,
  kms_bo_map-IsSilent, prime_handle_to_fd-IsSilent, refuse-IsSilent, load_bo-IsSilent,
  load_device-IsSilent, crash-IsSilent, set_errno-IsSilent, store-IsSilent,
}
use libgbm.Format.{gbm_format_canonicalize}
use libgbm.Kms.Formats.{is_32bpp, einval}
use libgbm.Kms.Mapping.{
  gbm_kms_bo_map_ref, gbm_kms_bo_map_unref, map_first, count_mapping, unmap_last, gbm_kms_bo_map,
  gbm_kms_bo_unmap, gbm_kms_bo_write, set_addr, efault,
}
use libgbm.Kms.Lifetime.{
  stored, use_cursor, new_bo, kms_attributes, new_bo, kms_attributes, gbm_kms_bo_create,
  create_storage, create_export, create_mapping, create_failed, has_flag, use_write,
}
use libgbm.Kms.Lifetime.Silence.{bo_destroy-IsSilent}
use libgbm.Kms.Query.{
  read, no_such_plane, plane_stride, plane_handle, export_plane, no_handle, gbm_kms_bo_get_stride,
  gbm_kms_bo_get_handle, gbm_kms_bo_get_fd, gbm_kms_bo_get_plane_fd,
}

pub read-IsSilent : {A : Type 0} (o : Option A) → IsSilent (read o)
read-IsSilent none = crash-IsSilent
read-IsSilent (some a) = pure-IsSilent a

count_mapping-IsSilent : (bo : Ptr) (b : KmsBo) → IsSilent (count_mapping bo b)
unfolding count_mapping
count_mapping-IsSilent bo b = record { calls_none = λ s. refl }

module _ (env : Env) where
  map_first-IsSilent : (bo : Ptr) (b : KmsBo) → IsSilent (map_first env bo b)
  unfolding map_first
  map_first-IsSilent bo b = bind-IsSilent (kms_bo_map-IsSilent env b.bo) λ r.
      bind-IsSilent (store-IsSilent bo (a_bo (set_addr r.out b))) λ _.
        if-IsSilent (is_neg r.ret) (pure-IsSilent r.ret)
          (count_mapping-IsSilent bo (set_addr r.out b))

  map_ref-IsSilent : (bo : Ptr) → IsSilent (gbm_kms_bo_map_ref env bo)
  unfolding gbm_kms_bo_map_ref
  map_ref-IsSilent bo =
      bind-IsSilent (load_bo-IsSilent bo)
        λ b. if-IsSilent (is_zero b.map_ref) (map_first-IsSilent bo b) (count_mapping-IsSilent bo b)

  unmap_last-IsSilent : (bo : Ptr) (b : KmsBo) → IsSilent (unmap_last env bo b)
  unfolding unmap_last
  unmap_last-IsSilent bo b = bind-IsSilent (store-IsSilent bo (a_bo b)) λ _.
      if-IsSilent (is_zero b.map_ref)
        (bind-IsSilent (emit-IsSilent env (Event.kms_bo_unmap b.bo) (λ t. refl))
          λ _. store-IsSilent bo (a_bo (record b { addr = null })))
        (pure-IsSilent tt)

  map_unref-IsSilent : (bo : Ptr) → IsSilent (gbm_kms_bo_map_unref env bo)
  unfolding gbm_kms_bo_map_unref
  map_unref-IsSilent bo = bind-IsSilent (load_bo-IsSilent bo) λ b.
      if-IsSilent (b.addr == null) (pure-IsSilent tt)
        (unmap_last-IsSilent bo (record b { map_ref = decrement b.map_ref }))

  pub bo_map-IsSilent :
      (bo : Ptr) (x y width height flags : ℕ)
      → IsSilent (gbm_kms_bo_map env bo x y width height flags)
  unfolding gbm_kms_bo_map
  bo_map-IsSilent bo x y width height flags = bind-IsSilent (load_bo-IsSilent bo) λ b.
      if-IsSilent _ (refuse-IsSilent einval no_mapping) (
        bind-IsSilent (map_ref-IsSilent bo) λ ret.
          if-IsSilent (is_neg ret) (refuse-IsSilent (neg ret) no_mapping)
            (bind-IsSilent (load_bo-IsSilent bo) λ c. pure-IsSilent _))

  pub bo_unmap-IsSilent : (bo map_data : Ptr) → IsSilent (gbm_kms_bo_unmap env bo map_data)
  unfolding gbm_kms_bo_unmap
  bo_unmap-IsSilent bo map_data =
      bind-IsSilent (load_bo-IsSilent bo)
        λ b. if-IsSilent _ (pure-IsSilent tt) (map_unref-IsSilent bo)

  pub bo_write-IsSilent : (bo buf : Ptr) (count : ℕ) → IsSilent (gbm_kms_bo_write env bo buf count)
  unfolding gbm_kms_bo_write
  bo_write-IsSilent bo buf count = bind-IsSilent (load_bo-IsSilent bo) λ b.
      if-IsSilent (b.addr == null) (refuse-IsSilent efault (negsuc 0)) (
        if-IsSilent (ltb b.size count) (record { calls_none = λ s. refl })
          (record { calls_none = λ s. refl }))

  create_failed-IsSilent : (bo : Ptr) → IsSilent (create_failed env bo)
  unfolding create_failed
  create_failed-IsSilent bo = bind-IsSilent (bo_destroy-IsSilent env bo) λ _. pure-IsSilent null

  create_mapping-IsSilent : (bo : Ptr) (usage : ℕ) → IsSilent (create_mapping env bo usage)
  unfolding create_mapping
  create_mapping-IsSilent bo usage =
      if-IsSilent (has_flag usage use_write)
        (bind-IsSilent (map_ref-IsSilent bo) λ ret.
          if-IsSilent (is_zero ret) (pure-IsSilent bo)
            (bind-IsSilent (set_errno-IsSilent (neg ret)) λ _. create_failed-IsSilent bo))
        (pure-IsSilent bo)

  create_export-IsSilent :
      (gbm bo kms_bo : Ptr) (width height fourcc usage : ℕ)
      → IsSilent (create_export env gbm bo kms_bo width height fourcc usage)
  unfolding create_export
  create_export-IsSilent gbm bo kms_bo width height fourcc usage =
      bind-IsSilent (kms_bo_get_prop-IsSilent env kms_bo KmsAttr.handle) λ handle.
        bind-IsSilent (kms_bo_get_prop-IsSilent env kms_bo KmsAttr.pitch) λ stride.
          let b = new_bo gbm kms_bo width height fourcc (stored handle 0) (stored stride 0) in
          bind-IsSilent (store-IsSilent bo (a_bo b)) λ _.
            bind-IsSilent (load_device-IsSilent gbm) λ dev.
              bind-IsSilent (prime_handle_to_fd-IsSilent env dev.fd b.base.handle) λ r.
                bind-IsSilent (store-IsSilent bo (a_bo (record b { fd = or_else r.out b.fd }))) λ _.
                  if-IsSilent (is_zero r.ret) (create_mapping-IsSilent bo usage)
                    (create_failed-IsSilent bo)

  create_storage-IsSilent :
      (gbm bo : Ptr) (width height fourcc usage : ℕ)
      → IsSilent (create_storage env gbm bo width height fourcc usage)
  unfolding create_storage
  create_storage-IsSilent gbm bo width height fourcc usage =
      bind-IsSilent (load_device-IsSilent gbm) λ dev.
        bind-IsSilent
          (kms_bo_create-IsSilent env dev.kms
            (kms_attributes (has_flag usage use_cursor) width height))
          λ r.
            bind-IsSilent (store-IsSilent bo (a_bo (record zero_bo { bo = stored r.out null })))
              λ _.
                if-IsSilent (is_zero r.ret)
                  (create_export-IsSilent gbm bo (stored r.out null) width height fourcc usage)
                  (bind-IsSilent (set_errno-IsSilent (neg r.ret)) λ _. create_failed-IsSilent bo)

  pub bo_create-IsSilent :
      (gbm : Ptr) (width height format usage : ℕ)
      → IsSilent (gbm_kms_bo_create env gbm width height format usage)
  unfolding gbm_kms_bo_create
  bo_create-IsSilent gbm width height format usage =
      bind-IsSilent (calloc-IsSilent env (a_bo zero_bo)) λ bo.
        if-IsSilent (bo == null) (pure-IsSilent null) (
          if-IsSilent (is_32bpp (gbm_format_canonicalize format))
            (create_storage-IsSilent gbm bo width height _ usage)
            (bind-IsSilent (set_errno-IsSilent einval) λ _. create_failed-IsSilent bo))

plane_stride-IsSilent : (b : KmsBo) (plane : ℤ) → IsSilent (plane_stride b plane)
unfolding plane_stride
plane_stride-IsSilent b plane =
    if-IsSilent (has_one_plane b) (pure-IsSilent b.base.stride) (
      bind-IsSilent (read-IsSilent (get_elem? b.planes (rounds plane))) λ p. pure-IsSilent p.stride)

pub get_stride-IsSilent : (bo : Ptr) (plane : ℤ) → IsSilent (gbm_kms_bo_get_stride bo plane)
unfolding gbm_kms_bo_get_stride
get_stride-IsSilent bo plane = bind-IsSilent (load_bo-IsSilent bo) λ b.
    if-IsSilent (no_such_plane b plane) (refuse-IsSilent einval 0) (plane_stride-IsSilent b plane)

plane_handle-IsSilent : (b : KmsBo) (plane : ℤ) → IsSilent (plane_handle b plane)
unfolding plane_handle
plane_handle-IsSilent b plane =
    if-IsSilent (has_one_plane b) (pure-IsSilent b.base.handle) (
      bind-IsSilent (read-IsSilent (get_elem? b.planes (rounds plane))) λ p. pure-IsSilent p.handle)

pub get_handle-IsSilent : (bo : Ptr) (plane : ℤ) → IsSilent (gbm_kms_bo_get_handle bo plane)
unfolding gbm_kms_bo_get_handle
get_handle-IsSilent bo plane = bind-IsSilent (load_bo-IsSilent bo) λ b.
    if-IsSilent (no_such_plane b plane) (refuse-IsSilent einval no_handle)
      (plane_handle-IsSilent b plane)

module _ (env : Env) where
  pub get_fd-IsSilent : (bo : Ptr) → IsSilent (gbm_kms_bo_get_fd env bo)
  unfolding gbm_kms_bo_get_fd
  get_fd-IsSilent bo = bind-IsSilent (load_bo-IsSilent bo) λ b.
      bind-IsSilent (load_device-IsSilent b.base.gbm) λ dev.
        bind-IsSilent (prime_handle_to_fd-IsSilent env dev.fd b.base.handle)
          λ r. if-IsSilent (is_neg r.ret) (pure-IsSilent r.ret) (read-IsSilent r.out)

  export_plane-IsSilent : (b : KmsBo) (plane : ℤ) → IsSilent (export_plane env b plane)
  unfolding export_plane
  export_plane-IsSilent b plane = bind-IsSilent (plane_handle-IsSilent b plane) λ handle.
      bind-IsSilent (load_device-IsSilent b.base.gbm) λ dev.
        bind-IsSilent (prime_handle_to_fd-IsSilent env dev.fd handle)
          λ r. if-IsSilent (is_neg r.ret) (pure-IsSilent (negsuc 0)) (read-IsSilent r.out)

  pub get_plane_fd-IsSilent :
      (bo : Ptr) (plane : ℤ) → IsSilent (gbm_kms_bo_get_plane_fd env bo plane)
  unfolding gbm_kms_bo_get_plane_fd
  get_plane_fd-IsSilent bo plane = bind-IsSilent (load_bo-IsSilent bo) λ b.
      if-IsSilent (no_such_plane b plane) (refuse-IsSilent einval (negsuc 0))
        (export_plane-IsSilent b plane)
