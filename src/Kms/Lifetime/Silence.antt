-- ===== src/Kms/Lifetime/Silence.antt =====
-- gbm_kms_bo_destroy calls no callback of the client: that is left to gbm.c.
use libgbm.Base.{ℤ, ℕ, zero, suc, is_zero, rounds, not, List, [], ◌∷◌, refl, ◌==◌}
use libgbm.Types.{has_one_plane, Ptr, null, KmsBo, KmsPlane}
use libgbm.Machine.{
  Env, IsSilent, bind-IsSilent, if-IsSilent, pure-IsSilent, load_bo-IsSilent, load_device-IsSilent,
  free-IsSilent,
}
use libgbm.Kms.Lifetime.{
  gbm_kms_bo_close_handle, close_planes, release_allocated, release_handles, gbm_kms_bo_destroy,
}

module _ (env : Env) where
  close_handle-IsSilent : (fd : ℤ) (handle : ℕ) → IsSilent (gbm_kms_bo_close_handle env fd handle)
  unfolding gbm_kms_bo_close_handle
  close_handle-IsSilent fd handle =
      if-IsSilent (handle == 0) (pure-IsSilent tt) (record { calls_none = λ s. refl })

  close_planes-IsSilent :
      (gbm : Ptr) (n : ℕ) (planes : List KmsPlane) → IsSilent (close_planes env gbm n planes)
  unfolding close_planes
  close_planes-IsSilent gbm zero planes = pure-IsSilent tt
  close_planes-IsSilent gbm (suc n) [] = record { calls_none = λ s. tt }
  close_planes-IsSilent gbm (suc n) (p ∷ planes) = bind-IsSilent (load_device-IsSilent gbm) λ dev.
      bind-IsSilent (close_handle-IsSilent dev.fd p.handle) λ _. close_planes-IsSilent gbm n planes

  release_allocated-IsSilent : (b : KmsBo) → IsSilent (release_allocated env b)
  unfolding release_allocated
  release_allocated-IsSilent b =
      bind-IsSilent
        (if-IsSilent (not (b.addr == null)) (record { calls_none = λ s. refl }) (pure-IsSilent tt))
        λ _.
          bind-IsSilent
            (if-IsSilent (not (is_zero b.fd)) (record { calls_none = λ s. refl })
              (pure-IsSilent tt))
            λ _.
              if-IsSilent (not (b.bo == null)) (record { calls_none = λ s. refl })
                (pure-IsSilent tt)

  release_handles-IsSilent : (b : KmsBo) → IsSilent (release_handles env b)
  unfolding release_handles
  release_handles-IsSilent b =
      if-IsSilent (has_one_plane b)
        (bind-IsSilent (load_device-IsSilent b.base.gbm)
          λ dev. close_handle-IsSilent dev.fd b.base.handle)
        (close_planes-IsSilent b.base.gbm (rounds b.num_planes) b.planes)

  pub bo_destroy-IsSilent : (bo : Ptr) → IsSilent (gbm_kms_bo_destroy env bo)
  unfolding gbm_kms_bo_destroy
  bo_destroy-IsSilent bo = if-IsSilent (bo == null) (pure-IsSilent tt) (
      bind-IsSilent (load_bo-IsSilent bo) λ b.
        bind-IsSilent
          (if-IsSilent b.allocated (release_allocated-IsSilent b)
            (if-IsSilent b.allocated_handle (release_handles-IsSilent b) (pure-IsSilent tt)))
          λ _. free-IsSilent bo)
