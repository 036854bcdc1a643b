-- ===== src/Frontend/Equivalences.antt =====
-- Functions of gbm.c that do the same work on the KMS backend.
use libgbm.Base.{
  ℕ, pos, negsuc, is_neg, true, false, ◌≡◌, ◌⊎◌, refl, some, ◌||◌, ◌==◌, inl, inr, Bool-cases,
}
use libgbm.Types.{Ptr, KmsDevice, KmsBo, a_bo, a_device}
use libgbm.Machine.{Env, IsLawful, State, Returns, returns}
use libgbm.Kms.Query.{gbm_kms_bo_get_fd, gbm_kms_bo_get_plane_fd, export_plane, plane_handle}
use libgbm.Kms.Table.{kms_gbm_device}
use libgbm.Frontend.Dispatch.{Tables}
use libgbm.Frontend.Buffer.{gbm_bo_get_fd, gbm_bo_get_fd_for_plane}
use libgbm.Frontend.Creation.{gbm_bo_create, gbm_bo_create_with_modifiers, modifiers_mismatch}
use libgbm.Frontend.SurfaceApi.{gbm_surface_create, gbm_surface_create_with_modifiers}

module _ (env : Env) (tables : Tables) (gbm : Ptr) (d : KmsDevice) (s : State)
    (live : s.heap gbm ≡ some (a_device d)) (kms : tables d.table ≡ kms_gbm_device env) where
  -- The KMS backend does not look at modifiers: on a device of it, and with an array of modifiers
  -- if and only if their number is not 0, `gbm_bo_create_with_modifiers` does just what
  -- `gbm_bo_create` does without usage flags, and `gbm_surface_create_with_modifiers` just what
  -- `gbm_surface_create` does without flags.
  pub create_with_modifiers-create :
      (width height format : ℕ) (modifiers : Ptr) (count : ℕ)
      → modifiers_mismatch modifiers count ≡ false
      → (gbm_bo_create_with_modifiers tables gbm width height format modifiers count s
          ≡ gbm_bo_create tables gbm width height format 0 s)
        × (gbm_surface_create_with_modifiers tables gbm width height format modifiers count s
            ≡ gbm_surface_create tables gbm width height format 0 s)
  unfolding gbm_bo_create_with_modifiers gbm_bo_create gbm_surface_create_with_modifiers
      gbm_surface_create
  create_with_modifiers-create width height format modifiers count e = (
    elim (Bool-cases ((width == 0) || (height == 0))) [
      | inl z ↦ rw z refl
      | inr z ↦ rw (z, e, live, kms) refl
    ],
    rw (e, live, kms) refl,
  )

-- Two ways to export an object of one plane: let the libraries keep what they document. On a live
-- object of the KMS backend with one plane, `gbm_bo_get_fd` and `gbm_bo_get_fd_for_plane` of plane
-- 0 ask the kernel the same question and leave the same state. They return the same descriptor, or,
-- if the kernel refuses, the first one its negative number and the second one -1.
pub get_fd-get_fd_for_plane :
    {env : Env} (law : IsLawful env) (tables : Tables) (bo : Ptr) (b : KmsBo) (d : KmsDevice)
    (s : State)
    → s.heap bo ≡ some (a_bo b)
    → s.heap b.base.gbm ≡ some (a_device d)
    → tables d.table ≡ kms_gbm_device env
    → b.num_planes ≡ pos 1
    → Returns
        (λ a u.
          Returns
            (λ c v. (u ≡ v) × ((a ≡ c) ⊎ ((is_neg a ≡ true) × (c ≡ negsuc 0))))
            (gbm_bo_get_fd_for_plane tables bo (pos 0) s))
        (gbm_bo_get_fd tables bo s)
unfolding gbm_bo_get_fd gbm_bo_get_fd_for_plane gbm_kms_bo_get_fd gbm_kms_bo_get_plane_fd
    export_plane plane_handle
get_fd-get_fd_for_plane law tables bo b d s here dev kms one =
    rw (here, dev, kms, here, dev)
      (elim (law.exported s.trace d.fd b.base.handle) [
        | inl (r, (m, out)) ↦
            simp (r, out) (returns (simp one (rw dev (simp (r, out) (returns (refl, inl refl))))))
        | inr (r, out) ↦
            simp r (returns (simp one (rw dev (simp r (returns (refl, inr (refl, refl)))))))
      ])
