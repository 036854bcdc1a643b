-- ===== src/Frontend/Writing.antt =====
-- Writing to a new object through gbm.c: what is accepted stays within the object.
use libgbm.Base.{
  ℕ, ◌*◌, ◌%◌, ◌^◌, ◌<◌, ◌≤◌, ℤ, pos, negsuc, true, false, ◌||◌, ◌≡◌, ◌⊎◌, inl, inr, refl, ◌∙◌,
  some, ◌==◌, arith, Bool-cases,
}
use libgbm.Types.{Ptr, null, KmsDevice, KmsBo, a_device, a_bo}
use libgbm.Machine.{Env, IsLawful, State, write_self, ok, Returns, returns, Returns-mono}
use libgbm.Kms.Lifetime.{has_flag, use_write}
use libgbm.Kms.Lifetime.Stages.{IsNew, failed, made}
use libgbm.Kms.Lifetime.Creation.{bo_create-Created}
use libgbm.Kms.Mapping.Access.{bo_write_lem}
use libgbm.Kms.Query.{gbm_kms_bo_get_stride, plane_stride}
use libgbm.Kms.Table.{kms_gbm_device}
use libgbm.Frontend.Dispatch.{Tables}
use libgbm.Frontend.Buffer.{gbm_bo_get_stride, gbm_bo_write}
use libgbm.Frontend.Creation.{gbm_bo_create}

module _ {env : Env} (law : IsLawful env) (tables : Tables) (gbm : Ptr) (d : KmsDevice)
    (kms : tables d.table ≡ kms_gbm_device env) (width height format usage : ℕ) where
  new_stride :
      (p : Ptr) (b : KmsBo) (fourcc : ℕ) (u : State)
      → IsNew env gbm width height fourcc usage b
      → u.heap p ≡ some (a_bo b)
      → u.heap gbm ≡ some (a_device d)
      → gbm_bo_get_stride tables p u ≡ ok b.base.stride u
  unfolding gbm_bo_get_stride gbm_kms_bo_get_stride plane_stride
  new_stride p b fourcc u new here live =
      rw (here, new.device, live, kms) (rw here (simp new.one_plane refl))

  -- What a write of `count` bytes to a new object with the given stride does.
  abbrev pub Outcome : (stride count : ℕ) → State → ℤ → State → Type 0
  Outcome stride count u ret v =
      ((ret ≡ pos 0) × (has_flag usage use_write ≡ true) × (count ≤ stride * height % 2 ^ 32))
      ⊎ ((ret ≡ negsuc 0)
          × (v.trace ≡ u.trace)
          × ((has_flag usage use_write ≡ false) ⊎ (stride * height % 2 ^ 32 < count)))

  new_write :
      (p : Ptr) (b : KmsBo) (fourcc : ℕ) (u : State) (buf : Ptr) (count : ℕ)
      → IsNew env gbm width height fourcc usage b
      → u.heap p ≡ some (a_bo b)
      → u.heap gbm ≡ some (a_device d)
      → Returns (Outcome b.base.stride count u) (gbm_bo_write tables p buf count u)
  unfolding gbm_bo_write
  new_write p b fourcc u buf count new here live =
      rw (here, new.device, live, kms)
        (Returns-mono (bo_write_lem env p b u here buf count) λ ret v (_, r). elim r [
          | inl (e, mapped, fits, _) ↦ elim (Bool-cases (has_flag usage use_write)) [
            | inl z ↦ inl (e, z, rw (← new.sized) fits)
            | inr z ↦ absurd (mapped (new.unmapped z).0)
          ]
          | inr (e, t, why) ↦ elim why [
            | inl (unmapped, _) ↦ elim (Bool-cases (has_flag usage use_write)) [
              | inl z ↦ absurd ((new.writable z).0 unmapped)
              | inr z ↦ inr (e, t, inl z)
            ]
            | inr (_, over, _) ↦ inr (e, t, inr (rw (← new.sized) over))
          ]
        ])

  -- A new object is written within its bounds: if the libraries keep what they document, on a live
  -- device of the KMS backend, for an object that `gbm_bo_create` returns and the stride that
  -- `gbm_bo_get_stride` tells of it, `gbm_bo_write` returns 0 only if the object was made for
  -- writing and the bytes are at most stride times height, as 32 bits hold that product. Else it
  -- returns -1 and copies nothing, and then the object was not made for writing or the bytes are
  -- more than that.
  pub gbm_bo_create-gbm_bo_write :
      (buf : Ptr) (count : ℕ) (s : State)
      → s.heap gbm ≡ some (a_device d)
      → Returns
          (λ p u.
            (p ≡ null)
            ⊎ ((stride : ℕ) × (gbm_bo_get_stride tables p u ≡ ok stride u)
                × Returns (Outcome stride count u) (gbm_bo_write tables p buf count u)))
          (gbm_bo_create tables gbm width height format usage s)
  unfolding gbm_bo_create
  gbm_bo_create-gbm_bo_write buf count s live = elim (Bool-cases ((width == 0) || (height == 0))) [
    | inl z ↦ rw z (returns (inl refl))
    | inr z ↦
        rw (z, live, kms)
          (Returns-mono (bo_create-Created law gbm width height format usage d s live) λ p u c.
            elim c [
              | failed e un ↦ inl e
              | made b ne unused al new st ↦
                  let here : u.heap p ≡ some (a_bo b) =
                    st.at p ∙ write_self s.heap p (some (a_bo b)) in
                  let dev : u.heap gbm ≡ some (a_device d) =
                    ground (arith, st.at gbm, live, unused) in
                  inr (
                    b.base.stride,
                    new_stride p b _ u new here dev,
                    new_write p b _ u buf count new here dev,
                  )
            ])
  ]
