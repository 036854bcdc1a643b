-- ===== src/Kms/Lifetime/DescriptorZero.antt =====
-- Descriptor 0 under `gbm_kms_bo_create` and `gbm_kms_bo_destroy`.
use libgbm.Base.{
  Bool, false, not, ℕ, ◌+◌, ℤ, pos, true, ◌≡◌, ◌≢◌, ◌⊎◌, refl, ap, ◌∙◌, some, none, [], ◌∷◌, inl,
  inr, ◌==◌,
}
use libgbm.Types.{Ptr, null, KmsBo, KmsDevice, a_bo, a_device}
use libgbm.Machine.{
  Env, IsLawful, Event, State, Trace, write_self, ne-null, emit, free-some, Returns, returns,
  Returns-bind, Returns-mono,
}
use libgbm.Kms.Lifetime.{when, gbm_kms_bo_create, gbm_kms_bo_destroy, release_allocated}
use libgbm.Kms.Lifetime.Stages.{failed, made, IsExported, exported}
use libgbm.Kms.Lifetime.Creation.{bo_create-Created}

-- How often close was called.
abbrev pub closings : Trace → ℕ
closings [] = 0
closings (Event.close fd ∷ t) = 1 + closings t
closings (_ ∷ t) = closings t

module _ (env : Env) where
  when-kept :
      (c : Bool) (e : Event) (s : State)
      → closings (e ∷ s.trace) ≡ closings s.trace
      → Returns
          (λ _ u. (u.heap ≡ s.heap) × (closings u.trace ≡ closings s.trace))
          (when c (emit env e) s)
  when-kept true e s same = returns (refl, same)
  when-kept false e s same = returns (refl, refl)

  -- An object that has descriptor 0 is released without a call of close.
  release-kept :
      (b : KmsBo) (s : State)
      → b.fd ≡ pos 0
      → Returns
          (λ _ u. (u.heap ≡ s.heap) × (closings u.trace ≡ closings s.trace))
          (release_allocated env b s)
  unfolding release_allocated
  release-kept b s zero' = rw zero' (
      Returns-bind (when-kept (not (b.addr == null)) (Event.kms_bo_unmap b.bo) s refl) λ _ u (h, c).
        Returns-mono (when-kept (not (b.bo == null)) (Event.kms_bo_destroy b.bo) u refl)
          λ _ v (k, e). (k ∙ h, e ∙ c))

  destroy-kept :
      (bo : Ptr) (b : KmsBo) (s : State)
      → bo ≢ null
      → b.allocated ≡ true
      → b.fd ≡ pos 0
      → s.heap bo ≡ some (a_bo b)
      → Returns
          (λ _ u. (u.heap bo ≡ none) × (closings u.trace ≡ closings s.trace))
          (gbm_kms_bo_destroy env bo s)
  unfolding gbm_kms_bo_destroy
  destroy-kept bo b s ne al zero' here =
      rw (ne-null bo ne, here)
        (simp al (
          Returns-bind (release-kept b s zero') λ _ u (h, c).
            rw (free-some bo (a_bo b) u ne (ap (λ g. g bo) h ∙ here))
              (returns (write_self u.heap bo none, c))))

-- Descriptor 0 is never closed: let the libraries keep what they document, the device be live, and
-- the kernel export every handle as descriptor 0, which is free where standard input is closed.
-- Then `gbm_kms_bo_create` returns NULL, or a new object with descriptor 0, of which
-- `gbm_kms_bo_destroy` frees the memory and does not call close.
pub bo_create-bo_destroy_unclosed :
    {env : Env} (law : IsLawful env) (gbm : Ptr) (width height format usage : ℕ)
    → ((t : Trace) (dev_fd : ℤ) (handle : ℕ)
        → (env.prime_handle_to_fd t dev_fd handle).out ≡ some (pos 0))
    → (d : KmsDevice) (s : State) → s.heap gbm ≡ some (a_device d)
    → Returns
        (λ p u.
          (p ≡ null)
          ⊎ ((p ≢ null)
              × ((b : KmsBo) × (u.heap p ≡ some (a_bo b)) × (b.fd ≡ pos 0))
              × Returns
                  (λ _ v. (v.heap p ≡ none) × (closings v.trace ≡ closings u.trace))
                  (gbm_kms_bo_destroy env p u)))
        (gbm_kms_bo_create env gbm width height format usage s)
bo_create-bo_destroy_unclosed {env} law gbm width height format usage always d s dev =
    Returns-mono (bo_create-Created law gbm width height format usage d s dev) λ p u c. elim c [
      | failed e un ↦ inl e
      | made b ne unused al new st ↦
          let here : u.heap p ≡ some (a_bo b) = st.at p ∙ write_self s.heap p (some (a_bo b)) in
          let zero' : b.fd ≡ pos 0 = exported_zero b.base.handle b.fd new.descriptor in
          inr (ne, (b, here, zero'), destroy-kept env p b u ne al zero' here)
    ]
  where
    exported_zero : (handle : ℕ) (fd : ℤ) → IsExported env handle fd → fd ≡ pos 0
    exported_zero handle fd (exported t dev_fd out) = let z = always t dev_fd handle in cc
