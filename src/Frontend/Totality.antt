-- ===== src/Frontend/Totality.antt =====
-- gbm_create_device over the whole loader: it ends, whatever the system and the backends answer.
use libgbm.Base.{ℤ, is_neg, true, ◌≡◌, ◌≢◌, ◌⊎◌, inl, inr, refl, some, Bool-cases}
use libgbm.Types.{null, KmsDevice, a_device}
use libgbm.Machine.{Env, IsLawful, State, Returns, returns, Returns-bind, write_self, ne-null}
use libgbm.Loader.{DynamicLoader, gbm_create_device_from_backend}
use libgbm.Loader.Totality.{IsResponsive, create_device_from_backend-Returns}
use libgbm.Frontend.Device.{gbm_create_device, character_device}

-- `gbm_create_device` always ends, and without a fault: let fstat keep what its manual says, and
-- each backend that the loader finds return NULL or a device from its `create_device`. Then for
-- every descriptor, whether or not GBM_BACKEND is set, and whichever modules can be loaded, it
-- returns NULL, or a live device that is marked as one and has one reference.
pub create_device-Returns :
    {env : Env} (law : IsLawful env) (loader : DynamicLoader) (fd : ℤ)
    → IsResponsive loader fd
    → (s : State)
    → Returns
        (λ p u.
          (p ≡ null)
          ⊎ ((p ≢ null)
              × ((d : KmsDevice) × (u.heap p ≡ some (a_device d))
                  × (d.dummy ≡ true)
                  × (d.refcount ≡ 1))))
        (gbm_create_device env (gbm_create_device_from_backend env loader) fd s)
unfolding gbm_create_device character_device
create_device-Returns {env} law loader fd responsive s = elim (Bool-cases (is_neg fd)) [
  | inl z ↦ rw z (returns (inl refl))
  | inr z ↦ rw z (elim (law.stated s.trace fd) [
    | inl e ↦ rw e (returns (inl refl))
    | inr (e, (buf, o)) ↦
        rw (e, o)
          (elim (Bool-cases buf.is_chr) [
            | inr c ↦ simp c (returns (inl refl))
            | inl c ↦ simp c (
                Returns-bind (create_device_from_backend-Returns env loader fd responsive _)
                  λ p u r. elim r [
                    | inl n ↦ rw n (returns (inl refl))
                    | inr (n, (d, at)) ↦
                        rw (ne-null p n, at)
                          (returns (inr (n, (_, write_self u.heap p _, refl, refl))))
                  ])
          ])
  ])
]
