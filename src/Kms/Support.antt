-- ===== src/Kms/Support.antt =====
-- The answer of `gbm_kms_is_format_supported` against what `gbm_kms_bo_create` does.
use libgbm.Base.{ℕ, pos, ◌≡◌, refl, ◌⊎◌, inl, inr, Bool-cases}
use libgbm.Types.{Ptr, null}
use libgbm.Machine.{Env, IsLawful, State, Returns, returns, Returns-mono}
use libgbm.Format.{gbm_format_canonicalize}
use libgbm.Kms.Formats.{is_32bpp, gbm_kms_is_format_supported, gbm_kms_get_format_plane_count}
use libgbm.Kms.Lifetime.{gbm_kms_bo_create}
use libgbm.Kms.Lifetime.Creation.{bo_create-unsupported}

-- If the libraries keep what they document, `gbm_kms_is_format_supported` answers 1 or 0, calls
-- nothing and keeps the heap; where it answers 0, a later `gbm_kms_bo_create` with that format
-- returns NULL and calls no library either, whatever its size and usage.
pub is_format_supported-bo_create :
    {env : Env} (law : IsLawful env) (gbm : Ptr) (width height format usage : ℕ) (s : State)
    → Returns
        (λ yes u.
          (u.heap ≡ s.heap)
          × (u.trace ≡ s.trace)
          × ((yes ≡ pos 1)
              ⊎ ((yes ≡ pos 0)
                  × Returns
                      (λ p v. (p ≡ null) × (v.trace ≡ s.trace))
                      (gbm_kms_bo_create env gbm width height format usage u))))
        (gbm_kms_is_format_supported gbm format usage s)
unfolding gbm_kms_is_format_supported gbm_kms_get_format_plane_count
is_format_supported-bo_create law gbm width height format usage s =
    elim (Bool-cases (is_32bpp (gbm_format_canonicalize format))) [
      | inl z ↦ rw z (returns (refl, refl, inl refl))
      | inr z ↦ rw z (
          returns (
            refl,
            refl,
            inr (
              refl,
              Returns-mono (bo_create-unsupported law gbm width height format usage _ z)
                  λ p v (e, _, t, _). (e, t),
            ),
          ))
    ]
