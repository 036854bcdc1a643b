-- ===== src/Tests/Stack.antt =====
-- The whole stack on the bench: gbm.c over the KMS backend.
use libgbm.Base.{ℕ, pos, ◌≡◌, ◌⊎◌, refl, []}
use libgbm.Types.{null}
use libgbm.Machine.{Returns, ok}
use libgbm.Kms.Formats.{gbm_kms_is_format_supported}
use libgbm.Kms.Lifetime.{gbm_kms_bo_create}
use libgbm.Kms.Support.{is_format_supported-bo_create}
use libgbm.Kms.Table.{kms_gbm_device}
use libgbm.Frontend.Dispatch.{Tables}
use libgbm.Frontend.Buffer.{gbm_bo_get_stride, gbm_bo_write}
use libgbm.Frontend.Creation.{gbm_bo_create}
use libgbm.Frontend.Writing.{Outcome, gbm_bo_create-gbm_bo_write}
use libgbm.Tests.Bench.{bench, bench-IsLawful, card, start}

-- Every table is the KMS backend's.
abbrev pub tables : Tables
tables n = kms_gbm_device bench

is_format_supported-bo_create_example :
    Returns
      (λ yes u.
        (u.heap ≡ start.heap)
        × (u.trace ≡ [])
        × ((yes ≡ pos 1)
            ⊎ ((yes ≡ pos 0)
                × Returns
                    (λ p v. (p ≡ null) × (v.trace ≡ []))
                    (gbm_kms_bo_create bench 1 64 32 7 8 u))))
      (gbm_kms_is_format_supported 1 7 8 start)
is_format_supported-bo_create_example =
    is_format_supported-bo_create bench-IsLawful 1 64 32 7 8 start

gbm_bo_create-gbm_bo_write_example :
    Returns
      (λ p u.
        (p ≡ null)
        ⊎ ((stride : ℕ) × (gbm_bo_get_stride tables p u ≡ ok stride u)
            × Returns
                (Outcome bench-IsLawful tables 1 card refl 64 32 1 8 stride 500 u)
                (gbm_bo_write tables p 900 500 u)))
      (gbm_bo_create tables 1 64 32 1 8 start)
gbm_bo_create-gbm_bo_write_example =
    gbm_bo_create-gbm_bo_write bench-IsLawful tables 1 card refl 64 32 1 8 900 500 start refl
