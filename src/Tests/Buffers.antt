-- ===== src/Tests/Buffers.antt =====
-- Creation and destruction of buffer objects on the bench.
use libgbm.Base.{pos, ◌≡◌, ◌≢◌, ◌⊎◌, inl, refl, some, none}
use libgbm.Types.{null, KmsBo, a_bo}
use libgbm.Machine.{Env, IsLawful, Returns}
use libgbm.Format.{gbm_format_canonicalize, xrgb8888, fourcc}
use libgbm.Kms.Lifetime.{gbm_kms_bo_create, gbm_kms_bo_destroy}
use libgbm.Kms.Lifetime.Stages.{Created, IsNew}
use libgbm.Kms.Lifetime.Creation.{bo_create-Created}
use libgbm.Kms.Lifetime.DescriptorZero.{closings, bo_create-bo_destroy_unclosed}
use libgbm.Tests.Bench.{bench, bench-IsLawful, card, card_heap, start}

bo_create-Created_example :
    Returns
      (Created (IsNew bench 1 64 32 xrgb8888 9) card_heap start.trace)
      (gbm_kms_bo_create bench 1 64 32 0 9 start)
unfolding gbm_format_canonicalize fourcc
bo_create-Created_example = bo_create-Created bench-IsLawful 1 64 32 0 9 card start refl

-- Standard input is closed: every export gets descriptor 0.
abbrev headless : Env
headless = record bench {
  prime_handle_to_fd = λ t dev_fd handle. record { ret = pos 0; out = some (pos 0) };
}

headless-IsLawful : IsLawful headless
headless-IsLawful = record {
  fresh = bench-IsLawful.fresh;
  created = bench-IsLawful.created;
  mapped = bench-IsLawful.mapped;
  exported = λ t dev_fd handle. inl (refl, (0, refl));
  imported = bench-IsLawful.imported;
  stated = bench-IsLawful.stated;
}

bo_create-bo_destroy_unclosed_example :
    Returns
      (λ p u.
        (p ≡ null)
        ⊎ ((p ≢ null)
            × ((b : KmsBo) × (u.heap p ≡ some (a_bo b)) × (b.fd ≡ pos 0))
            × Returns
                (λ _ v. (v.heap p ≡ none) × (closings v.trace ≡ closings u.trace))
                (gbm_kms_bo_destroy headless p u)))
      (gbm_kms_bo_create headless 1 64 32 0 9 start)
bo_create-bo_destroy_unclosed_example =
    bo_create-bo_destroy_unclosed headless-IsLawful 1 64 32 0 9 (λ t dev_fd handle. refl) card start
      refl
