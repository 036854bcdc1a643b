-- ===== src/Kms/Import/Sharing.antt =====
-- Two imports of one buffer: `gbm_kms_import_fd` where the kernel names the same handle twice.
use libgbm.Base.{
  ℕ, ℤ, pos, false, ◌≡◌, ◌≢◌, ◌⊎◌, refl, ap, ◌∙◌, some, none, ◌∷◌, inl, inr, arith, ◌==◌,
  Bool-cases,
}
use libgbm.Types.{Ptr, null, KmsBo, KmsDevice, ImportFdData, a_bo, a_device}
use libgbm.Machine.{
  Env, CallocIsFresh, Event, State, Trace, write, write_self, ne-null, free-Returns, Returns,
  returns, Returns-mono,
}
use libgbm.Kms.Lifetime.{gbm_kms_bo_destroy, release_handles, gbm_kms_bo_close_handle}
use libgbm.Kms.Import.{gbm_kms_import_fd}
use libgbm.Kms.Import.Single.{single_bo}

module _ (env : Env) (fresh : CallocIsFresh env) (gbm : Ptr) (d : KmsDevice) (h : ℕ) (ne : h ≢ 0)
    (same : (t : Trace) (fd : ℤ)
      → env.prime_fd_to_handle t d.fd fd ≡ record { ret = pos 0; out = some h }) where
  -- The import of a buffer whose handle is `h`.
  import-single :
      (data' : ImportFdData) (s : State)
      → s.heap gbm ≡ some (a_device d)
      → Returns
          (λ p u.
            (p ≡ null)
            ⊎ ((p ≢ null)
                × (s.heap p ≡ none)
                × ((q : Ptr) → u.heap q ≡ write s.heap p (some (a_bo (single_bo gbm data' h))) q)))
          (gbm_kms_import_fd env gbm data' s)
  unfolding gbm_kms_import_fd
  import-single data' s dev =
      rw (dev, same s.trace data'.fd)
        (elim (Bool-cases (env.calloc s.heap t == 0)) [
          | inl z ↦ rw z (returns (inl refl))
          | inr z ↦
              rw (z, z)
                (returns (inr (ground arith, fresh s.heap t (ground arith), λ q. ground arith)))
        ])
    where
      t : Trace
      t = Event.prime_fd_to_handle d.fd data'.fd (pos 0) (some h) ∷ s.trace

  destroy-single :
      (data' : ImportFdData) (p : Ptr) (s : State)
      → p ≢ null
      → s.heap p ≡ some (a_bo (single_bo gbm data' h))
      → s.heap gbm ≡ some (a_device d)
      → Returns
          (λ _ u.
            (u.trace ≡ Event.gem_close d.fd h ∷ s.trace)
            × ((q : Ptr) → u.heap q ≡ write s.heap p none q))
          (gbm_kms_bo_destroy env p s)
  unfolding gbm_kms_bo_destroy release_handles gbm_kms_bo_close_handle
  destroy-single data' p s np here dev =
      rw (ne-null p np, here, dev, ne-null h ne)
        (Returns-mono (free-Returns p (a_bo (single_bo gbm data' h)) _ np here)
          λ _ u (t, at). (t, λ q. ap (λ g. g q) at))

  -- One GEM_CLOSE too many: let the kernel name, for a device, one and the same handle `h` for
  -- every descriptor, as it does for the descriptors of one buffer, and calloc hand out unused
  -- addresses. If two imports by descriptor return objects, the destruction of the first closes `h`
  -- while the second object, still live, has it, and the destruction of the second closes `h`
  -- again.
  pub import_fd-shared_handle :
      (first second : ImportFdData) (s : State)
      → s.heap gbm ≡ some (a_device d)
      → Returns
          (λ p u.
            (p ≡ null)
            ⊎ Returns
                (λ q v.
                  (q ≡ null)
                  ⊎ Returns
                      (λ _ w.
                        (w.trace ≡ Event.gem_close d.fd h ∷ v.trace)
                        × ((b : KmsBo) × (w.heap q ≡ some (a_bo b)) × (b.base.handle ≡ h))
                        × Returns
                            (λ _ x. x.trace ≡ Event.gem_close d.fd h ∷ w.trace)
                            (gbm_kms_bo_destroy env q w))
                      (gbm_kms_bo_destroy env p v))
                (gbm_kms_import_fd env gbm second u))
          (gbm_kms_import_fd env gbm first s)
  import_fd-shared_handle first second s dev = Returns-mono (import-single first s dev) λ p u r.
      elim r [
        | inl e ↦ inl e
        | inr (np, free_p, at) ↦
            let dev_u : u.heap gbm ≡ some (a_device d) = ground (arith, at gbm, dev, free_p) in
            let here_u : u.heap p ≡ some (a_bo (single_bo gbm first h)) =
              at p ∙ write_self s.heap p _ in
            inr (
              Returns-mono (import-single second u dev_u) λ q v x. elim x [
                | inl e ↦ inl e
                | inr (nq, free_q, next) ↦
                    let apart : (p == q) ≡ false = ground (arith, free_q, here_u) in
                    let here_v : v.heap p ≡ some (a_bo (single_bo gbm first h)) =
                      ground (arith, next p, here_u, apart) in
                    let dev_v : v.heap gbm ≡ some (a_device d) =
                      ground (arith, next gbm, dev_u, free_q) in
                    let other_v : v.heap q ≡ some (a_bo (single_bo gbm second h)) =
                      next q ∙ write_self u.heap q _ in
                    inr (
                      Returns-mono (destroy-single first p v np here_v dev_v) λ _ w (t, gone).
                        let other_w : w.heap q ≡ some (a_bo (single_bo gbm second h)) =
                          ground (arith, gone q, other_v, apart) in
                        let dev_w : w.heap gbm ≡ some (a_device d) =
                          ground (arith, gone gbm, dev_v, here_v) in
                        (
                          t,
                          (single_bo gbm second h, other_w, refl),
                          Returns-mono (destroy-single second q w nq other_w dev_w) λ _ y (z, _). z,
                        ))
              ])
      ]
